-- ===== src/RateLimit.antt =====
-- app/services/rate_limiter.py: the token buckets of the widget token endpoint, and the window of
-- `capture_lead`.
pub mod TokenBucket
pub mod LeadWindow
