-- ===== src/RateLimit/LeadWindow.antt =====
-- app/services/rate_limiter.py: `_LeadWindowBucket` and `LeadCaptureRateLimiter`. The key text
-- `lead:{tenant_id}:{session_id}` is the pair of the two: a UUID's text has no colon. The clock is
-- the argument `now`, in the unit of `window_seconds`.
pub mod Quota
use multi_tenant_ai_chatbot.Prelude.{
  ℕ, ◌+◌, String, Bool, true, false, ◌||◌, Option, none, some, List, [], leb, or_else,
  if◌then◌else◌,
}
use multi_tenant_ai_chatbot.Prelude.Dict.{SessionKey, session_key, lookup, insert, erase}

pub record LeadWindowBucket : Type 0 where
  pub cap : ℕ
  pub window_seconds : ℕ
  pub count : ℕ
  pub window_started_at : ℕ

pub record LeadLimiter : Type 0 where
  pub default_cap : ℕ
  pub window_seconds : ℕ
  pub buckets : List (SessionKey × LeadWindowBucket)

-- `LeadCaptureRateLimiter.__init__`, with its default arguments
abbrev pub new_limiter : LeadLimiter
new_limiter = record { default_cap = 5; window_seconds = 3600; buckets = [] }

-- `LeadCaptureRateLimiter.key`
abbrev pub key : ℕ → String → SessionKey
key tenant_id session_id = (tenant_id, session_id)

-- the bucket of this call: a new window, or the stored one under the current cap
unfoldable pub current_bucket :
    LeadLimiter → Option LeadWindowBucket → (cap now : ℕ) → LeadWindowBucket
current_bucket l none cap now = record {
  cap = cap;
  window_seconds = l.window_seconds;
  count = 0;
  window_started_at = now;
}
current_bucket l (some b) cap now =
    if leb (b.window_started_at + l.window_seconds) now
    then record { cap = cap; window_seconds = l.window_seconds; count = 0; window_started_at = now }
    else record b { cap = cap }

unfoldable pub count_call : LeadWindowBucket → LeadWindowBucket × Bool
count_call b = if leb b.cap b.count then (b, false) else (record b { count = b.count + 1 }, true)

unfoldable pub check_and_increment :
    LeadLimiter → (now tenant_id : ℕ) (session_id : String) → Option ℕ → LeadLimiter × Bool
unfolding current_bucket count_call
check_and_increment l now tenant_id session_id cap =
    let scope_key = key tenant_id session_id in
    let effective_cap = or_else cap l.default_cap in
    let (b, allowed) =
      count_call (current_bucket l (lookup scope_key l.buckets) effective_cap now) in
    (record l { buckets = insert scope_key b l.buckets }, allowed)

unfoldable pub reset : LeadLimiter → (tenant_id : ℕ) → String → LeadLimiter
reset l tenant_id session_id = record l { buckets = erase (key tenant_id session_id) l.buckets }
