-- ===== src/Tests/Limits.antt =====
-- Tests of the rate limiters and of the tenants' limits.
use multi_tenant_ai_chatbot.Prelude.{
  ℕ, ◌+◌, ◌-◌, ◌*◌, ◌≤◌, ◌≡◌, refl, true, none, some, [], ◌∷◌, arith,
}
use multi_tenant_ai_chatbot.RateLimit.TokenBucket.{TokenBucket, Limiter, check}
use multi_tenant_ai_chatbot.RateLimit.TokenBucket.Rate.{
  allowed_for, allowed_for-le_rate, check-allows_after_wait,
}
use multi_tenant_ai_chatbot.RateLimit.LeadWindow.{new_limiter}
use multi_tenant_ai_chatbot.RateLimit.LeadWindow.Quota.{Call, accepted_for, accepted_for-InWindow}
use multi_tenant_ai_chatbot.Tenants.Repository.{UsageEvent}

abbrev capture : ℕ → Call
capture now = record { now = now; tenant_id = 1; session_id = "s1"; cap = some 2 }

abbrev usage : UsageEvent
usage = record {
  feature = "chat";
  units = 4;
  unit_type = "call";
  estimated_cost_usd = 0;
  trace_id = none;
}

-- a limiter of two calls a minute, on a clock of seconds
abbrev two_a_minute : Limiter
two_a_minute = record { capacity = 2; refill_num = 2; refill_den = 60; buckets = [] }

allowed_for-le_rate_example :
    allowed_for "ip" two_a_minute (("ip", 10) ∷ ("ip", 11) ∷ ("other", 12) ∷ ("ip", 13) ∷ []) * 60
    ≤ 2 * 60 + (20 - 10) * 2
allowed_for-le_rate_example =
    allowed_for-le_rate "ip" two_a_minute 10 20
      (("ip", 10) ∷ ("ip", 11) ∷ ("other", 12) ∷ ("ip", 13) ∷ []) refl
      (omega arith, (omega arith, (omega arith, (omega arith, omega arith))))

-- one token, spent at 10
abbrev spent_bucket : TokenBucket
spent_bucket = record {
  capacity = 2;
  refill_num = 2;
  refill_den = 60;
  tokens = 0;
  last_refill = 10;
}

abbrev spent_limiter : Limiter
spent_limiter = record two_a_minute { buckets = ("ip", spent_bucket) ∷ [] }

check-allows_after_wait_example : (check spent_limiter "ip" 40).1 ≡ true
check-allows_after_wait_example =
    check-allows_after_wait spent_limiter "ip" 10 40
      (record {
        capacity = refl;
        num = refl;
        den = refl;
        full_at_most = omega arith;
        filled = omega arith;
      })
      (omega arith) (omega arith) (λ met. omega arith)

accepted_for-InWindow_example :
    accepted_for (1, "s1") new_limiter (capture 10 ∷ capture 20 ∷ capture 30 ∷ []) ≡ 2
accepted_for-InWindow_example =
    accepted_for-InWindow (1, "s1") new_limiter 10 2 (capture 10 ∷ capture 20 ∷ capture 30 ∷ []) tt
      (
        omega arith,
        omega arith,
        λ h. refl,
        (omega arith, omega arith, λ h. refl, (omega arith, omega arith, λ h. refl, tt)),
      )
