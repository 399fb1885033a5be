-- ===== src/RateLimit/TokenBucket.antt =====
-- app/services/rate_limiter.py: `_TokenBucket` and `InMemoryTokenBucketRateLimiter`.
-- The refill is a fraction `refill_num / refill_den` of a token for each tick of the clock, and
-- `tokens` counts parts of a token, `refill_den` to one: the source's floats without their rounding.
-- `time.monotonic` is the argument `now`, in ticks.
pub mod Credit
pub mod Rate
use multi_tenant_ai_chatbot.Prelude.{
  ℕ, ◌+◌, ◌-◌, ◌*◌, min, String, Bool, true, false, Option, none, some, List, [], leb,
  if◌then◌else◌,
}
use multi_tenant_ai_chatbot.Prelude.Dict.{lookup, insert, text_key}

pub record TokenBucket : Type 0 where
  pub capacity : ℕ
  pub refill_num : ℕ
  pub refill_den : ℕ
  pub tokens : ℕ
  pub last_refill : ℕ

-- `__post_init__`: a new bucket is full
unfoldable pub new_bucket : (capacity num den now : ℕ) → TokenBucket
new_bucket capacity num den now = record {
  capacity = capacity;
  refill_num = num;
  refill_den = den;
  tokens = capacity * den;
  last_refill = now;
}

abbrev pub refilled : TokenBucket → ℕ → ℕ
refilled b now = min (b.capacity * b.refill_den) (b.tokens + (now - b.last_refill) * b.refill_num)

unfoldable pub try_consume : TokenBucket → ℕ → TokenBucket × Bool
try_consume b now =
    let tokens = refilled b now in
    if leb b.refill_den tokens
    then (record b { tokens = tokens - b.refill_den; last_refill = now }, true)
    else (record b { tokens = tokens; last_refill = now }, false)

pub record Limiter : Type 0 where
  pub capacity : ℕ
  pub refill_num : ℕ
  pub refill_den : ℕ
  pub buckets : List (String × TokenBucket)

-- the bucket that `check` uses: the stored one, or a new one
unfoldable pub bucket_for : Limiter → String → ℕ → TokenBucket
unfolding new_bucket
bucket_for l scope now = elim (lookup scope l.buckets) [
  | none ↦ new_bucket l.capacity l.refill_num l.refill_den now
  | some b ↦ b
]

-- the bucket is an object that `try_consume` changes in place: the changed one is stored
unfoldable pub check : Limiter → String → ℕ → Limiter × Bool
unfolding bucket_for
check l scope now =
    let (b, allowed) = try_consume (bucket_for l scope now) now in
    (record l { buckets = insert scope b l.buckets }, allowed)

-- `per_ip_rate_limiter` and `per_widget_rate_limiter`: `per_minute` tokens, and `per_minute / 60`
-- of a token a second, at `ticks` clock ticks a second
unfoldable pub per_minute_limiter : (ticks per_minute : ℕ) → Limiter
per_minute_limiter ticks per_minute = record {
  capacity = per_minute;
  refill_num = per_minute;
  refill_den = 60 * ticks;
  buckets = [];
}
