-- ===== src/RateLimit/TokenBucket/Credit.antt =====
-- What one call of `check` of app/services/rate_limiter.py costs a scope: its credit is what it can
-- still spend up to some later time.
use multi_tenant_ai_chatbot.Prelude.{
  eq_refl, ℕ, ◌+◌, ◌-◌, ◌*◌, ◌≤◌, String, ◌≡◌, refl, Bool, ◌&&◌, false, Option, none, some, inl,
  inr, Bool-cases, Option-cases, arith, str_eq, if◌then◌else◌, eq_iff,
}
use multi_tenant_ai_chatbot.Prelude.Dict.{lookup, lookup-insert, text_key}
use multi_tenant_ai_chatbot.RateLimit.TokenBucket.{
  TokenBucket, Limiter, new_bucket, try_consume, bucket_for, check,
}

-- the bucket has its limiter's parameters, holds at most its capacity, and was filled by `t`
pub record Fits (l : Limiter) (t : ℕ) (b : TokenBucket) : Type 0 where
  pub capacity : b.capacity ≡ l.capacity
  pub num : b.refill_num ≡ l.refill_num
  pub den : b.refill_den ≡ l.refill_den
  pub full_at_most : b.tokens ≤ l.capacity * l.refill_den
  pub filled : b.last_refill ≤ t

-- what a scope can still spend up to the time `last`, in parts of a token
abbrev pub credit : Limiter → ℕ → ℕ → Option TokenBucket → ℕ
credit l t last none = l.capacity * l.refill_den + (last - t) * l.refill_num
credit l t last (some b) = b.tokens + (last - b.last_refill) * l.refill_num

abbrev pub FitsAt : Limiter → ℕ → Option TokenBucket → Type 0
FitsAt l t none = Unit
FitsAt l t (some b) = Fits l t b

elapsed_split : (a b c n : ℕ) → a ≤ b → b ≤ c → (b - a) * n + (c - b) * n ≡ (c - a) * n
elapsed_split a b c n h k = grind arith

-- One call: the bucket still fits, and what it spent came out of the credit.
try_consume-credit :
    (l : Limiter) (t now last : ℕ) (b : TokenBucket)
    → Fits l t b
    → t ≤ now
    → now ≤ last
    → Fits l now (try_consume b now).0
      × ((if (try_consume b now).1 then l.refill_den else 0)
            + credit l now last (some (try_consume b now).0)
          ≤ credit l t last (some b))
unfolding try_consume
try_consume-credit l t now last b f h k =
    ground (arith, elapsed_split b.last_refill now last l.refill_num)

new_bucket-Fits :
    (l : Limiter) (now last : ℕ)
    → Fits l now (new_bucket l.capacity l.refill_num l.refill_den now)
      × (credit l now last (some (new_bucket l.capacity l.refill_num l.refill_den now))
          ≡ credit l now last none)
unfolding new_bucket
new_bucket-Fits l now last = (
  record {
    capacity = refl;
    num = refl;
    den = refl;
    full_at_most = omega arith;
    filled = omega arith;
  },
  refl,
)

-- Time that passes without a call costs a scope nothing, and its bucket fits on.
wait-credit :
    (l : Limiter) (t now last : ℕ) (o : Option TokenBucket)
    → FitsAt l t o
    → t ≤ now
    → FitsAt l now o × (credit l now last o ≤ credit l t last o)
wait-credit l t now last none f h = (tt, grind arith)
wait-credit l t now last (some b) f h = ground arith

bucket_for-credit :
    (l : Limiter) (scope : String) (t now last : ℕ)
    → FitsAt l t (lookup scope l.buckets)
    → t ≤ now
    → Fits l now (bucket_for l scope now)
      × (credit l now last (some (bucket_for l scope now))
          ≤ credit l t last (lookup scope l.buckets))
unfolding bucket_for
bucket_for-credit l scope t now last f h = elim (Option-cases (lookup scope l.buckets)) [
  | inl e ↦ ground (arith, e, new_bucket-Fits l now last, wait-credit l t now last none tt h)
  | inr (b, e) ↦ ground (arith, e, wait-credit l t now last (some b))
]

abbrev pub spent : Limiter → Bool → ℕ
spent l allowed = if allowed then l.refill_den else 0

check-credit_self :
    (l : Limiter) (scope : String) (t now last : ℕ)
    → FitsAt l t (lookup scope l.buckets)
    → t ≤ now
    → now ≤ last
    → FitsAt l now (lookup scope (check l scope now).0.buckets)
      × (spent l (check l scope now).1
            + credit l now last (lookup scope (check l scope now).0.buckets)
          ≤ credit l t last (lookup scope l.buckets))
unfolding check
check-credit_self l scope t now last f h k =
    let first = bucket_for-credit l scope t now last f h in
    rw (lookup-insert, eq_refl)
      (ground (
        arith,
        first,
        try_consume-credit l now now last (bucket_for l scope now) first.0 (omega arith) k,
      ))

check-credit_ne :
    (l : Limiter) (scope s : String) (t now last : ℕ)
    → str_eq s scope ≡ false
    → FitsAt l t (lookup scope l.buckets)
    → t ≤ now
    → FitsAt l now (lookup scope (check l s now).0.buckets)
      × (credit l now last (lookup scope (check l s now).0.buckets)
          ≤ credit l t last (lookup scope l.buckets))
unfolding check
check-credit_ne l scope s t now last ne f h =
    rw (lookup-insert, ne) (wait-credit l t now last (lookup scope l.buckets) f h)

-- One call of `check`, for the scope that is watched or for another.
pub check-credit :
    (l : Limiter) (scope s : String) (t now last : ℕ)
    → FitsAt l t (lookup scope l.buckets)
    → t ≤ now
    → now ≤ last
    → FitsAt l now (lookup scope (check l s now).0.buckets)
      × (spent l (str_eq s scope && (check l s now).1)
            + credit l now last (lookup scope (check l s now).0.buckets)
          ≤ credit l t last (lookup scope l.buckets))
check-credit l scope s t now last f h k = elim (Bool-cases (str_eq s scope)) [
  | inl same ↦ rw ((eq_iff s scope).0 same, eq_refl) (check-credit_self l scope t now last f h k)
  | inr other ↦ rw other (ground (arith, check-credit_ne l scope s t now last other f h))
]

-- the parameters of a limiter never change
pub FitsAt-check :
    (l : Limiter) (s : String) (now t : ℕ) (o : Option TokenBucket)
    → FitsAt l t o
    → FitsAt (check l s now).0 t o
unfolding check
FitsAt-check l s now t none f = tt
FitsAt-check l s now t (some b) f = record {
  capacity = f.capacity;
  num = f.num;
  den = f.den;
  full_at_most = f.full_at_most;
  filled = f.filled;
}
