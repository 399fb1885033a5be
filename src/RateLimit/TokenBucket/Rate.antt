-- ===== src/RateLimit/TokenBucket/Rate.antt =====
-- What `InMemoryTokenBucketRateLimiter` of app/services/rate_limiter.py promises over any sequence
-- of calls for any scopes.
use multi_tenant_ai_chatbot.Prelude.{
  ℕ, ◌+◌, ◌-◌, ◌*◌, ◌≤◌, String, ◌≡◌, refl, Bool, ◌&&◌, true, false, Option, none, some, is_some,
  List, [], ◌∷◌, inl, inr, Option-cases, mul_mono, arith, str_eq, if◌then◌else◌,
}
use multi_tenant_ai_chatbot.Prelude.Dict.{lookup, text_key}
use multi_tenant_ai_chatbot.RateLimit.TokenBucket.{
  TokenBucket, Limiter, new_bucket, try_consume, bucket_for, check,
}
-- the bucket has its limiter's parameters, holds at most its capacity, and was filled by `t`
use multi_tenant_ai_chatbot.RateLimit.TokenBucket.Credit.{
  spent, Fits, FitsAt, credit, check-credit, FitsAt-check,
}

-- times that never go back, from a first one up to a last one
abbrev pub IsMonotone : ℕ → List (String × ℕ) → ℕ → Type 0
IsMonotone t [] last = t ≤ last
IsMonotone t ((scope, u) ∷ calls) last = (t ≤ u) × IsMonotone u calls last

-- of a sequence of calls of `check`, how many for `scope` were allowed
unfoldable pub allowed_for : String → Limiter → List (String × ℕ) → ℕ
allowed_for scope l [] = 0
allowed_for scope l ((s, now) ∷ calls) =
    let (l', allowed) = check l s now in
    (if str_eq s scope && allowed then 1 else 0) + allowed_for scope l' calls

monotone_le : (t last : ℕ) (calls : List (String × ℕ)) → IsMonotone t calls last → t ≤ last
monotone_le t last [] m = m
monotone_le t last ((s, u) ∷ calls) m = omega (arith, monotone_le u last calls m.1)

rest_credit :
    (l : Limiter) (s : String) (now last : ℕ) (o : Option TokenBucket) (n : ℕ)
    → n * (check l s now).0.refill_den ≤ credit (check l s now).0 now last o
    → n * l.refill_den ≤ credit l now last o
unfolding check
rest_credit l s now last none n h = h
rest_credit l s now last (some b) n h = h

spend_first :
    (l : Limiter) (allowed : Bool) (n : ℕ) {before after : ℕ}
    → spent l allowed + after ≤ before
    → n * l.refill_den ≤ after
    → ((if allowed then 1 else 0) + n) * l.refill_den ≤ before
spend_first l true n h k = omega arith
spend_first l false n h k = omega arith

-- Whatever the calls in between, for this scope or any other, the calls of `check` that are allowed
-- for a scope cost no more than its credit.
pub allowed_for-credit :
    (scope : String) (l : Limiter) (t last : ℕ) (calls : List (String × ℕ))
    → FitsAt l t (lookup scope l.buckets)
    → IsMonotone t calls last
    → allowed_for scope l calls * l.refill_den ≤ credit l t last (lookup scope l.buckets)
unfolding allowed_for
allowed_for-credit scope l t last [] f m = omega arith
allowed_for-credit scope l t last ((s, now) ∷ calls) f m =
    let step = check-credit l scope s t now last f m.0 (monotone_le now last calls m.1) in
    let rest =
      allowed_for-credit scope (check l s now).0 now last calls
        (FitsAt-check l s now now (lookup scope (check l s now).0.buckets) step.0) m.1 in
    spend_first l (str_eq s scope && (check l s now).1) (allowed_for scope (check l s now).0 calls)
      step.1 (rest_credit l s now last (lookup scope (check l s now).0.buckets) _ rest)

-- A scope that the limiter has not met is allowed at most its capacity and what is refilled from
-- the first to the last of the calls.
pub allowed_for-le_rate :
    (scope : String) (l : Limiter) (t last : ℕ) (calls : List (String × ℕ))
    → lookup scope l.buckets ≡ none
    → IsMonotone t calls last
    → allowed_for scope l calls * l.refill_den
      ≤ l.capacity * l.refill_den + (last - t) * l.refill_num
allowed_for-le_rate scope l t last calls new m =
    rw new at (allowed_for-credit scope l t last calls (rw new tt) m)

-- At a capacity of at least one, and a bucket of the scope, if there is one, that has the limiter's
-- parameters, the first call of a scope is allowed, and so is any later one once
-- enough time for one token has passed since the scope's bucket was last filled, whatever was spent
-- before.
pub check-allows_after_wait :
    (l : Limiter) (scope : String) (t now : ℕ)
    → FitsAt l t (lookup scope l.buckets)
    → 1 ≤ l.capacity
    → t ≤ now
    → (is_some (lookup scope l.buckets) ≡ true → l.refill_den ≤ (now - t) * l.refill_num)
    → (check l scope now).1 ≡ true
unfolding check bucket_for try_consume new_bucket
check-allows_after_wait l scope t now f c h w = elim (Option-cases (lookup scope l.buckets)) [
  | inl e ↦ ground (arith, e, mul_mono 1 l.capacity l.refill_den)
  | inr (b, e) ↦ allows_some b e
]
  where
    allows_some : (b : TokenBucket) → lookup scope l.buckets ≡ some b → (check l scope now).1 ≡ true
    allows_some b e =
        let fits : Fits l t b = rw e at f in
        let wait : l.refill_den ≤ (now - t) * l.refill_num = w (rw e refl) in
        ground (
          arith,
          e,
          fits,
          wait,
          mul_mono 1 l.capacity l.refill_den,
          mul_mono (now - t) (now - b.last_refill) l.refill_num,
        )
