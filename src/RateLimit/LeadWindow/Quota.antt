-- ===== src/RateLimit/LeadWindow/Quota.antt =====
-- What `LeadCaptureRateLimiter` of app/services/rate_limiter.py guarantees, over any sequence of
-- calls for any sessions.
use multi_tenant_ai_chatbot.Prelude.{
  ℕ, ◌+◌, ◌-◌, ◌≤◌, ◌<◌, min, String, ◌≡◌, inl, inr, Bool, ◌&&◌, true, false, Option, none, some,
  List, [], ◌∷◌, Bool-cases, arith, ltb, or_else, if◌then◌else◌,
}
use multi_tenant_ai_chatbot.Prelude.Dict.{
  SessionKey, same_session, same_session_iff, session_key, lookup, lookup-insert, same_self,
}
use multi_tenant_ai_chatbot.RateLimit.LeadWindow.{
  LeadWindowBucket, LeadLimiter, key, current_bucket, count_call, check_and_increment,
}

-- one call of `check_and_increment`
pub record Call : Type 0 where
  pub now : ℕ
  pub tenant_id : ℕ
  pub session_id : String
  pub cap : Option ℕ

abbrev pub call_key : Call → SessionKey
call_key c = key c.tenant_id c.session_id

unfoldable pub run_call : LeadLimiter → Call → LeadLimiter × Bool
run_call l c = check_and_increment l c.now c.tenant_id c.session_id c.cap

-- how many of the calls for a key were accepted, and how many there were
unfoldable pub accepted_for : SessionKey → LeadLimiter → List Call → ℕ
accepted_for k l [] = 0
accepted_for k l (c ∷ calls) =
    let (l', accepted) = run_call l c in
    (if same_session (call_key c) k && accepted then 1 else 0) + accepted_for k l' calls

abbrev pub calls_for : SessionKey → List Call → ℕ
calls_for k [] = 0
calls_for k (c ∷ calls) = (if same_session (call_key c) k then 1 else 0) + calls_for k calls

-- every call lies in the window that begins at `start`, and those for the key have one cap
abbrev pub InWindow : SessionKey → LeadLimiter → (start cap : ℕ) → List Call → Type 0
InWindow k l start cap [] = Unit
InWindow k l start cap (c ∷ calls) =
    (start ≤ c.now)
    × (c.now < start + l.window_seconds)
    × (same_session (call_key c) k ≡ true → or_else c.cap l.default_cap ≡ cap)
    × InWindow k l start cap calls

-- the key's window has not begun, or began at or after `start`
abbrev pub BeganBy : ℕ → Option LeadWindowBucket → Type 0
BeganBy start none = Unit
BeganBy start (some b) = start ≤ b.window_started_at

abbrev pub used : Option LeadWindowBucket → ℕ
used none = 0
used (some b) = b.count

module _ (l : LeadLimiter) (c : Call) (start : ℕ) where
  -- A call inside the window is accepted exactly if the cap is not used up, and is then counted.
  run_call_self :
      BeganBy start (lookup (call_key c) l.buckets)
      → start ≤ c.now
      → c.now < start + l.window_seconds
      → let o = lookup (call_key c) l.buckets in
        let o' = lookup (call_key c) (run_call l c).0.buckets in
        BeganBy start o'
        × ((run_call l c).1 ≡ ltb (used o) (or_else c.cap l.default_cap))
        × (used o' ≡ used o + (if (run_call l c).1 then 1 else 0))
  unfolding run_call check_and_increment
  run_call_self f h k =
      rw (lookup-insert, same_self (call_key c)) (self (lookup (call_key c) l.buckets) f)
    where
      self :
          (o : Option LeadWindowBucket)
          → BeganBy start o
          → let (b, allowed) =
              count_call (current_bucket l o (or_else c.cap l.default_cap) c.now) in
            (start ≤ b.window_started_at)
            × (allowed ≡ ltb (used o) (or_else c.cap l.default_cap))
            × (b.count ≡ used o + (if allowed then 1 else 0))
      self none f = ground arith
      self (some b) f = ground arith

  pub run_call_at :
      (k : SessionKey)
      → same_session (call_key c) k ≡ true
      → BeganBy start (lookup k l.buckets)
      → start ≤ c.now
      → c.now < start + l.window_seconds
      → let o = lookup k l.buckets in
        let o' = lookup k (run_call l c).0.buckets in
        BeganBy start o'
        × ((run_call l c).1 ≡ ltb (used o) (or_else c.cap l.default_cap))
        × (used o' ≡ used o + (if (run_call l c).1 then 1 else 0))
  run_call_at k same = rw (← (same_session_iff (call_key c) k).0 same) run_call_self

  -- A call for one session leaves every other session's window alone.
  pub run_call_ne :
      (k : SessionKey)
      → same_session (call_key c) k ≡ false
      → lookup k (run_call l c).0.buckets ≡ lookup k l.buckets
  unfolding run_call check_and_increment
  run_call_ne k h = rw (lookup-insert, h)

-- the window's length and the default cap never change
InWindow-run_call :
    (k : SessionKey) (l : LeadLimiter) (c : Call) (start cap : ℕ) (calls : List Call)
    → InWindow k l start cap calls
    → InWindow k (run_call l c).0 start cap calls
unfolding run_call check_and_increment
InWindow-run_call k l c start cap [] h = tt
InWindow-run_call k l c start cap (d ∷ calls) h =
    (h.0, h.1, h.2, InWindow-run_call k l c start cap calls h.3)

-- Inside one window, whatever the calls of other sessions in between, the calls of a session are
-- accepted as long as its cap is not used up, and no longer.
pub accepted_for-InWindow :
    (k : SessionKey) (l : LeadLimiter) (start cap : ℕ) (calls : List Call)
    → BeganBy start (lookup k l.buckets)
    → InWindow k l start cap calls
    → accepted_for k l calls ≡ min (calls_for k calls) (cap - used (lookup k l.buckets))
unfolding accepted_for
accepted_for-InWindow k l start cap [] f h = omega arith
accepted_for-InWindow k l start cap (c ∷ calls) f h =
    elim (Bool-cases (same_session (call_key c) k)) [
      | inl same ↦
          let step = run_call_at l c start k same f h.0 h.1 in
          rw same (
            ground (
              arith,
              step,
              h.2 same,
              accepted_for-InWindow k (run_call l c).0 start cap calls step.0
                  (InWindow-run_call k l c start cap calls h.3),
            ))
      | inr other ↦
          let next = run_call_ne l c start k other in
          rw other (
            ground (
              arith,
              next,
              accepted_for-InWindow k (run_call l c).0 start cap calls (rw next f)
                  (InWindow-run_call k l c start cap calls h.3),
            ))
    ]
