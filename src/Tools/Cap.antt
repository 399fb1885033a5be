-- ===== src/Tools/Cap.antt =====
-- `capture_lead` of app/agent/tools.py under its limiter: how many leads a session can store.
use multi_tenant_ai_chatbot.Prelude.{
  ℕ, ◌+◌, ◌-◌, ◌≤◌, ◌<◌, String, ◌≡◌, ◌∙◌, Bool, true, Option, none, some, List, [], ◌∷◌, length,
  length-append, find_row, ltb, ap, sym, subst, ◌==◌, arith, Bool-cases, inl, inr, ◌⊎◌,
  if◌then◌else◌,
}
use multi_tenant_ai_chatbot.Prelude.Dict.{SessionKey, session_key, lookup, same_self}
use multi_tenant_ai_chatbot.Db.{lead_fits}
use multi_tenant_ai_chatbot.Db.Rows.{TenantSettings}
use multi_tenant_ai_chatbot.RateLimit.LeadWindow.{
  LeadWindowBucket, LeadLimiter, check_and_increment,
}
use multi_tenant_ai_chatbot.RateLimit.LeadWindow.Quota.{BeganBy, used, Call, run_call, run_call_at}
use multi_tenant_ai_chatbot.World.{World, uuid4, attempt, ◌>>=◌}
use multi_tenant_ai_chatbot.Tenants.Repository.{add_audit_log}
use multi_tenant_ai_chatbot.Tools.Args.{
  valid_capture_lead, trim_optional, max_name_chars, max_contact_chars, default_lead_cap,
}
use multi_tenant_ai_chatbot.Tools.Leads.{clean_intent, captured_lead}
use multi_tenant_ai_chatbot.Tools.{
  Env, emit_audit_safe, resolve_lead_cap, create_lead, limiter_check, store_lead, capture_checked,
  capture_lead,
}

-- a call at a time
pub record Capture : Type 0 where
  pub now : ℕ
  pub name : Option String
  pub contact : Option String
  pub intent : String

-- the cap in force: the tenant's setting, or the default
abbrev pub cap_in : ℕ → List TenantSettings → ℕ
cap_in t settings = elim (find_row (λ s. s.tenant_id == t) settings) [
  | none ↦ default_lead_cap
  | some s ↦ s.rate_limit_lead_per_session
]

abbrev pub cap_of : ℕ → World → ℕ
cap_of t w = cap_in t w.settings

unfoldable pub capture_at : Env → ℕ → String → Capture → World → World
capture_at env t s c w =
    (capture_lead env t s c.name c.contact c.intent (record w { clock = c.now })).1

abbrev pub capture_all : Env → ℕ → String → List Capture → World → World
capture_all env t s [] w = w
capture_all env t s (c ∷ calls) w = capture_all env t s calls (capture_at env t s c w)

-- the calls lie in the window that begins at `start`
abbrev pub AreWithin : (start window : ℕ) → List Capture → Type 0
AreWithin start window [] = Unit
AreWithin start window (c ∷ calls) =
    (start ≤ c.now) × (c.now < start + window) × AreWithin start window calls

module _ (env : Env) (connected : env.has_session ≡ true) (t : ℕ) (s : String) (c : Capture)
    (w : World) where
  -- what one call does to the limiter, the leads and the settings
  capture_at_lem :
      let l =
        (run_call w.lead_limiter
          (record { now = c.now; tenant_id = t; session_id = s; cap = some (cap_of t w) })) in
      let v = capture_at env t s c w in
      (v.settings ≡ w.settings)
      × (((v.lead_limiter ≡ w.lead_limiter) × (v.leads ≡ w.leads))
          ⊎ ((v.lead_limiter ≡ l.0) × (length v.leads ≤ length w.leads + (if l.1 then 1 else 0))))
  unfolding capture_at capture_lead capture_checked resolve_lead_cap limiter_check store_lead
      create_lead emit_audit_safe attempt add_audit_log uuid4 ◌>>=◌ run_call
  capture_at_lem =
      let call : Call = record {
        now = c.now;
        tenant_id = t;
        session_id = s;
        cap = some (cap_of t w);
      } in
      let fits = Bool-cases (lead_fits (captured_lead env w.next_id t c.name c.contact c.intent)) in
      let valid = Bool-cases (
        valid_capture_lead env.regex (trim_optional c.name max_name_chars)
          (trim_optional c.contact max_contact_chars) (clean_intent c.intent)) in
      let allowed = Bool-cases (run_call w.lead_limiter call).1 in
      rw connected (
        ground (
          arith,
          valid,
          allowed,
          fits,
          length-append w.leads (captured_lead env w.next_id t c.name c.contact c.intent ∷ []),
        ))

-- the part of the limiter that belongs to the session
abbrev state_of : ℕ → String → LeadLimiter → Option LeadWindowBucket
state_of t s l = lookup (t, s) l.buckets

within_cap :
    (n n' u u' cap total : ℕ) (b : Bool)
    → b ≡ ltb u cap
    → u' ≡ u + (if b then 1 else 0)
    → n' ≤ n + (if b then 1 else 0)
    → total ≤ n' + (cap - u')
    → total ≤ n + (cap - u)
within_cap n n' u u' cap total b h k m r = ground arith

-- Of any sequence of captures of a session inside one window of the limiter, valid or not, no more
-- are stored than the tenant's cap leaves over what the session has used.
pub capture_all-le_cap :
    (env : Env) (t : ℕ) (s : String) (start : ℕ) (calls : List Capture) (w : World)
    → env.has_session ≡ true
    → BeganBy start (lookup (t, s) w.lead_limiter.buckets)
    → AreWithin start w.lead_limiter.window_seconds calls
    → length (capture_all env t s calls w).leads
      ≤ length w.leads + (cap_of t w - used (lookup (t, s) w.lead_limiter.buckets))
unfolding run_call check_and_increment
capture_all-le_cap env t s start [] w connected began within = omega arith
capture_all-le_cap env t s start (c ∷ calls) w connected began within =
    let call : Call = record {
      now = c.now;
      tenant_id = t;
      session_id = s;
      cap = some (cap_of t w);
    } in
    let v = capture_at env t s c w in
    let (same_settings, change) = capture_at_lem env connected t s c w in
    let same_cap = ap (cap_in t) same_settings in
    elim change [
      | inl (same, leads) ↦
          let back = sym same in
          let rest =
            capture_all-le_cap env t s start calls v connected
              (subst (λ l. BeganBy start (state_of t s l)) back began)
              (subst (λ l. AreWithin start l.window_seconds calls) back within.2) in
          omega (
            arith,
            rest,
            same_cap,
            ap (λ l. used (state_of t s l)) same,
            ap (λ xs. length xs) leads,
          )
      | inr (moved, leads) ↦
          let step =
            run_call_at w.lead_limiter call start (t, s) (same_self {K = SessionKey} (t, s)) began
              within.0 within.1 in
          let back = sym moved in
          let rest =
            capture_all-le_cap env t s start calls v connected
              (subst (λ l. BeganBy start (state_of t s l)) back step.0)
              (subst (λ l. AreWithin start l.window_seconds calls) back within.2) in
          within_cap (length w.leads) (length v.leads) (used (state_of t s w.lead_limiter))
            (used (state_of t s v.lead_limiter)) (cap_of t w)
            (length (capture_all env t s calls v).leads) (run_call w.lead_limiter call).1 step.1
            (ap (λ l. used (state_of t s l)) moved ∙ step.2) leads (rw same_cap at rest)
    ]
