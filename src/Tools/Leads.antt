-- ===== src/Tools/Leads.antt =====
-- `capture_lead` of app/agent/tools.py: what is stored, and when.
use multi_tenant_ai_chatbot.Prelude.{
  ℕ, String, ◌≡◌, Bool, true, false, Option, some, [], ◌∷◌, ◌++◌, is_some, arith, Bool-cases,
}
use multi_tenant_ai_chatbot.Prelude.Text.{prefix}
use multi_tenant_ai_chatbot.Db.{lead_fits}
use multi_tenant_ai_chatbot.Db.Rows.{Lead}
use multi_tenant_ai_chatbot.Redaction.{redact_text}
use multi_tenant_ai_chatbot.RateLimit.LeadWindow.{check_and_increment}
use multi_tenant_ai_chatbot.World.{World, Result, ok, err, db_error, uuid4, attempt, ◌>>=◌}
use multi_tenant_ai_chatbot.Tenants.Repository.{add_audit_log}
use multi_tenant_ai_chatbot.Tools.Args.{
  valid_capture_lead, trim_optional, max_intent_chars, max_name_chars, max_contact_chars,
}
use multi_tenant_ai_chatbot.Tools.{
  Env, ToolResult, captured, emit_audit_safe, resolve_lead_cap, create_lead, limiter_check,
  stripped_or, store_lead, capture_checked, capture_lead,
}

abbrev pub clean_intent : String → String
clean_intent intent = prefix max_intent_chars (stripped_or intent "Visitor requested follow-up")

-- the cap that `resolve_lead_cap` reads, and the limiter's answer under it
abbrev pub limiter_allows : (env : Env) → ℕ → String → World → Bool
limiter_allows env t s w = elim (resolve_lead_cap env.has_session t w).0 [
  | ok cap ↦ (check_and_increment w.lead_limiter w.clock t s (some cap)).1
  | err e ↦ false
]

-- the row that a capture stores
abbrev pub captured_lead :
    (env : Env) (id t : ℕ) (name contact : Option String) (intent : String) → Lead
captured_lead env id t name contact intent = record {
  id = id;
  tenant_id = t;
  name = trim_optional name max_name_chars;
  contact = trim_optional contact max_contact_chars;
  intent = redact_text env.regex (some (clean_intent intent));
  status = "captured";
}

-- what a result says of the leads before and after
abbrev pub Explains :
    (env : Env) (t : ℕ) (s : String) (name contact : Option String) (intent : String) (w v : World)
    → Result ToolResult
    → Type 0
Explains env t s name contact intent w v (ok (captured id has_contact)) =
    (v.leads ≡ w.leads ++ captured_lead env id t name contact intent ∷ [])
    × (valid_capture_lead env.regex (trim_optional name max_name_chars)
          (trim_optional contact max_contact_chars) (clean_intent intent)
        ≡ true)
    × (limiter_allows env t s w ≡ true)
    × (lead_fits (captured_lead env id t name contact intent) ≡ true)
    × (has_contact ≡ is_some (trim_optional contact max_contact_chars))
Explains env t s name contact intent w v (ok _) = v.leads ≡ w.leads
Explains env t s name contact intent w v (err e) =
    (v.leads ≡ w.leads)
    × (e ≡ db_error)
    × (lead_fits (captured_lead env w.next_id t name contact intent) ≡ false)

-- With a database session, a result `captured` says that one lead was appended, under the result's
-- id and the caller's tenant, with the intent redacted, that the arguments were valid, the limiter
-- had room and the row fits its columns. With any other result no lead is stored; the one exception
-- is that of an intent too long for its column.
pub capture_lead-Explains :
    (env : Env) (t : ℕ) (s : String) (name contact : Option String) (intent : String) (w : World)
    → env.has_session ≡ true
    → let (r, v) = capture_lead env t s name contact intent w in
      Explains env t s name contact intent w v r
unfolding capture_lead capture_checked resolve_lead_cap limiter_check store_lead create_lead
    emit_audit_safe attempt add_audit_log uuid4 ◌>>=◌
capture_lead-Explains env t s name contact intent w connected =
    let valid = Bool-cases (
      valid_capture_lead env.regex (trim_optional name max_name_chars)
        (trim_optional contact max_contact_chars) (clean_intent intent)) in
    let allowed = Bool-cases (limiter_allows env t s w) in
    let fits = Bool-cases (lead_fits (captured_lead env w.next_id t name contact intent)) in
    rw connected (ground (arith, valid, allowed, fits))
