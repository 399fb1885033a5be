-- ===== src/Tools.antt =====
-- app/agent/tools.py: the three tools, with app/repositories/lead_repo.py. The texts of validation
-- errors, and the tenant and session that a result repeats from its call, are left out of results.
pub mod Args
pub mod Answer
pub mod Conversations
pub mod Frames
pub mod Leads
pub mod Escalate
pub mod Cap
use multi_tenant_ai_chatbot.Prelude.{
  ℕ, String, Bool, true, false, not, Option, none, some, List, [], ◌∷◌, ◌++◌, find_row, is_some,
  ◌==◌, str_eq, if◌then◌else◌,
}
use multi_tenant_ai_chatbot.Prelude.Text.{strip, prefix}
use multi_tenant_ai_chatbot.Db.{lead_fits}
use multi_tenant_ai_chatbot.Db.Rows.{Json, number, uuid, text, Lead, TenantSettings}
use multi_tenant_ai_chatbot.Redaction.{Regex, email, phone, lead_name, redact_text}
use multi_tenant_ai_chatbot.RateLimit.LeadWindow.{check_and_increment}
use multi_tenant_ai_chatbot.World.{
  World, Action, db_error, pure, raise, gets, modify_db, raise_if, uuid4, attempt, ◌>>=◌, ◌>>◌,
}
use multi_tenant_ai_chatbot.Tenants.Repository.{AuditEntry, add_audit_log}
use multi_tenant_ai_chatbot.Escalations.Repository as Tickets
use Args.{
  valid_rag_search, valid_capture_lead, valid_escalate, trim_optional, max_intent_chars,
  max_name_chars, max_contact_chars, max_escalation_reason_chars, default_lead_cap,
  audit_excerpt_chars,
}
use Args.Calls.{ArgValue}
use Answer.{Chunk, build_rag_answer}
use Conversations.{ensure_conversation, find_existing_escalation}

-- What the tools take from outside: the regular expressions, Pydantic's reading of an integer,
-- `retrieve_chunks` of app/rag/retriever.py, which only reads, and whether there is a database
-- session.
pub record Env : Type 0 where
  pub regex : Regex
  pub retrieve_chunks : World → ℕ → String → ℕ → List Chunk
  pub read_int : ArgValue → Option ℕ
  pub has_session : Bool

-- the result dicts, by their `status`
pub data ToolResult : Type 0 where
  invalid_args rate_limited : ToolResult
  found : (answer : String) (chunks : List Chunk) (top_k : ℕ) → ToolResult
  captured : (lead_id : ℕ) (has_contact : Bool) → ToolResult
  escalated : (ticket_id : ℕ) (reason : String) (deduplicated : Bool) → ToolResult
  tool_not_allowed : (tool_name : String) → ToolResult

-- `_emit_audit_safe`: no session, no entry; an error is logged and dropped
unfoldable pub emit_audit_safe : Bool → ℕ → String → List (String × Json) → Action (Unit {0})
emit_audit_safe false tenant_id action metadata = pure tt
emit_audit_safe true tenant_id action metadata = do
  attempt (
      add_audit_log tenant_id
        (record { actor_id = none; actor_role = "agent"; action = action; metadata = metadata }))
  pure tt

-- `_resolve_lead_cap`
unfoldable pub resolve_lead_cap : Bool → ℕ → Action ℕ
resolve_lead_cap false tenant_id = pure default_lead_cap
resolve_lead_cap true tenant_id = gets (λ w.
    elim (find_row (λ s. s.tenant_id == tenant_id) w.settings) [
      | none ↦ default_lead_cap
      | some s ↦ s.rate_limit_lead_per_session
    ])

-- `LeadRepository.create`
unfoldable pub create_lead : ℕ → Option String → Option String → String → Action Lead
create_lead tenant_id name contact intent = do
  id ← uuid4
  let lead : Lead = record {
    id = id;
    tenant_id = tenant_id;
    name = name;
    contact = contact;
    intent = intent;
    status = "captured";
  }
  raise_if (not (lead_fits lead)) db_error
  modify_db (λ db. record db { leads = db.leads ++ lead ∷ [] })
  pure lead

-- the limiter of the process, at the clock's time
unfoldable pub limiter_check : ℕ → String → ℕ → Action Bool
limiter_check tenant_id session_id cap w =
    let (l, allowed) = check_and_increment w.lead_limiter w.clock tenant_id session_id (some cap) in
    gets (λ _. allowed) (record w { lead_limiter = l })

-- `(value or "").strip()`, or the default where nothing is left
abbrev pub stripped_or : String → String → String
stripped_or value default = if str_eq (strip value) "" then default else strip value

module _ (env : Env) where
  open env use {regex, retrieve_chunks, has_session}

  unfoldable pub rag_search : ℕ → String → ℕ → Action ToolResult
  rag_search tenant_id query top_k =
      if valid_rag_search query top_k
      then (do
        chunks ← gets (λ w. retrieve_chunks w tenant_id query top_k)
        pure (found (build_rag_answer query chunks) chunks top_k))
      else pure invalid_args

  -- the part of `capture_lead` below the limiter
  unfoldable pub store_lead : ℕ → Option String → Option String → String → Action ToolResult
  store_lead tenant_id name contact intent =
      let redacted_intent = redact_text regex (some intent) in
      if has_session
      then (do
        lead ← create_lead tenant_id name contact redacted_intent
        pure (captured lead.id (is_some contact)))
      else (do id ← uuid4; pure (captured id (is_some contact)))

  unfoldable pub capture_checked :
      ℕ → String → Option String → Option String → String → Action ToolResult
  capture_checked tenant_id session_id name contact intent = do
    cap ← resolve_lead_cap has_session tenant_id
    allowed ← limiter_check tenant_id session_id cap
    if allowed then store_lead tenant_id name contact intent else (do
      emit_audit_safe has_session tenant_id "lead.rate_limited"
          (("session_id", text session_id) ∷ ("count_in_window", number cap) ∷ [])
      pure rate_limited)

  unfoldable pub capture_lead :
      ℕ → String → Option String → Option String → String → Action ToolResult
  capture_lead tenant_id session_id name contact intent =
      let clean_intent =
        prefix max_intent_chars (stripped_or intent "Visitor requested follow-up") in
      let clean_name = trim_optional name max_name_chars in
      let clean_contact = trim_optional contact max_contact_chars in
      if valid_capture_lead regex clean_name clean_contact clean_intent
      then capture_checked tenant_id session_id clean_name clean_contact clean_intent
      else pure invalid_args

  -- the part of `escalate` below the lookup of an existing ticket
  unfoldable pub escalate_found : ℕ → String → ℕ → String → String → Option ℕ → Action ToolResult
  escalate_found tenant_id session_id conversation_id reason excerpt (some ticket_id) =
      pure (escalated ticket_id (redact_text regex (some reason)) true)
  escalate_found tenant_id session_id conversation_id reason excerpt none = do
    ticket ← Tickets.create regex tenant_id conversation_id reason excerpt
    emit_audit_safe true tenant_id "escalation.created" (
        ("ticket_id", uuid ticket.id)
        ∷ ("session_id", text session_id)
        ∷ ("reason_excerpt", text (prefix audit_excerpt_chars (redact_text regex (some reason))))
        ∷ [])
    pure (escalated ticket.id (redact_text regex (some reason)) false)

  unfoldable pub escalate_checked : ℕ → String → String → String → Action ToolResult
  escalate_checked tenant_id session_id reason excerpt =
      if has_session
      then (do
        conversation_id ← ensure_conversation tenant_id session_id
        existing ← find_existing_escalation tenant_id conversation_id
        escalate_found tenant_id session_id conversation_id reason excerpt existing)
      else (do id ← uuid4; pure (escalated id (redact_text regex (some reason)) false))

  -- `conversation_id` is the session's identifier; callers give no excerpt
  unfoldable pub escalate : ℕ → String → String → Action ToolResult
  escalate tenant_id conversation_id reason =
      let clean_reason =
        prefix max_escalation_reason_chars (stripped_or reason "Visitor needs human follow-up.") in
      if valid_escalate clean_reason
      then escalate_checked tenant_id conversation_id clean_reason ""
      else pure invalid_args

abbrev stripped_name : Option String → Option String
stripped_name none = none
stripped_name (some n) = some (strip n)

-- `extract_lead_fields`
unfoldable pub extract_lead_fields : Regex → String → Option String × Option String
extract_lead_fields regex message =
    let found_email = regex.search_for email message in
    let found_phone = regex.search_for phone message in
    (
      stripped_name (regex.search_for lead_name message),
      if is_some found_email then found_email else found_phone,
    )
