-- ===== src/Tools/Frames.antt =====
-- Tenant isolation of the tools of app/agent/tools.py: a tool called for one tenant leaves every
-- other tenant alone, whatever its arguments.
use multi_tenant_ai_chatbot.Prelude.{
  ℕ, String, ◌≢◌, refl, Bool, true, false, Option, none, some, List, select-append_fails, ◌==◌,
  ==-ne, arith,
}
use multi_tenant_ai_chatbot.Prelude.Dict.{lookup-insert, session_key}
use multi_tenant_ai_chatbot.Db.Rows.{Json, Conversation}
use multi_tenant_ai_chatbot.RateLimit.LeadWindow.{check_and_increment}
use multi_tenant_ai_chatbot.World.{gets, uuid4, ◌>>=◌}
use multi_tenant_ai_chatbot.World.Stays.{Stays, stays_rules}
use multi_tenant_ai_chatbot.World.Isolation.{Untouched, Untouched-frame}
use multi_tenant_ai_chatbot.Tenants.Frames.{uuid4-Untouched, add_audit_log-Untouched}
use multi_tenant_ai_chatbot.Escalations.Repository as Tickets
use multi_tenant_ai_chatbot.Escalations.Repository.{stored_reason}
use multi_tenant_ai_chatbot.Redaction.{Regex}
use multi_tenant_ai_chatbot.Tools.Conversations.{
  open_conversation, or_new_conversation, ensure_conversation, find_existing_escalation,
}
use multi_tenant_ai_chatbot.Tools.{
  Env, emit_audit_safe, resolve_lead_cap, create_lead, limiter_check, rag_search, store_lead,
  capture_checked, capture_lead, escalate_found, escalate_checked, escalate,
}

resolve_lead_cap-Untouched : (u : ℕ) (b : Bool) (t : ℕ) → Stays (Untouched u) (resolve_lead_cap b t)
unfolding resolve_lead_cap
resolve_lead_cap-Untouched u true t = search stays_rules
resolve_lead_cap-Untouched u false t = search stays_rules

module _ (u t : ℕ) (other : t ≢ u) where
  pub emit_audit_safe-Untouched :
      (b : Bool) (action : String) (metadata : List (String × Json))
      → Stays (Untouched u) (emit_audit_safe b t action metadata)
  unfolding emit_audit_safe
  emit_audit_safe-Untouched false action metadata = search stays_rules
  emit_audit_safe-Untouched true action metadata = search (stays_rules, add_audit_log-Untouched)

  create_lead-Untouched :
      (name contact : Option String) (intent : String)
      → Stays (Untouched u) (create_lead t name contact intent)
  unfolding create_lead ◌>>=◌ uuid4
  create_lead-Untouched name contact intent = record {
    at = λ w. ground (
      arith,
      select-append_fails (λ r. r.tenant_id == u) w.leads
          (record {
            id = w.next_id;
            tenant_id = t;
            name = name;
            contact = contact;
            intent = intent;
            status = "captured";
          }),
    );
  }

  limiter_check-Untouched :
      (session_id : String) (cap : ℕ) → Stays (Untouched u) (limiter_check t session_id cap)
  unfolding limiter_check check_and_increment gets
  limiter_check-Untouched session_id cap = record {
    at = λ w. record {
      tenants = refl;
      admin_users = refl;
      admin_invites = refl;
      cms_pages = refl;
      leads = refl;
      conversations = refl;
      audit_logs = refl;
      tenant_usage = refl;
      rate_limits = refl;
      erasure_jobs = refl;
      settings = refl;
      agent_configs = refl;
      rag_chunks = refl;
      escalation_tickets = refl;
      memory = λ s. refl;
      lead_windows = λ s. rw (lookup-insert, ==-ne t u other);
    };
  }

  or_new_conversation-Untouched :
      (s : String) (o : Option Conversation) → Stays (Untouched u) (or_new_conversation t s o)
  unfolding or_new_conversation ◌>>=◌ uuid4
  or_new_conversation-Untouched s (some c) = search stays_rules
  or_new_conversation-Untouched s none = record {
    at = λ w. ground (
      arith,
      select-append_fails (λ r. r.tenant_id == u) w.conversations (open_conversation w.next_id t s),
    );
  }

  create_ticket-Untouched :
      (regex : Regex) (c : ℕ) (reason excerpt : String)
      → Stays (Untouched u) (Tickets.create regex t c reason excerpt)
  unfolding Tickets.create ◌>>=◌ uuid4
  create_ticket-Untouched regex c reason excerpt = record {
    at = λ w. ground (
      arith,
      select-append_fails (λ r. r.tenant_id == u) w.escalation_tickets
          (record {
            id = w.next_id;
            tenant_id = t;
            conversation_id = c;
            reason = stored_reason regex reason excerpt;
            status = "open";
            assigned_to = none;
          }),
    );
  }

  module _ (env : Env) where
    pub rag_search-Untouched : (q : String) (k : ℕ) → Stays (Untouched u) (rag_search env t q k)
    unfolding rag_search
    rag_search-Untouched q k = search stays_rules

    store_lead-Untouched :
        (name contact : Option String) (intent : String)
        → Stays (Untouched u) (store_lead env t name contact intent)
    unfolding store_lead
    store_lead-Untouched name contact intent =
        search (stays_rules, uuid4-Untouched, create_lead-Untouched) depth 8

    capture_checked-Untouched :
        (s : String) (name contact : Option String) (intent : String)
        → Stays (Untouched u) (capture_checked env t s name contact intent)
    unfolding capture_checked
    capture_checked-Untouched s name contact intent =
        search
          (
            stays_rules, resolve_lead_cap-Untouched, limiter_check-Untouched, store_lead-Untouched,
            emit_audit_safe-Untouched,
          )
          depth 9

    pub capture_lead-Untouched :
        (s : String) (name contact : Option String) (intent : String)
        → Stays (Untouched u) (capture_lead env t s name contact intent)
    unfolding capture_lead
    capture_lead-Untouched s name contact intent = search (stays_rules, capture_checked-Untouched)

    escalate_found-Untouched :
        (s : String) (c : ℕ) (reason excerpt : String) (o : Option ℕ)
        → Stays (Untouched u) (escalate_found env t s c reason excerpt o)
    unfolding escalate_found
    escalate_found-Untouched s c reason excerpt (some id) = search stays_rules
    escalate_found-Untouched s c reason excerpt none =
        search (stays_rules, create_ticket-Untouched, emit_audit_safe-Untouched) depth 8

    escalate_checked-Untouched :
        (s reason excerpt : String) → Stays (Untouched u) (escalate_checked env t s reason excerpt)
    unfolding escalate_checked ensure_conversation find_existing_escalation
    escalate_checked-Untouched s reason excerpt =
        search
          (stays_rules, uuid4-Untouched, or_new_conversation-Untouched, escalate_found-Untouched)
          depth 9

    pub escalate-Untouched : (s reason : String) → Stays (Untouched u) (escalate env t s reason)
    unfolding escalate
    escalate-Untouched s reason = search (stays_rules, escalate_checked-Untouched)
