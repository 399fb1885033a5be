-- ===== src/Agent/CapHit.antt =====
-- app/agent/agent.py: a cap hit captures no lead.
use multi_tenant_ai_chatbot.Prelude.{
  ℕ, String, ◌≡◌, refl, ◌∙◌, Bool, true, false, Option, none, some, List, Bool-cases, inl, inr,
}
use multi_tenant_ai_chatbot.Db.{session_fits}
use multi_tenant_ai_chatbot.Db.Rows.{Json}
use multi_tenant_ai_chatbot.World.{World, uuid4, ◌>>=◌}
use multi_tenant_ai_chatbot.World.Stays.{Frame, Stays, stays_rules}
use multi_tenant_ai_chatbot.Redaction.{Regex}
use multi_tenant_ai_chatbot.Db.Rows.{Conversation}
use multi_tenant_ai_chatbot.Tenants.Repository.{add_audit_log}
use multi_tenant_ai_chatbot.Escalations.Repository as Tickets
use multi_tenant_ai_chatbot.Tools.Answer.{Chunk}
use multi_tenant_ai_chatbot.Tools.Conversations.{
  or_new_conversation, ensure_conversation, find_existing_escalation,
}
use multi_tenant_ai_chatbot.Tools.{Env, emit_audit_safe, escalate_found, escalate_checked, escalate}
use multi_tenant_ai_chatbot.Agent.{cap_hit_path}

-- no lead is stored and no window of the limiter is touched
pub record NoCapture (v w : World) : Type 0 where
  pub leads : w.leads ≡ v.leads
  pub lead_limiter : w.lead_limiter ≡ v.lead_limiter

instance NoCapture-frame : Frame NoCapture
NoCapture-frame = record {
  same = λ w. record { leads = refl; lead_limiter = refl };
  then_to = λ u v w h k. record {
    leads = k.leads ∙ h.leads;
    lead_limiter = k.lead_limiter ∙ h.lead_limiter;
  };
}

uuid4-NoCapture : Stays NoCapture uuid4
unfolding uuid4
uuid4-NoCapture = record { at = λ w. record { leads = refl; lead_limiter = refl } }

add_audit_log-NoCapture : (t : ℕ) (e : _) → Stays NoCapture (add_audit_log t e)
unfolding add_audit_log uuid4 ◌>>=◌
add_audit_log-NoCapture t e = record { at = λ w. record { leads = refl; lead_limiter = refl } }

emit_audit_safe-NoCapture :
    (b : Bool) (t : ℕ) (action : String) (metadata : List (String × Json))
    → Stays NoCapture (emit_audit_safe b t action metadata)
unfolding emit_audit_safe
emit_audit_safe-NoCapture false t action metadata = search stays_rules
emit_audit_safe-NoCapture true t action metadata = search (stays_rules, add_audit_log-NoCapture)

or_new_conversation-NoCapture :
    (t : ℕ) (s : String) (o : Option Conversation) → Stays NoCapture (or_new_conversation t s o)
unfolding or_new_conversation ◌>>=◌ uuid4
or_new_conversation-NoCapture t s (some c) = search stays_rules
or_new_conversation-NoCapture t s none = record {
  at = λ w. elim (Bool-cases (session_fits s)) [
    | inl fits ↦ record { leads = rw fits refl; lead_limiter = rw fits refl }
    | inr long ↦ record { leads = rw long refl; lead_limiter = rw long refl }
  ];
}

create_ticket-NoCapture :
    (regex : Regex) (t c : ℕ) (reason excerpt : String)
    → Stays NoCapture (Tickets.create regex t c reason excerpt)
unfolding Tickets.create ◌>>=◌ uuid4
create_ticket-NoCapture regex t c reason excerpt = record {
  at = λ w. record { leads = refl; lead_limiter = refl };
}

module _ (env : Env) (t : ℕ) (s : String) where
  escalate_found-NoCapture :
      (c : ℕ) (reason excerpt : String) (o : Option ℕ)
      → Stays NoCapture (escalate_found env t s c reason excerpt o)
  unfolding escalate_found
  escalate_found-NoCapture c reason excerpt (some id) = search stays_rules
  escalate_found-NoCapture c reason excerpt none =
      search (stays_rules, create_ticket-NoCapture, emit_audit_safe-NoCapture) depth 8

  escalate_checked-NoCapture :
      (reason excerpt : String) → Stays NoCapture (escalate_checked env t s reason excerpt)
  unfolding escalate_checked ensure_conversation find_existing_escalation
  escalate_checked-NoCapture reason excerpt =
      search (stays_rules, uuid4-NoCapture, or_new_conversation-NoCapture, escalate_found-NoCapture)
        depth 9

  pub escalate-NoCapture : (reason : String) → Stays NoCapture (escalate env t s reason)
  unfolding escalate
  escalate-NoCapture reason = search (stays_rules, escalate_checked-NoCapture)

  -- The path of a cap hit stores no lead and spends nothing of the lead limiter, whether it returns
  -- or raises.
  pub cap_hit_path-NoCapture :
      (kind : String) (i n : ℕ) (used : List String) (citations : List Chunk)
      → Stays NoCapture (cap_hit_path env t s kind i n used citations)
  unfolding cap_hit_path
  cap_hit_path-NoCapture kind i n used citations =
      search (stays_rules, escalate-NoCapture, emit_audit_safe-NoCapture) depth 8
