-- ===== src/Tools/Escalate.antt =====
-- `escalate` of app/agent/tools.py: one ticket for a session, however often it is called.
use multi_tenant_ai_chatbot.Prelude.{
  ℕ, ◌+◌, String, ◌≡◌, refl, Bool, true, false, none, some, find_row, find_row-append_none, ==-refl,
  eq_refl, arith, Option-cases, inl, inr,
}
use multi_tenant_ai_chatbot.Prelude.Text.{prefix}
use multi_tenant_ai_chatbot.Db.{session_fits}
use multi_tenant_ai_chatbot.Db.Rows.{Conversation, EscalationTicket}
use multi_tenant_ai_chatbot.Redaction.{redact_text}
use multi_tenant_ai_chatbot.World.{World, ok, uuid4, attempt, ◌>>=◌}
use multi_tenant_ai_chatbot.Tenants.Repository.{add_audit_log}
use multi_tenant_ai_chatbot.Escalations.Repository as Tickets
use multi_tenant_ai_chatbot.Tools.Args.{valid_escalate, max_escalation_reason_chars}
use multi_tenant_ai_chatbot.Tools.Conversations.{
  is_session, is_ticket_of, open_conversation, or_new_conversation, ensure_conversation,
  find_existing_escalation,
}
use multi_tenant_ai_chatbot.Tools.{
  Env, escalated, emit_audit_safe, stripped_or, escalate_found, escalate_checked, escalate,
}

-- the reason as it is validated and stored
abbrev pub clean_reason : String → String
clean_reason reason =
    prefix max_escalation_reason_chars (stripped_or reason "Visitor needs human follow-up.")

-- the session has a conversation, and that has the ticket
abbrev pub HasTicket : (t : ℕ) (s : String) (ticket_id : ℕ) → World → Type 0
HasTicket t s ticket_id w =
    (c : Conversation) × ((k : EscalationTicket) × (find_row (is_session t s) w.conversations
        ≡ some c)
      × (find_row (is_ticket_of t c.id) w.escalation_tickets ≡ some k)
      × (k.id ≡ ticket_id))

abbrev new_ticket : (env : Env) (id t conversation_id : ℕ) (reason : String) → EscalationTicket
new_ticket env id t conversation_id reason = record {
  id = id;
  tenant_id = t;
  conversation_id = conversation_id;
  reason = Tickets.stored_reason env.regex reason "";
  status = "open";
  assigned_to = none;
}

module _ (env : Env) (connected : env.has_session ≡ true) (t : ℕ) (s : String) (reason : String)
    (valid : valid_escalate (clean_reason reason) ≡ true) where
  escalate_with_ticket :
      (w : World) (ticket_id : ℕ)
      → HasTicket t s ticket_id w
      → escalate env t s reason w
        ≡ (ok (escalated ticket_id (redact_text env.regex (some (clean_reason reason))) true), w)
  unfolding escalate escalate_checked ensure_conversation or_new_conversation
      find_existing_escalation escalate_found ◌>>=◌
  escalate_with_ticket w id (c, (k, found_c, found_k, same)) =
      rw (valid, connected, found_c, found_k, same) refl

  -- what an escalation that finds or opens the session's ticket comes to
  abbrev Opens : World → Type 0
  Opens w =
      let (r, v) = escalate env t s reason w in
      (id : ℕ) × ((found : Bool) × (r
          ≡ ok (escalated id (redact_text env.regex (some (clean_reason reason))) found))
        × HasTicket t s id v)

  escalate_in_session :
      (w : World) (c : Conversation) → find_row (is_session t s) w.conversations ≡ some c → Opens w
  unfolding escalate escalate_checked ensure_conversation or_new_conversation
      find_existing_escalation escalate_found Tickets.create emit_audit_safe attempt add_audit_log
      uuid4 ◌>>=◌
  escalate_in_session w c known =
      elim (Option-cases (find_row (is_ticket_of t c.id) w.escalation_tickets)) [
        | inl e ↦
            rw (valid, connected, known, e)
              (
                w.next_id,
                (
                  false,
                  refl,
                  (
                    c,
                    (
                      new_ticket env w.next_id t c.id (clean_reason reason),
                      known,
                      find_row-append_none (is_ticket_of t c.id) w.escalation_tickets
                          (new_ticket env w.next_id t c.id (clean_reason reason)) e
                          (ground (arith, ==-refl t, ==-refl c.id)),
                      refl,
                    ),
                  ),
                ),
              )
        | inr (k, e) ↦
            rw (valid, connected, known, e) (k.id, (true, refl, (c, (k, known, e, refl))))
      ]

  escalate_in_new :
      (w : World)
      → session_fits s ≡ true
      → find_row (is_session t s) w.conversations ≡ none
      → Opens w
  unfolding escalate escalate_checked ensure_conversation or_new_conversation
      find_existing_escalation escalate_found Tickets.create emit_audit_safe attempt add_audit_log
      uuid4 ◌>>=◌
  escalate_in_new w fits unknown =
      let c = open_conversation w.next_id t s in
      let known =
        find_row-append_none (is_session t s) w.conversations c unknown
          (ground (arith, ==-refl t, eq_refl s)) in
      elim (Option-cases (find_row (is_ticket_of t c.id) w.escalation_tickets)) [
        | inl e ↦
            let k = new_ticket env (w.next_id + 1) t c.id (clean_reason reason) in
            rw (valid, connected, unknown, fits, e)
              (
                w.next_id + 1,
                (
                  false,
                  refl,
                  (
                    c,
                    (
                      k,
                      known,
                      find_row-append_none (is_ticket_of t c.id) w.escalation_tickets k e
                          (ground (arith, ==-refl t, ==-refl c.id)),
                      refl,
                    ),
                  ),
                ),
              )
        | inr (k, e) ↦
            rw (valid, connected, unknown, fits, e) (k.id, (true, refl, (c, (k, known, e, refl))))
      ]

  -- With a database session, `escalate` ends in a ticket of a session whose id fits its column,
  -- whatever was there.
  pub escalate-Opens : (w : World) → session_fits s ≡ true → Opens w
  escalate-Opens w fits = elim (Option-cases (find_row (is_session t s) w.conversations)) [
    | inl unknown ↦ escalate_in_new w fits unknown
    | inr (c, known) ↦ escalate_in_session w c known
  ]

-- With a database session, an escalation of a session whose id fits its column, 255 characters, and
-- with a valid reason, ends in a ticket, and any later one of the same session with a valid reason
-- writes nothing and returns the same ticket, as long as the conversations and tickets are as the
-- first one left them.
pub escalate-once :
    (env : Env) (t : ℕ) (s reason second : String) (w later : World)
    → env.has_session ≡ true
    → session_fits s ≡ true
    → valid_escalate (clean_reason reason) ≡ true
    → valid_escalate (clean_reason second) ≡ true
    → later.conversations ≡ (escalate env t s reason w).1.conversations
    → later.escalation_tickets ≡ (escalate env t s reason w).1.escalation_tickets
    → (id : ℕ) × ((found : Bool) × ((escalate env t s reason w).0
          ≡ ok (escalated id (redact_text env.regex (some (clean_reason reason))) found))
        × (escalate env t s second later
            ≡ (ok (escalated id (redact_text env.regex (some (clean_reason second))) true), later)))
escalate-once env t s reason second w later connected fits valid valid' same_c same_k =
    let (id, (found, r, (c, (k, has_c, has_k, same)))) =
      escalate-Opens env connected t s reason valid w fits in
    (
      id,
      (
        found,
        r,
        escalate_with_ticket env connected t s second valid' later id
            (c, (k, rw same_c has_c, rw same_k has_k, same)),
      ),
    )
