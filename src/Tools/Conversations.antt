-- ===== src/Tools/Conversations.antt =====
-- app/agent/tools.py: `_ensure_conversation` and `_find_existing_escalation`. The first row of a
-- table is the one with the earliest time.
use multi_tenant_ai_chatbot.Prelude.{
  ℕ, String, Bool, ◌&&◌, not, Option, none, some, [], ◌∷◌, ◌++◌, find_row, ◌==◌, str_eq,
}
use multi_tenant_ai_chatbot.Db.{session_fits}
use multi_tenant_ai_chatbot.Db.Rows.{Conversation, EscalationTicket}
use multi_tenant_ai_chatbot.World.{
  Action, db_error, pure, gets, raise_if, modify_db, uuid4, ◌>>=◌, ◌>>◌,
}

abbrev pub is_session : ℕ → String → Conversation → Bool
is_session tenant_id session_id c = c.tenant_id == tenant_id && str_eq c.session_id session_id

abbrev pub open_conversation : ℕ → ℕ → String → Conversation
open_conversation id tenant_id session_id = record {
  id = id;
  tenant_id = tenant_id;
  session_id = session_id;
  status = "open";
}

unfoldable pub or_new_conversation : ℕ → String → Option Conversation → Action ℕ
or_new_conversation tenant_id session_id (some c) = pure c.id
or_new_conversation tenant_id session_id none = do
  id ← uuid4
  raise_if (not (session_fits session_id)) db_error
  modify_db (λ db. record db {
    conversations = db.conversations ++ open_conversation id tenant_id session_id ∷ [];
  })
  pure id

-- `_ensure_conversation`, and the conversation's id
unfoldable pub ensure_conversation : ℕ → String → Action ℕ
unfolding or_new_conversation
ensure_conversation tenant_id session_id = do
  found ← gets (λ w. find_row (is_session tenant_id session_id) w.conversations)
  or_new_conversation tenant_id session_id found

abbrev pub is_ticket_of : ℕ → ℕ → EscalationTicket → Bool
is_ticket_of tenant_id conversation_id t =
    t.tenant_id == tenant_id && t.conversation_id == conversation_id

-- `_find_existing_escalation`, and the ticket's id
unfoldable pub find_existing_escalation : ℕ → ℕ → Action (Option ℕ)
find_existing_escalation tenant_id conversation_id = gets (λ w.
    elim (find_row (is_ticket_of tenant_id conversation_id) w.escalation_tickets) [
      | none ↦ none
      | some t ↦ some t.id
    ])
