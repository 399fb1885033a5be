-- ===== src/Escalations/Repository.antt =====
-- app/repositories/escalation_repo.py: `EscalationRepository`. The tenant context that `create` sets
-- for row-level security has no effect here: every query names its tenant.
use multi_tenant_ai_chatbot.Prelude.{
  ℕ, String, Bool, not, Option, none, some, List, [], ◌∷◌, ◌++◌, select, find_row, update_where,
  or_else, ◌==◌, str_eq, if◌then◌else◌,
}
use multi_tenant_ai_chatbot.Prelude.Text.{strip}
use Prim.Native.String.{◌++◌ as join}
use multi_tenant_ai_chatbot.Db.{ticket_status_permitted}
use multi_tenant_ai_chatbot.Db.Rows.{EscalationTicket}
use multi_tenant_ai_chatbot.Redaction.{Regex, redact_text}
use multi_tenant_ai_chatbot.World.{
  Action, db_error, pure, gets, modify_db, raise_if, uuid4, ◌>>=◌, ◌>>◌,
}

-- the reason that is stored: redacted, with the redacted excerpt behind it if there is one
unfoldable pub stored_reason : Regex → String → String → String
unfolding redact_text
stored_reason regex reason last_message_excerpt =
    let redacted_reason = redact_text regex (some reason) in
    let redacted_excerpt = redact_text regex (some last_message_excerpt) in
    if str_eq redacted_excerpt ""
    then redacted_reason
    else strip (join redacted_reason (join "\n\n[excerpt] " redacted_excerpt))

unfoldable pub create : Regex → ℕ → ℕ → String → String → Action EscalationTicket
create regex tenant_id conversation_id reason last_message_excerpt = do
  id ← uuid4
  let ticket : EscalationTicket = record {
    id = id;
    tenant_id = tenant_id;
    conversation_id = conversation_id;
    reason = stored_reason regex reason last_message_excerpt;
    status = "open";
    assigned_to = none;
  }
  modify_db (λ db. record db { escalation_tickets = db.escalation_tickets ++ ticket ∷ [] })
  pure ticket

unfoldable pub list_by_tenant : ℕ → Action (List EscalationTicket)
list_by_tenant tenant_id = gets (λ w. select (λ t. t.tenant_id == tenant_id) w.escalation_tickets)

unfoldable pub get : ℕ → Action (Option EscalationTicket)
get ticket_id = gets (λ w. find_row (λ t. t.id == ticket_id) w.escalation_tickets)

-- the attributes that are written, where `none` leaves the status as it is
unfoldable pub patched : Option String → Option String → Bool → EscalationTicket → EscalationTicket
patched status assignee_id update_assignee t = record t {
  status = or_else status t.status;
  assigned_to = if update_assignee then assignee_id else t.assigned_to;
}

-- the flush fails on a status that the check constraint does not permit
unfoldable pub update_found :
    Option String
    → Option String
    → Bool
    → Option EscalationTicket
    → Action (Option EscalationTicket)
update_found status assignee_id update_assignee none = pure none
update_found status assignee_id update_assignee (some ticket) = do
  let row = patched status assignee_id update_assignee ticket
  raise_if (not (ticket_status_permitted row.status)) db_error
  modify_db (λ db. record db {
    escalation_tickets =
        update_where (λ t. t.id == ticket.id) (patched status assignee_id update_assignee)
          db.escalation_tickets;
  })
  pure (some row)

unfoldable pub update_status_and_assignee :
    ℕ → Option String → Option String → Bool → Action (Option EscalationTicket)
unfolding get update_found patched
update_status_and_assignee ticket_id status assignee_id update_assignee = do
  found ← get ticket_id
  update_found status assignee_id update_assignee found
