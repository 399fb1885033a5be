-- ===== src/Escalations/Service.antt =====
-- app/services/escalation.py: `EscalationService`. `UUID(text)` is the parameter `parse_uuid`; the
-- payload's `opened_at` is left out.
pub mod Changes
use multi_tenant_ai_chatbot.Prelude.{
  ℕ, String, Bool, true, false, not, ◌||◌, Option, none, some, List, [], ◌∷◌, map, find_row,
  is_some, ◌==◌, str_eq, if◌then◌else◌,
}
use multi_tenant_ai_chatbot.Prelude.Text.{prefix}
use multi_tenant_ai_chatbot.Prelude.Dict.{lookup, text_key}
use multi_tenant_ai_chatbot.Db.Rows.{Json, null, text, uuid, AdminUser, EscalationTicket}
use multi_tenant_ai_chatbot.World.{
  World, Action, escalation_invalid, escalation_not_found, escalation_forbidden, assertion_error,
  pure, raise, gets, or_raise, raise_if, ◌>>=◌, ◌>>◌,
}
use multi_tenant_ai_chatbot.Tenants.Repository.{AuditEntry, add_audit_log}
use multi_tenant_ai_chatbot.Tools.Args.{optional}
use multi_tenant_ai_chatbot.Tools.Args.Calls.{ArgValue, only_fields, optional_text, both}
use multi_tenant_ai_chatbot.Escalations.Repository.{list_by_tenant, get, update_status_and_assignee}

-- `EscalationPatchBody`: status and assignee_id
unfoldable pub validated : List (String × ArgValue) → Option (Option String × Option String)
validated body =
    if only_fields ("status" ∷ "assignee_id" ∷ []) body
    then both (optional_text (λ s. true) (lookup "status" body))
        (optional_text (λ s. true) (lookup "assignee_id" body))
    else none

-- `has_assignee_field`
abbrev pub has_assignee_field : List (String × ArgValue) → Bool
has_assignee_field body = is_some (lookup "assignee_id" body)

-- `_ALLOWED_STATUSES`
unfoldable pub allowed_status : String → Bool
allowed_status s =
    str_eq s "pending" || str_eq s "in_progress" || str_eq s "resolved" || str_eq s "open"

pub record EscalationActor : Type 0 where
  pub tenant_id : ℕ
  pub actor_id : String
  pub role : String

pub record TicketPayload : Type 0 where
  pub ticket_id : ℕ
  pub last_message_excerpt : String
  pub status : String
  pub assignee_id : Option String
  pub assignee_name : Option String

-- `_to_payload`
abbrev pub to_payload : Option String → EscalationTicket → TicketPayload
to_payload assignee_name ticket = record {
  ticket_id = ticket.id;
  last_message_excerpt = prefix 200 ticket.reason;
  status = ticket.status;
  assignee_id = ticket.assigned_to;
  assignee_name = assignee_name;
}

unfoldable pub list_for_tenant : ℕ → Action (List TicketPayload)
list_for_tenant tenant_id = do rows ← list_by_tenant tenant_id; pure (map (to_payload none) rows)

-- `assignee.full_name or assignee.email`
abbrev pub display_name : Option String → String → String
display_name none email = email
display_name (some full_name) email = if str_eq full_name "" then email else full_name

-- the assignee's name; an empty text names nobody and is not looked up
unfoldable pub resolve_assignee :
    (String → Option ℕ) → (tenant_id : ℕ) → Option String → Action (Option String)
resolve_assignee parse_uuid tenant_id none = pure none
resolve_assignee parse_uuid tenant_id (some assignee_id) =
    if str_eq assignee_id "" then pure none else (do
      id ← or_raise (parse_uuid assignee_id) escalation_invalid
      found ← gets (λ w. find_row (λ u. u.id == id) w.admin_users)
      assignee ← or_raise found escalation_invalid
      raise_if (not (assignee.tenant_id == tenant_id)) escalation_invalid
      pure (some (display_name assignee.full_name assignee.email)))

-- `!=` on optional texts
abbrev pub differs : Option String → Option String → Bool
differs none none = false
differs (some a) (some b) = not (str_eq a b)
differs _ _ = true

abbrev pub text_or_null : Option String → Json
text_or_null none = null
text_or_null (some s) = text s

abbrev pub change_entry : EscalationActor → String → List (String × Json) → AuditEntry
change_entry actor action metadata = record {
  actor_id = some actor.actor_id;
  actor_role = actor.role;
  action = action;
  metadata = metadata;
}

unfoldable pub audit_status :
    EscalationActor → (ticket_id : ℕ) (previous : String) → Option String → Action (Unit {0})
audit_status actor ticket_id previous none = pure tt
audit_status actor ticket_id previous (some status) =
    if str_eq status previous
    then pure tt
    else add_audit_log actor.tenant_id (
        change_entry actor "escalation.status_changed"
          (("ticket_id", uuid ticket_id) ∷ ("from", text previous) ∷ ("to", text status) ∷ []))

unfoldable pub audit_assignee :
    EscalationActor
    → (ticket_id : ℕ) (update : Bool) (previous assignee_id : Option String) → Action (Unit {0})
audit_assignee actor ticket_id false previous assignee_id = pure tt
audit_assignee actor ticket_id true previous assignee_id =
    if differs assignee_id previous
    then add_audit_log actor.tenant_id (
        change_entry actor "escalation.assignee_changed"
          (("ticket_id", uuid ticket_id) ∷ ("assignee_id", text_or_null assignee_id) ∷ []))
    else pure tt

-- `patch` on the ticket that was found to be of the actor's tenant
unfoldable pub patch_ticket :
    (String → Option ℕ)
    → (ticket_id : ℕ) → EscalationActor
    → EscalationTicket
    → (update : Bool) (status assignee_id : Option String) → Action TicketPayload
unfolding resolve_assignee audit_status audit_assignee
patch_ticket parse_uuid ticket_id actor ticket update status assignee_id = do
  assignee_name ← resolve_assignee parse_uuid actor.tenant_id (if update then assignee_id else none)
  found ← update_status_and_assignee ticket_id status (if update then assignee_id else none) update
  updated ← or_raise found assertion_error
  audit_status actor ticket_id ticket.status status
  audit_assignee actor ticket_id update ticket.assigned_to assignee_id
  pure (to_payload assignee_name updated)

unfoldable pub patch :
    (String → Option ℕ)
    → (ticket_id : ℕ) → List (String × ArgValue)
    → EscalationActor
    → Action TicketPayload
patch parse_uuid ticket_id body actor = do
  (status, assignee_id) ← or_raise (validated body) escalation_invalid
  raise_if (not (optional allowed_status status)) escalation_invalid
  found ← get ticket_id
  ticket ← or_raise found escalation_not_found
  raise_if (not (ticket.tenant_id == actor.tenant_id)) escalation_forbidden
  patch_ticket parse_uuid ticket_id actor ticket (has_assignee_field body) status assignee_id
