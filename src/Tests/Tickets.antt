-- ===== src/Tests/Tickets.antt =====
-- Tests of the escalation service.
use multi_tenant_ai_chatbot.Prelude.{ℕ, String, ◌≡◌, refl, Option, none, some, List, [], ◌∷◌}
use multi_tenant_ai_chatbot.World.{err, escalation_invalid}
use multi_tenant_ai_chatbot.Tools.Args.Calls.{ArgValue, text as text_value, only_fields}
use multi_tenant_ai_chatbot.Escalations.Service.{EscalationActor, validated, patch}
use multi_tenant_ai_chatbot.Escalations.Service.Changes.{patch-foreign_assignee}
use multi_tenant_ai_chatbot.Tests.{ticket, ticketed}

abbrev manager : EscalationActor
manager = record { tenant_id = 1; actor_id = "boss"; role = "tenant_admin" }

abbrev outsider : EscalationActor
outsider = record { tenant_id = 2; actor_id = "eve"; role = "tenant_admin" }

abbrev user_id : String → Option ℕ
user_id assignee_id = some 77

abbrev status_body : String → List (String × ArgValue)
status_body status = ("status", text_value status) ∷ []

abbrev assignee_body : List (String × ArgValue)
assignee_body = ("assignee_id", text_value "77") ∷ []

patch-foreign_assignee_example :
    patch user_id 41 assignee_body manager ticketed ≡ (err escalation_invalid, ticketed)
unfolding validated only_fields
patch-foreign_assignee_example =
    patch-foreign_assignee user_id ticketed 41 assignee_body manager ticket refl none "77" refl refl
      refl refl refl refl
