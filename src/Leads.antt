-- ===== src/Leads.antt =====
-- The leads on the dashboard: app/api/routes/leads.py over app/repositories/lead_repo.py. The context is
-- what `require_admin_session` gives (`Auth.Gates`), and a response has the fields of the row.
pub mod Access
use multi_tenant_ai_chatbot.Prelude.{
  ℕ, min, max, String, not, Option, none, some, List, [], ◌∷◌, select, find_row, update_where, take,
  ◌==◌, str_eq, if◌then◌else◌,
}
use mathlib.Core.List.{reverse}
use multi_tenant_ai_chatbot.Db.Rows.{Json, text, uuid, Lead}
use multi_tenant_ai_chatbot.World.{
  World, Action, http_forbidden, http_not_found, pure, gets, modify_db, or_raise, raise_if, attempt,
  ◌>>=◌, ◌>>◌,
}
use multi_tenant_ai_chatbot.Tenants.Repository.{add_audit_log}
use multi_tenant_ai_chatbot.Auth.Gates.{TenantAdminContext}

-- newest first: the rows are in the order of their `created_at`
unfoldable pub list_by_tenant : (tenant_id limit : ℕ) → Action (List Lead)
list_by_tenant tenant_id limit =
    gets (λ w. take limit (reverse (select (λ l. l.tenant_id == tenant_id) w.leads)))

unfoldable pub get_lead : (lead_id : ℕ) → Action (Option Lead)
get_lead lead_id = gets (λ w. find_row (λ l. l.id == lead_id) w.leads)

abbrev pub with_lead_status : String → Lead → Lead
with_lead_status status lead = record lead { status = status }

-- the part of `set_status` below the lookup
unfoldable pub set_lead_found :
    (lead_id tenant_id : ℕ) (status : String) → Option Lead → Action (Option Lead)
set_lead_found lead_id tenant_id status none = pure none
set_lead_found lead_id tenant_id status (some lead) =
    if not (lead.tenant_id == tenant_id) then pure none else (do
      modify_db (λ db. record db {
        leads = update_where (λ l. l.id == lead_id) (with_lead_status status) db.leads;
      })
      pure (some (with_lead_status status lead)))

unfoldable pub set_lead_status : (lead_id tenant_id : ℕ) (status : String) → Action (Option Lead)
unfolding get_lead set_lead_found
set_lead_status lead_id tenant_id status = do
  found ← get_lead lead_id
  set_lead_found lead_id tenant_id status found

-- the refusals that the two routes begin with
unfoldable pub require_lead_access : Option TenantAdminContext → Action TenantAdminContext
require_lead_access context = do
  admin ← or_raise context http_forbidden
  raise_if (str_eq admin.role "tenant_manager") http_forbidden
  pure admin

abbrev pub safe_limit : ℕ → ℕ
safe_limit limit = max 1 (min limit 500)

unfoldable pub list_leads : Option TenantAdminContext → (limit : ℕ) → Action (List Lead)
unfolding require_lead_access list_by_tenant
list_leads context limit = do
  admin ← require_lead_access context
  list_by_tenant admin.tenant_id (safe_limit limit)

-- `LeadStatus`
pub data LeadStatus : Type 0 where
  captured qualified spam : LeadStatus

abbrev pub lead_status_text : LeadStatus → String
lead_status_text captured = "captured"
lead_status_text qualified = "qualified"
lead_status_text spam = "spam"

unfoldable pub patch_lead_status :
    (lead_id : ℕ) → LeadStatus → Option TenantAdminContext → Action Lead
unfolding require_lead_access set_lead_status
patch_lead_status lead_id status context = do
  admin ← require_lead_access context
  found ← set_lead_status lead_id admin.tenant_id (lead_status_text status)
  lead ← or_raise found http_not_found
  attempt (
      add_audit_log admin.tenant_id (record {
        actor_id = admin.actor_id;
        actor_role = admin.role;
        action = "lead.status_changed";
        metadata = ("lead_id", uuid lead.id) ∷ ("new_status", text (lead_status_text status)) ∷ [];
      }))
  pure lead
