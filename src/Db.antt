-- ===== src/Db.antt =====
-- app/db/models.py: the database, as a record of tables, and the constraints that the modelled code can meet.
-- A UUID is a number, a time is a number of seconds, and `uuid4()` is the counter `next_id`, which
-- no two calls share. Rows are in the order of insertion, which is that of their `created_at`; the
-- columns `created_at` and `updated_at` are left out where no query reads them.
pub mod Rows
use multi_tenant_ai_chatbot.Prelude.{ℕ, String, Bool, ◌||◌, List, any, leb, ◌==◌, str_eq}
use multi_tenant_ai_chatbot.Prelude.Text.{text_length}
use Rows.{
  Tenant, AdminUser, AdminInvite, CmsPage, Lead, Conversation, AuditLog, TenantUsage,
  TenantRateLimit, ErasureJob, TenantSettings, TenantAgentConfig, RagChunk, EscalationTicket,
}

pub record Db : Type 0 where
  pub tenants : List Tenant
  pub admin_users : List AdminUser
  pub admin_invites : List AdminInvite
  pub cms_pages : List CmsPage
  pub leads : List Lead
  pub conversations : List Conversation
  pub audit_logs : List AuditLog
  pub tenant_usage : List TenantUsage
  pub rate_limits : List TenantRateLimit
  pub erasure_jobs : List ErasureJob
  pub settings : List TenantSettings
  pub agent_configs : List TenantAgentConfig
  pub rag_chunks : List RagChunk
  pub escalation_tickets : List EscalationTicket
  pub next_id : ℕ

-- `intent: String(255)` of `Lead`
abbrev pub intent_column : ℕ
intent_column = 255

unfoldable pub lead_fits : Lead → Bool
lead_fits lead = leb (text_length lead.intent) intent_column

-- `session_id: String(255)` of `Conversation`
unfoldable pub session_fits : String → Bool
session_fits session_id = leb (text_length session_id) 255

-- `ck_escalation_tickets_status`
unfoldable pub ticket_status_permitted : String → Bool
ticket_status_permitted status =
    str_eq status "open"
    || str_eq status "in_progress"
    || str_eq status "resolved"
    || str_eq status "erased"

-- the foreign keys `escalation_tickets.conversation_id` and `rag_chunks.page_id`: a row that is
-- referenced cannot be deleted
unfoldable pub conversation_referenced : Db → Conversation → Bool
conversation_referenced db c = any (λ t. t.conversation_id == c.id) db.escalation_tickets

unfoldable pub page_referenced : Db → CmsPage → Bool
page_referenced db p = any (λ c. c.page_id == p.id) db.rag_chunks
