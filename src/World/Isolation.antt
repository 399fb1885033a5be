-- ===== src/World/Isolation.antt =====
-- What one tenant owns in the world: its rows of every table, its sessions' memory and its
-- `capture_lead` windows. `Untouched u` is the relation that keeps all of it.
use multi_tenant_ai_chatbot.Prelude.{ℕ, String, ◌≡◌, refl, ◌∙◌, select, ◌==◌}
use multi_tenant_ai_chatbot.Prelude.Dict.{session_key, lookup}
use multi_tenant_ai_chatbot.World.{World}
use multi_tenant_ai_chatbot.World.Stays.{Frame}

pub record Untouched (u : ℕ) (v w : World) : Type 0 where
  pub tenants : select (λ r. r.id == u) w.tenants ≡ select (λ r. r.id == u) v.tenants
  pub admin_users :
      select (λ r. r.tenant_id == u) w.admin_users ≡ select (λ r. r.tenant_id == u) v.admin_users
  pub admin_invites :
      select (λ r. r.tenant_id == u) w.admin_invites
      ≡ select (λ r. r.tenant_id == u) v.admin_invites
  pub cms_pages :
      select (λ r. r.tenant_id == u) w.cms_pages ≡ select (λ r. r.tenant_id == u) v.cms_pages
  pub leads : select (λ r. r.tenant_id == u) w.leads ≡ select (λ r. r.tenant_id == u) v.leads
  pub conversations :
      select (λ r. r.tenant_id == u) w.conversations
      ≡ select (λ r. r.tenant_id == u) v.conversations
  pub audit_logs :
      select (λ r. r.tenant_id == u) w.audit_logs ≡ select (λ r. r.tenant_id == u) v.audit_logs
  pub tenant_usage :
      select (λ r. r.tenant_id == u) w.tenant_usage ≡ select (λ r. r.tenant_id == u) v.tenant_usage
  pub rate_limits :
      select (λ r. r.tenant_id == u) w.rate_limits ≡ select (λ r. r.tenant_id == u) v.rate_limits
  pub erasure_jobs :
      select (λ r. r.tenant_id == u) w.erasure_jobs ≡ select (λ r. r.tenant_id == u) v.erasure_jobs
  pub settings :
      select (λ r. r.tenant_id == u) w.settings ≡ select (λ r. r.tenant_id == u) v.settings
  pub agent_configs :
      select (λ r. r.tenant_id == u) w.agent_configs
      ≡ select (λ r. r.tenant_id == u) v.agent_configs
  pub rag_chunks :
      select (λ r. r.tenant_id == u) w.rag_chunks ≡ select (λ r. r.tenant_id == u) v.rag_chunks
  pub escalation_tickets :
      select (λ r. r.tenant_id == u) w.escalation_tickets
      ≡ select (λ r. r.tenant_id == u) v.escalation_tickets
  pub memory : (s : String) → lookup (u, s) w.memory ≡ lookup (u, s) v.memory
  pub lead_windows :
      (s : String) → lookup (u, s) w.lead_limiter.buckets ≡ lookup (u, s) v.lead_limiter.buckets

pub Untouched-refl : (u : ℕ) (w : World) → Untouched u w w
Untouched-refl u w = record {
  tenants = refl;
  admin_users = refl;
  admin_invites = refl;
  cms_pages = refl;
  leads = refl;
  conversations = refl;
  audit_logs = refl;
  tenant_usage = refl;
  rate_limits = refl;
  erasure_jobs = refl;
  settings = refl;
  agent_configs = refl;
  rag_chunks = refl;
  escalation_tickets = refl;
  memory = λ s. refl;
  lead_windows = λ s. refl;
}

pub Untouched-trans : (u : ℕ) (a b c : World) → Untouched u a b → Untouched u b c → Untouched u a c
Untouched-trans u a b c h k = record {
  tenants = k.tenants ∙ h.tenants;
  admin_users = k.admin_users ∙ h.admin_users;
  admin_invites = k.admin_invites ∙ h.admin_invites;
  cms_pages = k.cms_pages ∙ h.cms_pages;
  leads = k.leads ∙ h.leads;
  conversations = k.conversations ∙ h.conversations;
  audit_logs = k.audit_logs ∙ h.audit_logs;
  tenant_usage = k.tenant_usage ∙ h.tenant_usage;
  rate_limits = k.rate_limits ∙ h.rate_limits;
  erasure_jobs = k.erasure_jobs ∙ h.erasure_jobs;
  settings = k.settings ∙ h.settings;
  agent_configs = k.agent_configs ∙ h.agent_configs;
  rag_chunks = k.rag_chunks ∙ h.rag_chunks;
  escalation_tickets = k.escalation_tickets ∙ h.escalation_tickets;
  memory = λ s. k.memory s ∙ h.memory s;
  lead_windows = λ s. k.lead_windows s ∙ h.lead_windows s;
}

instance pub Untouched-frame : {u : ℕ} → Frame (Untouched u)
Untouched-frame {u} = record { same = Untouched-refl u; then_to = Untouched-trans u }
