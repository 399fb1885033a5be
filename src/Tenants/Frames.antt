-- ===== src/Tenants/Frames.antt =====
-- Tenant isolation of app/repositories/tenant_repo.py and app/services/tenant_service.py: what one
-- tenant's operations leave alone.
use multi_tenant_ai_chatbot.Prelude.{
  ℕ, String, ◌≡◌, ◌≢◌, true, false, not, Option, none, some, List, select-append_fails,
  select-update_where, select-select, ◌==◌, arith,
}
use multi_tenant_ai_chatbot.Db.Rows.{TenantStatus, Tenant}
use multi_tenant_ai_chatbot.World.{modify_db, uuid4, ◌>>=◌}
use multi_tenant_ai_chatbot.World.Stays.{Stays, stays_rules}
use multi_tenant_ai_chatbot.World.Isolation.{Untouched, Untouched-frame}
use multi_tenant_ai_chatbot.Tenants.Repository.{
  AuditEntry, audit_row, add_audit_log, write_status, set_found, set_status, delete_leads,
  delete_conversations, delete_cms_pages, erase_tenant_rows, create_erasure_job,
}
use multi_tenant_ai_chatbot.Tenants.Role.{PlatformRole, tenant_manager, parse_role}
use multi_tenant_ai_chatbot.Tenants.{
  only_manager, require_tenant_manager, suspend_tenant, erase_tenant,
}

pub uuid4-Untouched : (u : ℕ) → Stays (Untouched u) uuid4
unfolding uuid4
uuid4-Untouched u = record { at = λ w. ground arith }

module _ (u t : ℕ) (other : t ≢ u) where
  pub add_audit_log-Untouched : (e : AuditEntry) → Stays (Untouched u) (add_audit_log t e)
  unfolding add_audit_log ◌>>=◌ uuid4
  add_audit_log-Untouched e = record {
    at = λ w.
        ground (
          arith,
          select-append_fails (λ r. r.tenant_id == u) w.audit_logs (audit_row w.next_id t e),
        );
  }

  write_status-select :
      (s : TenantStatus) (r : Tenant)
      → (r.id == t) ≡ true
      → ((r.id == u) ≡ false) × ((r.id == u) ≡ false)
  write_status-select s r h = ground arith

  write_status-Untouched : (s : TenantStatus) → Stays (Untouched u) (modify_db (write_status t s))
  unfolding write_status modify_db
  write_status-Untouched s = record {
    at = λ w. ground (
      arith,
      select-update_where (λ r. r.id == u) (λ r. r.id == t) (λ r. record r { status = s }) w.tenants
          (write_status-select s),
    );
  }

  set_found-Untouched :
      (s : TenantStatus) (o : Option Tenant) → Stays (Untouched u) (set_found t s o)
  unfolding set_found
  set_found-Untouched s none = search stays_rules
  set_found-Untouched s (some tenant) = search (stays_rules, write_status-Untouched)

  pub set_status-Untouched : (s : TenantStatus) → Stays (Untouched u) (set_status t s)
  unfolding set_status
  set_status-Untouched s = search (stays_rules, set_found-Untouched)

  create_erasure_job-Untouched :
      (requested_by status : String) (counts : List (String × ℕ)) (a b : ℕ)
      → Stays (Untouched u) (create_erasure_job t requested_by status counts a b)
  unfolding create_erasure_job ◌>>=◌ uuid4
  create_erasure_job-Untouched requested_by status counts a b = record {
    at = λ w. ground (
      arith,
      select-append_fails (λ r. r.tenant_id == u) w.erasure_jobs
          (record {
            id = w.next_id;
            tenant_id = t;
            requested_by = requested_by;
            status = status;
            deleted_counts = counts;
            started_at = a;
            completed_at = b;
          }),
    );
  }

  keeps_others : (k : ℕ) → (k == u) ≡ true → not (k == t) ≡ true
  keeps_others k h = ground arith

  delete_leads-Untouched : Stays (Untouched u) (delete_leads t)
  unfolding delete_leads ◌>>=◌
  delete_leads-Untouched = record {
    at = λ w. ground (
      arith,
      select-select (λ r. r.tenant_id == u) (λ r. not (r.tenant_id == t)) w.leads
          (λ r. keeps_others r.tenant_id),
    );
  }

  delete_conversations-Untouched : Stays (Untouched u) (delete_conversations t)
  unfolding delete_conversations ◌>>=◌
  delete_conversations-Untouched = record {
    at = λ w. ground (
      arith,
      select-select (λ r. r.tenant_id == u) (λ r. not (r.tenant_id == t)) w.conversations
          (λ r. keeps_others r.tenant_id),
    );
  }

  delete_cms_pages-Untouched : Stays (Untouched u) (delete_cms_pages t)
  unfolding delete_cms_pages ◌>>=◌
  delete_cms_pages-Untouched = record {
    at = λ w. ground (
      arith,
      select-select (λ r. r.tenant_id == u) (λ r. not (r.tenant_id == t)) w.cms_pages
          (λ r. keeps_others r.tenant_id),
    );
  }

  erase_tenant_rows-Untouched : Stays (Untouched u) (erase_tenant_rows t)
  unfolding erase_tenant_rows
  erase_tenant_rows-Untouched = search (
    stays_rules, delete_leads-Untouched, delete_conversations-Untouched, delete_cms_pages-Untouched,
  )

only_manager-Untouched : (u : ℕ) (o : Option PlatformRole) → Stays (Untouched u) (only_manager o)
unfolding only_manager
only_manager-Untouched u (some tenant_manager) = search stays_rules
only_manager-Untouched u _ = search stays_rules

require_tenant_manager-Untouched :
    (u : ℕ) (role : String) → Stays (Untouched u) (require_tenant_manager role)
unfolding require_tenant_manager
require_tenant_manager-Untouched u role = only_manager-Untouched u (parse_role role)

-- Suspending a tenant leaves everything of every other tenant alone, also where it raises.
pub suspend_tenant-Untouched :
    (u t : ℕ) (actor_role : String) (actor_id reason : Option String)
    → t ≢ u
    → Stays (Untouched u) (suspend_tenant t actor_role actor_id reason)
unfolding suspend_tenant
suspend_tenant-Untouched u t actor_role actor_id reason other =
    search
      (stays_rules, require_tenant_manager-Untouched, set_status-Untouched, add_audit_log-Untouched)
      depth 9

-- Erasing a tenant leaves everything of every other tenant alone: its rows in every table, its
-- sessions' memory and its lead windows, also where the erasure raises half-way.
pub erase_tenant-Untouched :
    (u t : ℕ) (actor_role : String) (actor_id reason : Option String)
    → t ≢ u
    → Stays (Untouched u) (erase_tenant t actor_role actor_id reason)
unfolding erase_tenant
erase_tenant-Untouched u t actor_role actor_id reason other =
    search
      (
        stays_rules, require_tenant_manager-Untouched, uuid4-Untouched, set_status-Untouched,
        add_audit_log-Untouched, erase_tenant_rows-Untouched, create_erasure_job-Untouched,
      )
      depth 26
