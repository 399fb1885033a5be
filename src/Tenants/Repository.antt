-- ===== src/Tenants/Repository.antt =====
-- app/repositories/tenant_repo.py: `TenantRepository`.
use multi_tenant_ai_chatbot.Prelude.{
  ℕ, ◌+◌, String, Bool, ◌&&◌, ◌||◌, Option, none, some, List, [], ◌∷◌, ◌++◌, not, select, find_row,
  any, update_where, length, leb, ◌==◌, str_eq,
}
use multi_tenant_ai_chatbot.Db.{Db, conversation_referenced, page_referenced}
use multi_tenant_ai_chatbot.Db.Rows.{
  TenantStatus, active, Json, Tenant, AuditLog, TenantUsage, TenantRateLimit, ErasureJob,
}
use multi_tenant_ai_chatbot.World.{
  Action, db_error, pure, gets, modify_db, raise_if, send_aware_time, uuid4, ◌>>=◌, ◌>>◌,
}
use multi_tenant_ai_chatbot.Tenants.Slug.{slug_of}

-- the unique constraints on a tenant's name and slug
unfoldable pub clashes : String → String → Tenant → Bool
clashes name slug t = str_eq t.name name || str_eq t.slug slug

unfoldable pub create : String → Action Tenant
unfolding clashes
create name = do
  let slug = slug_of name
  taken ← gets (λ w. any (clashes name slug) w.tenants)
  raise_if taken db_error
  id ← uuid4
  let tenant : Tenant = record {
    id = id;
    name = name;
    slug = slug;
    status = active;
    plan = "starter";
  }
  modify_db (λ db. record db { tenants = db.tenants ++ tenant ∷ [] })
  pure tenant

unfoldable pub get_by_id : ℕ → Action (Option Tenant)
get_by_id tenant_id = gets (λ w. find_row (λ t. t.id == tenant_id) w.tenants)

unfoldable pub write_status : ℕ → TenantStatus → Db → Db
write_status tenant_id status db = record db {
  tenants = update_where (λ t. t.id == tenant_id) (λ t. record t { status = status }) db.tenants;
}

-- the part of `set_status` below the lookup
unfoldable pub set_found : ℕ → TenantStatus → Option Tenant → Action (Option Tenant)
set_found tenant_id status none = pure none
set_found tenant_id status (some tenant) = do
  modify_db (write_status tenant_id status)
  pure (some (record tenant { status = status }))

unfoldable pub set_status : ℕ → TenantStatus → Action (Option Tenant)
unfolding get_by_id write_status set_found
set_status tenant_id status = do found ← get_by_id tenant_id; set_found tenant_id status found

-- the arguments of `add_audit_log`, beside the tenant
pub record AuditEntry : Type 0 where
  pub actor_id : Option String
  pub actor_role : String
  pub action : String
  pub metadata : List (String × Json)

abbrev pub audit_row : ℕ → ℕ → AuditEntry → AuditLog
audit_row id tenant_id e = record {
  id = id;
  tenant_id = tenant_id;
  actor_id = e.actor_id;
  actor_role = e.actor_role;
  action = e.action;
  metadata = e.metadata;
}

unfoldable pub add_audit_log : ℕ → AuditEntry → Action (Unit {0})
add_audit_log tenant_id entry = do
  id ← uuid4
  modify_db (λ db. record db { audit_logs = db.audit_logs ++ audit_row id tenant_id entry ∷ [] })

-- `UsageEvent` of app/domain/tenant.py
pub record UsageEvent : Type 0 where
  pub feature : String
  pub units : ℕ
  pub unit_type : String
  pub estimated_cost_usd : ℕ
  pub trace_id : Option String

unfoldable pub record_usage : ℕ → UsageEvent → Action (Unit {0})
record_usage tenant_id usage = do
  id ← uuid4
  now ← gets (λ w. w.clock)
  let row : TenantUsage = record {
    id = id;
    tenant_id = tenant_id;
    feature = usage.feature;
    units = usage.units;
    unit_type = usage.unit_type;
    estimated_cost_usd = usage.estimated_cost_usd;
    trace_id = usage.trace_id;
    created_at = now;
  }
  modify_db (λ db. record db { tenant_usage = db.tenant_usage ++ row ∷ [] })

abbrev pub limits_action : ℕ → String → TenantRateLimit → Bool
limits_action tenant_id action r = r.tenant_id == tenant_id && str_eq r.action action

unfoldable pub get_rate_limit : ℕ → String → Action (Option TenantRateLimit)
get_rate_limit tenant_id action =
    gets (λ w. find_row (limits_action tenant_id action) w.rate_limits)

abbrev new_limit : ℕ → ℕ → String → ℕ → ℕ → TenantRateLimit
new_limit id tenant_id action limit_count window_seconds = record {
  id = id;
  tenant_id = tenant_id;
  action = action;
  limit_count = limit_count;
  window_seconds = window_seconds;
}

unfoldable pub upsert_found : ℕ → String → ℕ → ℕ → Option TenantRateLimit → Action (Unit {0})
upsert_found tenant_id action limit_count window_seconds none = do
  id ← uuid4
  let row = new_limit id tenant_id action limit_count window_seconds
  modify_db (λ db. record db { rate_limits = db.rate_limits ++ row ∷ [] })
upsert_found tenant_id action limit_count window_seconds (some limit) = modify_db (λ db. record db {
  rate_limits =
      update_where (λ r. r.id == limit.id)
        (λ r. record r { limit_count = limit_count; window_seconds = window_seconds })
        db.rate_limits;
})

unfoldable pub upsert_rate_limit : ℕ → String → ℕ → ℕ → Action (Unit {0})
unfolding get_rate_limit upsert_found
upsert_rate_limit tenant_id action limit_count window_seconds = do
  found ← get_rate_limit tenant_id action
  upsert_found tenant_id action limit_count window_seconds found

abbrev pub counts_usage : ℕ → String → ℕ → TenantUsage → Bool
counts_usage tenant_id action window_start u =
    u.tenant_id == tenant_id && str_eq u.feature action && leb window_start u.created_at

abbrev pub total_units : List TenantUsage → ℕ
total_units [] = 0
total_units (u ∷ rows) = u.units + total_units rows

-- `window_start` may lie before time zero: `window` seconds before `now`
unfoldable pub count_usage_since : ℕ → String → ℕ → Action ℕ
count_usage_since tenant_id action window_start = do
  send_aware_time
  gets (λ w. total_units (select (counts_usage tenant_id action window_start) w.tenant_usage))

unfoldable pub create_erasure_job :
    ℕ → String → String → List (String × ℕ) → ℕ → ℕ → Action (Unit {0})
create_erasure_job tenant_id requested_by status deleted_counts started_at completed_at = do
  id ← uuid4
  let job : ErasureJob = record {
    id = id;
    tenant_id = tenant_id;
    requested_by = requested_by;
    status = status;
    deleted_counts = deleted_counts;
    started_at = started_at;
    completed_at = completed_at;
  }
  modify_db (λ db. record db { erasure_jobs = db.erasure_jobs ++ job ∷ [] })

-- `_delete_tenant_rows` at `Lead`, `Conversation` and `CmsPage`: the rows that go are counted, and
-- the statement fails as a whole if another row refers to one of them
unfoldable pub delete_leads : ℕ → Action ℕ
delete_leads tenant_id = do
  count ← gets (λ w. length (select (λ r. r.tenant_id == tenant_id) w.leads))
  modify_db (λ db. record db { leads = select (λ r. not (r.tenant_id == tenant_id)) db.leads })
  pure count

unfoldable pub delete_conversations : ℕ → Action ℕ
delete_conversations tenant_id = do
  rows ← gets (λ w. select (λ r. r.tenant_id == tenant_id) w.conversations)
  referenced ← gets (λ w. any (conversation_referenced w.db) rows)
  raise_if referenced db_error
  modify_db (λ db. record db {
    conversations = select (λ r. not (r.tenant_id == tenant_id)) db.conversations;
  })
  pure (length rows)

unfoldable pub delete_cms_pages : ℕ → Action ℕ
delete_cms_pages tenant_id = do
  rows ← gets (λ w. select (λ r. r.tenant_id == tenant_id) w.cms_pages)
  referenced ← gets (λ w. any (page_referenced w.db) rows)
  raise_if referenced db_error
  modify_db
      (λ db. record db { cms_pages = select (λ r. not (r.tenant_id == tenant_id)) db.cms_pages })
  pure (length rows)

unfoldable pub erase_tenant_rows : ℕ → Action (List (String × ℕ))
unfolding delete_leads delete_conversations delete_cms_pages
erase_tenant_rows tenant_id = do
  leads ← delete_leads tenant_id
  conversations ← delete_conversations tenant_id
  cms_pages ← delete_cms_pages tenant_id
  pure (
      ("cms_pages", cms_pages)
      ∷ ("rag_chunks", 0)
      ∷ ("leads", leads)
      ∷ ("conversations", conversations)
      ∷ ("widget_configs", 0)
      ∷ [])
