-- ===== src/Tenants.antt =====
-- app/services/tenant_service.py: `TenantService`, over app/repositories/tenant_repo.py
-- (`Tenants.Repository`). The texts of errors are left out.
pub mod Role
pub mod Slug
pub mod Repository
pub mod Reports
pub mod Frames
pub mod Erasure
pub mod RateLimits
use multi_tenant_ai_chatbot.Prelude.{
  ℕ, ◌-◌, String, Bool, true, Option, none, some, List, [], ◌∷◌, ltb, str_eq, if◌then◌else◌, not,
}
use multi_tenant_ai_chatbot.Db.Rows.{
  TenantStatus, suspended, erasing, erased, Json, null, number, uuid, text, counts, Tenant,
  TenantRateLimit,
}
use multi_tenant_ai_chatbot.World.{
  World, Action, tenant_permission, tenant_not_found, pure, raise, gets, or_raise, uuid4, ◌>>=◌,
  ◌>>◌,
}
use Role.{PlatformRole, tenant_manager, tenant_admin, member, visitor, parse_role, role_value}
use Repository.{
  create, get_by_id, set_status, AuditEntry, add_audit_log, UsageEvent, get_rate_limit,
  count_usage_since, create_erasure_job, erase_tenant_rows,
}
use Repository

-- `role is not PlatformRole.TENANT_MANAGER`, and the `ValueError` of a text that is no role
unfoldable pub only_manager : Option PlatformRole → Action PlatformRole
only_manager (some tenant_manager) = pure tenant_manager
only_manager _ = raise tenant_permission

-- `_require_tenant_manager`; the role is the text that the request carries
unfoldable pub require_tenant_manager : String → Action PlatformRole
unfolding only_manager
require_tenant_manager actor_role = only_manager (parse_role actor_role)

-- `_require_tenant_exists`
unfoldable pub require_tenant_exists : ℕ → Action Tenant
require_tenant_exists tenant_id = do found ← get_by_id tenant_id; or_raise found tenant_not_found

unfoldable pub get_tenant : ℕ → String → Action Tenant
get_tenant tenant_id actor_role = do
  require_tenant_manager actor_role
  found ← get_by_id tenant_id
  or_raise found tenant_not_found

abbrev pub entry : Option String → PlatformRole → String → List (String × Json) → AuditEntry
entry actor_id role action metadata = record {
  actor_id = actor_id;
  actor_role = role_value role;
  action = action;
  metadata = metadata;
}

abbrev pub text_or_null : Option String → Json
text_or_null none = null
text_or_null (some s) = text s

unfoldable pub provision_tenant : String → String → Option String → Action Tenant
provision_tenant name actor_role actor_id = do
  role ← require_tenant_manager actor_role
  tenant ← create name
  add_audit_log tenant.id
      (entry actor_id role "tenant.provisioned" (("tenant_name", text name) ∷ []))
  pure tenant

unfoldable pub create_tenant : String → Action Tenant
create_tenant name = provision_tenant name "tenant_manager" (some "system")

-- `{"reason": reason} if reason else {}`: an empty reason is no reason
abbrev pub reason_metadata : Option String → List (String × Json)
reason_metadata none = []
reason_metadata (some reason) = if str_eq reason "" then [] else ("reason", text reason) ∷ []

unfoldable pub suspend_tenant : ℕ → String → Option String → Option String → Action Tenant
suspend_tenant tenant_id actor_role actor_id reason = do
  role ← require_tenant_manager actor_role
  found ← set_status tenant_id suspended
  tenant ← or_raise found tenant_not_found
  add_audit_log tenant_id (entry actor_id role "tenant.suspended" (reason_metadata reason))
  pure tenant

-- `actor_id or "unknown"`
abbrev pub requester : Option String → String
requester none = "unknown"
requester (some actor_id) = if str_eq actor_id "" then "unknown" else actor_id

-- `ErasureResult`; the trace id, `erase-` and a UUID, stands as the UUID
pub record ErasureResult : Type 0 where
  pub tenant_id : ℕ
  pub status : TenantStatus
  pub deleted_rows : List (String × ℕ)
  pub deleted_blobs : ℕ
  pub deleted_sessions : ℕ
  pub trace_id : ℕ

unfoldable pub erase_tenant : ℕ → String → Option String → Option String → Action ErasureResult
erase_tenant tenant_id actor_role actor_id reason = do
  role ← require_tenant_manager actor_role
  trace_id ← uuid4
  started_at ← gets (λ w. w.clock)
  found ← set_status tenant_id erasing
  or_raise found tenant_not_found
  add_audit_log tenant_id (
      entry actor_id role "tenant.erasure_requested"
        (("reason", text_or_null reason) ∷ ("trace_id", uuid trace_id) ∷ []))
  deleted_rows ← erase_tenant_rows tenant_id
  completed_at ← gets (λ w. w.clock)
  create_erasure_job tenant_id (requester actor_id) "completed" deleted_rows started_at completed_at
  erased_tenant ← set_status tenant_id erased
  or_raise erased_tenant tenant_not_found
  add_audit_log tenant_id (
      entry actor_id role "tenant.erased"
        (("deleted_rows", counts deleted_rows) ∷ ("trace_id", uuid trace_id) ∷ []))
  pure (record {
    tenant_id = tenant_id;
    status = erased;
    deleted_rows = deleted_rows;
    deleted_blobs = 0;
    deleted_sessions = 0;
    trace_id = trace_id;
  })

unfoldable pub record_usage : ℕ → UsageEvent → Action (Unit {0})
record_usage tenant_id usage = do
  require_tenant_exists tenant_id
  Repository.record_usage tenant_id usage

-- `RateLimitResult` of app/domain/tenant.py
pub record RateLimitResult : Type 0 where
  pub tenant_id : ℕ
  pub action : String
  pub allowed : Bool
  pub limit_count : Option ℕ
  pub used : ℕ
  pub remaining : Option ℕ
  pub window_seconds : Option ℕ

abbrev pub limited_entry : String → ℕ → TenantRateLimit → AuditEntry
limited_entry action used limit = record {
  actor_id = some "system";
  actor_role = "system";
  action = "tenant.rate_limited";
  metadata =
      ("action", text action)
      ∷ ("used", number used)
      ∷ ("limit_count", number limit.limit_count)
      ∷ ("window_seconds", number limit.window_seconds)
      ∷ [];
}

-- the part of `check_rate_limit` below the lookup of the limit
unfoldable pub check_limit : ℕ → String → Option TenantRateLimit → Action RateLimitResult
check_limit tenant_id action none = pure (record {
  tenant_id = tenant_id;
  action = action;
  allowed = true;
  limit_count = none;
  used = 0;
  remaining = none;
  window_seconds = none;
})
check_limit tenant_id action (some limit) = do
  now ← gets (λ w. w.clock)
  used ← count_usage_since tenant_id action (now - limit.window_seconds)
  let allowed = ltb used limit.limit_count
  if allowed then pure tt else add_audit_log tenant_id (limited_entry action used limit)
  pure (record {
    tenant_id = tenant_id;
    action = action;
    allowed = allowed;
    limit_count = some limit.limit_count;
    used = used;
    remaining = some (limit.limit_count - used);
    window_seconds = some limit.window_seconds;
  })

unfoldable pub check_rate_limit : ℕ → String → Action RateLimitResult
unfolding check_limit
check_rate_limit tenant_id action = do
  require_tenant_exists tenant_id
  limit ← get_rate_limit tenant_id action
  check_limit tenant_id action limit
