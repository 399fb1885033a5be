-- ===== src/Tenants/Role.antt =====
-- `PlatformRole` of app/domain/tenant.py.
use multi_tenant_ai_chatbot.Prelude.{String, ◌≡◌, refl, Option, none, some, str_eq, if◌then◌else◌}

pub data PlatformRole : Type 0 where
  tenant_manager tenant_admin member visitor : PlatformRole

-- `PlatformRole(value)`, `none` for its `ValueError`
unfoldable pub parse_role : String → Option PlatformRole
parse_role value =
    if str_eq value "tenant_manager"
    then some tenant_manager
    else if str_eq value "tenant_admin"
    then some tenant_admin
    else if str_eq value "member"
    then some member
    else if str_eq value "visitor"
    then some visitor
    else none

abbrev pub role_value : PlatformRole → String
role_value tenant_manager = "tenant_manager"
role_value tenant_admin = "tenant_admin"
role_value member = "member"
role_value visitor = "visitor"

-- Reading back the text of a role gives the role.
pub parse_role-role_value : (r : PlatformRole) → parse_role (role_value r) ≡ some r
unfolding parse_role
parse_role-role_value tenant_manager = refl
parse_role-role_value tenant_admin = refl
parse_role-role_value member = refl
parse_role-role_value visitor = refl
