-- ===== src/Auth/Gates.antt =====
-- app/api/deps.py: who a request comes from. The headers are those that the client sends;
-- `CONCIERGE_ENV` is an argument, `none` where it is not set.
pub mod Trust
use multi_tenant_ai_chatbot.Prelude.{
  ℕ, String, Bool, true, false, not, ◌||◌, Option, none, some, or_else, str_eq, if◌then◌else◌,
}
use multi_tenant_ai_chatbot.Prelude.Dict.{lookup, text_key}
use multi_tenant_ai_chatbot.World.{Error, Result, ok, err, unauthorized, unsupported_role}
use multi_tenant_ai_chatbot.Tenants.Role.{PlatformRole, parse_role}
use multi_tenant_ai_chatbot.Tools.Args.Calls.{ArgValue, text}
use multi_tenant_ai_chatbot.Auth.Tokens.{
  Jwt, Uuids, Claims, AdminSettings, AdminSession, allowed_login_role, verify_admin_token,
  bearer_token,
}

pub record AdminHeaders : Type 0 where
  pub authorization : Option String
  pub x_concierge_role : Option String
  pub x_concierge_tenant_id : Option String
  pub x_concierge_actor_id : Option String

pub record TenantAdminContext : Type 0 where
  pub tenant_id : ℕ
  pub actor_id : Option String
  pub role : String

-- the session of a token, where its role is one of those that the gate accepts
abbrev accepted : (String → Bool) → Option AdminSession → Option TenantAdminContext
accepted allowed none = none
accepted allowed (some session) =
    if allowed session.role
    then some (record {
      tenant_id = session.tenant_id;
      actor_id = some session.actor_id;
      role = session.role;
    })
    else none

abbrev dev_tenant : Option String → (role : String) → Option ℕ → Option TenantAdminContext
dev_tenant actor_id role none = none
dev_tenant actor_id role (some tenant_id) =
    some (record { tenant_id = tenant_id; actor_id = actor_id; role = role })

-- the context of the dev headers
abbrev dev_context :
    Uuids
    → (String → Bool)
    → Option String
    → (role tenant_id : Option String) → Option TenantAdminContext
dev_context uuids allowed actor_id (some role) (some raw) =
    let context = dev_tenant actor_id role (uuids.parse raw) in
    if not (allowed role) then none else if str_eq raw "" then none else context
dev_context uuids allowed actor_id _ _ = none

-- `os.getenv("CONCIERGE_ENV", "dev") == "dev"`
abbrev pub in_dev : Option String → Bool
in_dev concierge_env = str_eq (or_else concierge_env "dev") "dev"

abbrev first_context :
    Option TenantAdminContext → Option TenantAdminContext → Option TenantAdminContext
first_context none other = other
first_context (some context) other = some context

module _ (jwt : Jwt) (uuids : Uuids) (settings : AdminSettings) (now : ℕ) where
  abbrev verified : Option String → Option AdminSession
  verified none = none
  verified (some token) = verify_admin_token jwt uuids settings token now

  -- what the two gates share: the token first, then, in dev, the headers
  abbrev gate :
      (String → Bool) → (concierge_env : Option String) → AdminHeaders → Option TenantAdminContext
  gate allowed concierge_env headers =
      first_context (accepted allowed (verified (bearer_token headers.authorization))) (
        if not (in_dev concierge_env)
        then none
        else dev_context uuids allowed headers.x_concierge_actor_id headers.x_concierge_role
            headers.x_concierge_tenant_id)

  unfoldable pub require_admin_session :
      (concierge_env : Option String) → AdminHeaders → Option TenantAdminContext
  unfolding allowed_login_role verify_admin_token bearer_token
  require_admin_session = gate allowed_login_role

  unfoldable pub require_tenant_admin :
      (concierge_env : Option String) → AdminHeaders → Option TenantAdminContext
  unfolding verify_admin_token bearer_token
  require_tenant_admin = gate (λ role. str_eq role "tenant_admin")

abbrev tenant_of_uuid : Option ℕ → Result ℕ
tenant_of_uuid none = err unauthorized
tenant_of_uuid (some tenant_id) = ok tenant_id

abbrev tenant_of_claim : Uuids → Option ArgValue → Result ℕ
tenant_of_claim uuids (some (text raw_tenant_id)) = tenant_of_uuid (uuids.parse raw_tenant_id)
tenant_of_claim uuids _ = err unauthorized

abbrev tenant_of_claims : Uuids → Option Claims → Result ℕ
tenant_of_claims uuids none = err unauthorized
tenant_of_claims uuids (some payload) = tenant_of_claim uuids (lookup "tenant_id" payload)

abbrev tenant_of_token :
    Jwt → Uuids → (widget_jwt_secret : String) (now : ℕ) → Option String → Result ℕ
tenant_of_token jwt uuids secret now none = err unauthorized
tenant_of_token jwt uuids secret now (some token) =
    tenant_of_claims uuids (jwt.decode token secret now)

-- every failure is a 401
unfoldable pub get_tenant_id_from_widget_token :
    Jwt → Uuids → (widget_jwt_secret : String) (now : ℕ) (authorization : Option String) → Result ℕ
unfolding bearer_token
get_tenant_id_from_widget_token jwt uuids secret now authorization =
    tenant_of_token jwt uuids secret now (bearer_token authorization)

-- `PlatformActor`
pub record PlatformActor : Type 0 where
  pub actor_id : String
  pub actor_role : PlatformRole

abbrev platform_actor : String → Option PlatformRole → Result PlatformActor
platform_actor actor_id none = err unsupported_role
platform_actor actor_id (some role) = ok (record { actor_id = actor_id; actor_role = role })

unfoldable pub get_platform_actor : (actor_id actor_role : Option String) → Result PlatformActor
unfolding parse_role
get_platform_actor (some actor_id) (some actor_role) =
    platform_actor actor_id (parse_role actor_role)
get_platform_actor _ _ = err unauthorized
