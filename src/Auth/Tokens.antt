-- ===== src/Auth/Tokens.antt =====
-- The tokens of app/services/admin_auth.py and app/api/deps.py. PyJWT's HS256 is the parameter
-- `Jwt`, and the text of a UUID and its reading are the parameter `Uuids`.
use Prim.Native.Char.{code}
use Prim.Native.String as Native
use multi_tenant_ai_chatbot.Prelude.{
  ℕ, ◌+◌, String, Bool, not, ◌&&◌, ◌||◌, Option, none, some, List, [], ◌∷◌, ◌==◌, str_eq,
  if◌then◌else◌,
}
use multi_tenant_ai_chatbot.Prelude.Text.{lower}
use multi_tenant_ai_chatbot.Prelude.Dict.{lookup, text_key}
use multi_tenant_ai_chatbot.Db.Rows.{AdminUser}
use multi_tenant_ai_chatbot.Tools.Args.Calls.{ArgValue, text, number}

abbrev pub Claims : Type 0
Claims = List (String × ArgValue)

-- `jwt.encode(payload, secret, algorithm="HS256")`, and `jwt.decode` at a time, where `none` is a
-- `PyJWTError`
pub record Jwt : Type 0 where
  pub encode : Claims → (secret : String) → String
  pub decode : (token secret : String) (now : ℕ) → Option Claims

-- `str(uuid)`, and `UUID(text)`, where `none` is a `ValueError`
pub record Uuids : Type 0 where
  pub str : ℕ → String
  pub parse : String → Option ℕ

-- `AdminSettings` of app/services/admin_settings.py
pub record AdminSettings : Type 0 where
  pub admin_jwt_secret : String
  pub admin_token_ttl_seconds : ℕ

-- `AdminSession`
pub record AdminSession : Type 0 where
  pub actor_id : String
  pub tenant_id : ℕ
  pub role : String

-- `_ALLOWED_LOGIN_ROLES`
unfoldable pub allowed_login_role : String → Bool
allowed_login_role role = str_eq role "tenant_admin" || str_eq role "tenant_manager"

-- the payload that `authenticate` signs
abbrev pub admin_claims : Uuids → AdminUser → (now ttl : ℕ) → Claims
admin_claims uuids user now ttl =
    ("actor_id", text user.email)
    ∷ ("tenant_id", text (uuids.str user.tenant_id))
    ∷ ("role", text user.role)
    ∷ ("iat", number now)
    ∷ ("exp", number (now + ttl))
    ∷ []

-- the `isinstance` tests and the reading of the tenant, in the order of the code
abbrev session_of_tenant : (actor_id role : String) → Option ℕ → Option AdminSession
session_of_tenant actor_id role none = none
session_of_tenant actor_id role (some tenant_id) =
    some (record { actor_id = actor_id; tenant_id = tenant_id; role = role })

abbrev session_of :
    Uuids → Option ArgValue → Option ArgValue → Option ArgValue → Option AdminSession
session_of uuids (some (text raw_tenant)) (some (text actor_id)) (some (text role)) =
    let session = session_of_tenant actor_id role (uuids.parse raw_tenant) in
    if not (allowed_login_role role) then none else session
session_of uuids _ _ _ = none

abbrev session_of_claims : Uuids → Option Claims → Option AdminSession
session_of_claims uuids none = none
session_of_claims uuids (some payload) =
    session_of uuids (lookup "tenant_id" payload) (lookup "actor_id" payload)
      (lookup "role" payload)

unfoldable pub verify_admin_token :
    Jwt → Uuids → AdminSettings → (token : String) (now : ℕ) → Option AdminSession
verify_admin_token jwt uuids settings token now =
    session_of_claims uuids (jwt.decode token settings.admin_jwt_secret now)

-- the parts of `text.partition(" ")` before and after the first space
unfoldable pub partition : String → String × String
partition Native.[] = ("", "")
partition (Native.◌∷◌ c s) =
    let (scheme, rest) = partition s in
    if code c == b' ' then ("", s) else (Native.◌∷◌ c scheme, rest)

-- `scheme.lower() == "bearer" and token`
abbrev of_scheme : String × String → Option String
of_scheme (scheme, token) =
    if str_eq (lower scheme) "bearer" && not (str_eq token "") then some token else none

-- the token of an `Authorization` header
unfoldable pub bearer_token : Option String → Option String
unfolding partition
bearer_token none = none
bearer_token (some authorization) = of_scheme (partition authorization)
