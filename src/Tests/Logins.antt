-- ===== src/Tests/Logins.antt =====
-- The theorems on app/services/admin_auth.py and app/api/deps.py, at concrete inputs.
use multi_tenant_ai_chatbot.Prelude.{
  ◌+◌, ◌&&◌, ◌≡◌, refl, some, none, [], ◌∷◌, leb, ltb, str_eq, arith, if◌then◌else◌,
}
use multi_tenant_ai_chatbot.Prelude.Text.{lower}
use multi_tenant_ai_chatbot.Db.Rows.{AdminUser}
use multi_tenant_ai_chatbot.World.{World, ok, err, invalid_credentials}
use multi_tenant_ai_chatbot.Invites.{InviteAcceptRequest, accept_invite, invite_status, is_strong}
use multi_tenant_ai_chatbot.Auth.{AdminLoginResponse, authenticate}
use multi_tenant_ai_chatbot.Auth.Passwords.{Bcrypt, hash_password, verify_password}
use multi_tenant_ai_chatbot.Auth.Tokens.{
  Jwt, Uuids, AdminSettings, admin_claims, allowed_login_role, verify_admin_token, bearer_token,
  partition,
}
use multi_tenant_ai_chatbot.Auth.Login.{
  authenticate-refused, authenticate-verifies, accept_invite-authenticates,
}
use multi_tenant_ai_chatbot.Auth.Gates.{AdminHeaders, TenantAdminContext, require_tenant_admin}
use multi_tenant_ai_chatbot.Auth.Gates.Trust.{IsFromToken, require_tenant_admin-IsFromToken}
use multi_tenant_ai_chatbot.Tests.{database, world, invite}

abbrev bcrypt : Bcrypt
bcrypt = record { hashpw = λ bytes. "hash"; checkpw = λ bytes hashed. some (str_eq hashed "hash") }

abbrev user : AdminUser
user = record {
  id = 20;
  tenant_id = 1;
  email = "bob@acme.io";
  full_name = none;
  password_hash = "hash";
  role = "tenant_admin";
  status = "active";
}

abbrev settings : AdminSettings
settings = record { admin_jwt_secret = "secret"; admin_token_ttl_seconds = 28800 }

abbrev uuids : Uuids
uuids = record {
  str = λ n. "tenant one";
  parse = λ s. if str_eq s "tenant one" then some 1 else none;
}

-- one token, of one user, issued at 1000
abbrev jwt : Jwt
jwt = record {
  encode = λ claims secret. "token";
  decode = λ token secret now.
      if leb 1000 now && ltb now (1000 + 28800)
      then some (admin_claims uuids user 1000 28800)
      else none;
}

abbrev with_user : World
with_user = record world { db = record database { admin_users = user ∷ [] } }

authenticate-verifies_example :
    (response : AdminLoginResponse) × ((authenticate bcrypt jwt uuids settings "bob@acme.io"
          "hunter2" with_user
        ≡ (ok response, with_user))
      × (verify_admin_token jwt uuids settings response.token 2000
          ≡ some (record { actor_id = "bob@acme.io"; tenant_id = 1; role = "tenant_admin" })))
unfolding verify_password allowed_login_role lower
authenticate-verifies_example =
    authenticate-verifies bcrypt jwt uuids settings with_user "bob@acme.io" "hunter2" user refl refl
      2000 (λ now from until. ground arith) refl (omega arith) (omega arith)

authenticate-refused_example :
    authenticate bcrypt jwt uuids settings "eve@acme.io" "hunter2" with_user
    ≡ (err invalid_credentials, with_user)
unfolding lower
authenticate-refused_example =
    authenticate-refused bcrypt jwt uuids settings with_user "eve@acme.io" "hunter2" refl

abbrev ann : InviteAcceptRequest
ann = record {
  full_name = " Ann ";
  password = "correct horse 1";
  confirm_password = "correct horse 1";
}

accept_invite-authenticates_example :
    let v = (accept_invite (hash_password bcrypt) 31 ann world).1 in
    (response : AdminLoginResponse) × ((authenticate bcrypt jwt uuids settings "Ann@Acme.io"
          "correct horse 1" v
        ≡ (ok response, v))
      × (response.actor_id ≡ "ann@acme.io")
      × (response.tenant_id ≡ 1)
      × (response.role ≡ "tenant_admin"))
unfolding is_strong invite_status allowed_login_role lower
accept_invite-authenticates_example =
    accept_invite-authenticates bcrypt jwt uuids settings (λ bytes. refl) world 31 ann invite
      "Ann@Acme.io" refl refl refl refl refl refl refl refl
      (accept_invite (hash_password bcrypt) 31 ann world).1 refl

abbrev sent : AdminHeaders
sent = record {
  authorization = some "Bearer token";
  x_concierge_role = some "tenant_manager";
  x_concierge_tenant_id = some "tenant two";
  x_concierge_actor_id = some "eve";
}

abbrev bob : TenantAdminContext
bob = record { tenant_id = 1; actor_id = some "bob@acme.io"; role = "tenant_admin" }

require_tenant_admin-IsFromToken_example :
    IsFromToken jwt uuids settings 2000 sent bob × (bob.role ≡ "tenant_admin")
unfolding require_tenant_admin verify_admin_token allowed_login_role bearer_token partition lower
require_tenant_admin-IsFromToken_example =
    require_tenant_admin-IsFromToken jwt uuids settings 2000 (some "prod") sent bob refl refl
