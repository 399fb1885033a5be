-- ===== src/Auth.antt =====
-- The login of the admins: app/services/admin_auth.py (here and `Auth.Tokens`), app/infra/password.py
-- (`Auth.Passwords`), and the gates of app/api/deps.py (`Auth.Gates`). The check of a password
-- against the dummy hash, whose answer is not used, is left out.
pub mod Passwords
pub mod Tokens
pub mod Gates
pub mod Login
use multi_tenant_ai_chatbot.Prelude.{ℕ, String, not, Option, ◌==◌, str_eq}
use multi_tenant_ai_chatbot.Prelude.Text.{lower}
use multi_tenant_ai_chatbot.Db.Rows.{AdminUser}
use multi_tenant_ai_chatbot.World.{
  World, Action, invalid_credentials, pure, gets, or_raise, raise_if, ◌>>=◌, ◌>>◌,
}
use multi_tenant_ai_chatbot.Invites.Repository.{get_by_email}
use Passwords.{Bcrypt, verify_password}
use Tokens.{Jwt, Uuids, AdminSettings, admin_claims, allowed_login_role}

-- `AdminLoginResponse` of app/domain/admin_auth.py
pub record AdminLoginResponse : Type 0 where
  pub token : String
  pub expires_in : ℕ
  pub actor_id : String
  pub tenant_id : ℕ
  pub role : String
  pub full_name : Option String

module _ (bcrypt : Bcrypt) (jwt : Jwt) (uuids : Uuids) (settings : AdminSettings) where
  -- the response to a user who may log in
  abbrev pub login_response : AdminUser → (now : ℕ) → AdminLoginResponse
  login_response user now = record {
    token =
        jwt.encode (admin_claims uuids user now settings.admin_token_ttl_seconds)
          settings.admin_jwt_secret;
    expires_in = settings.admin_token_ttl_seconds;
    actor_id = user.email;
    tenant_id = user.tenant_id;
    role = user.role;
    full_name = user.full_name;
  }

  unfoldable pub authenticate : (email password : String) → Action AdminLoginResponse
  unfolding verify_password allowed_login_role
  authenticate email password = do
    found ← get_by_email (lower email)
    user ← or_raise found invalid_credentials
    raise_if (not (verify_password bcrypt password user.password_hash)) invalid_credentials
    raise_if (not (str_eq user.status "active")) invalid_credentials
    raise_if (not (allowed_login_role user.role)) invalid_credentials
    now ← gets (λ w. w.clock)
    pure (login_response user now)
