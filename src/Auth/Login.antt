-- ===== src/Auth/Login.antt =====
-- app/services/admin_auth.py: `authenticate` and `verify_admin_token`, and the login of a user that
-- `accept_invite` of app/services/admin_invite.py made.
use multi_tenant_ai_chatbot.Prelude.{
  ℕ, ◌+◌, ◌≤◌, ◌<◌, String, ◌≡◌, refl, Bool, true, false, ◌&&◌, Option, none, some, List, find_row,
  find_row-append_none, ◌==◌, str_eq, eq_refl, arith, Option-cases, inl, inr,
}
use multi_tenant_ai_chatbot.Prelude.Text.{lower, strip}
use multi_tenant_ai_chatbot.Db.Rows.{AdminUser, AdminInvite}
use multi_tenant_ai_chatbot.World.{World, ok, err, invalid_credentials, ◌>>=◌}
use multi_tenant_ai_chatbot.Invites.Repository.{get_by_email}
use multi_tenant_ai_chatbot.Invites.{
  InviteAcceptRequest, pending, invite_status, is_strong, accept_invite,
}
use multi_tenant_ai_chatbot.Invites.Accept.{accept_invite-accepts}
use multi_tenant_ai_chatbot.Auth.{AdminLoginResponse, login_response, authenticate}
use multi_tenant_ai_chatbot.Auth.Passwords.{
  Bcrypt, hash_password, verify_password, verify_password-hash_password,
}
use multi_tenant_ai_chatbot.Auth.Tokens.{
  Jwt, Uuids, AdminSettings, admin_claims, allowed_login_role, verify_admin_token,
}

-- the user is there, active and of a role that may log in, and the password is the user's
abbrev pub may_log_in : Bcrypt → (password : String) → Option AdminUser → Bool
may_log_in bcrypt password none = false
may_log_in bcrypt password (some user) =
    verify_password bcrypt password user.password_hash
    && str_eq user.status "active"
    && allowed_login_role user.role

-- PyJWT gives back the claims that were signed under the same secret, from the time they were issued
-- until they expire
abbrev pub DecodesAdmin : Jwt → Uuids → AdminSettings → AdminUser → (issued_at : ℕ) → Type 0
DecodesAdmin jwt uuids settings user issued_at =
    let claims = admin_claims uuids user issued_at settings.admin_token_ttl_seconds in
    (now : ℕ)
    → issued_at ≤ now
    → now < issued_at + settings.admin_token_ttl_seconds
    → jwt.decode (jwt.encode claims settings.admin_jwt_secret) settings.admin_jwt_secret now
      ≡ some claims

module _ (bcrypt : Bcrypt) (jwt : Jwt) (uuids : Uuids) (settings : AdminSettings) (w : World)
    (email password : String) where
  -- A login is refused with one and the same error, and changes nothing, whether the email is unknown,
  -- the password is wrong, or the user is not active or has no role that may log in.
  pub authenticate-refused :
      may_log_in bcrypt password (find_row (λ u. str_eq u.email (lower email)) w.admin_users)
        ≡ false
      → authenticate bcrypt jwt uuids settings email password w ≡ (err invalid_credentials, w)
  unfolding authenticate get_by_email ◌>>=◌
  authenticate-refused refused =
      elim (Option-cases (find_row (λ u. str_eq u.email (lower email)) w.admin_users)) [
        | inl unknown ↦ rw unknown refl
        | inr (user, known) ↦
            let no : may_log_in bcrypt password (some user) ≡ false = rw known at refused in
            rw known (ground (arith, no))
      ]

  module _ (user : AdminUser)
      (known : find_row (λ u. str_eq u.email (lower email)) w.admin_users ≡ some user)
      (allowed : may_log_in bcrypt password (some user) ≡ true) where
    authenticate-logs_in :
        authenticate bcrypt jwt uuids settings email password w
        ≡ (ok (login_response bcrypt jwt uuids settings user w.clock), w)
    unfolding authenticate get_by_email ◌>>=◌
    authenticate-logs_in = rw known (ground (arith, allowed))

    -- A user who may log in gets a token that is verified, from then until it expires, as a session of
    -- the user's email, tenant and role.
    pub authenticate-verifies :
        (now : ℕ)
        → DecodesAdmin jwt uuids settings user w.clock
        → uuids.parse (uuids.str user.tenant_id) ≡ some user.tenant_id
        → w.clock ≤ now
        → now < w.clock + settings.admin_token_ttl_seconds
        → (response : AdminLoginResponse) × ((authenticate bcrypt jwt uuids settings email password
                w
              ≡ (ok response, w))
            × (verify_admin_token jwt uuids settings response.token now
                ≡ some (record {
                  actor_id = user.email;
                  tenant_id = user.tenant_id;
                  role = user.role;
                })))
    unfolding verify_admin_token
    authenticate-verifies now decodes parses from until =
        let role : allowed_login_role user.role ≡ true = ground arith in
        (
          login_response bcrypt jwt uuids settings user w.clock,
          (authenticate-logs_in, rw (decodes now from until, parses, role) refl),
        )

-- Where the driver takes the times and bcrypt verifies its own hashes, who redeems a pending invite
-- with a strong password given twice, for an email that no user has and a role that may log in, can log
-- in with the password under any spelling of the invite's email that lowers to it, and is then an admin
-- of the invite's tenant in the invite's role: in any later world whose admin users are as the
-- acceptance left them.
pub accept_invite-authenticates :
    (bcrypt : Bcrypt) (jwt : Jwt) (uuids : Uuids) (settings : AdminSettings)
    → ((bytes : List ℕ) → bcrypt.checkpw bytes (bcrypt.hashpw bytes) ≡ some true)
    → (w : World) (token : ℕ) (request : InviteAcceptRequest) (invite : AdminInvite)
      (email : String)
    → w.takes_aware_times ≡ true
    → find_row (λ i. i.token == token) w.admin_invites ≡ some invite
    → request.password ≡ request.confirm_password
    → is_strong request.password ≡ true
    → invite_status invite w.clock ≡ pending
    → find_row (λ u. str_eq u.email invite.email) w.admin_users ≡ none
    → allowed_login_role invite.role ≡ true
    → lower email ≡ invite.email
    → (later : World)
    → later.admin_users ≡ (accept_invite (hash_password bcrypt) token request w).1.admin_users
    → (response : AdminLoginResponse) × ((authenticate bcrypt jwt uuids settings email
            request.password later
          ≡ (ok response, later))
        × (response.actor_id ≡ invite.email)
        × (response.tenant_id ≡ invite.tenant_id)
        × (response.role ≡ invite.role))
accept_invite-authenticates bcrypt jwt uuids settings law w token request invite email takes known
      same strong open_now new role lowered later kept =
    let user : AdminUser = record {
      id = w.next_id;
      tenant_id = invite.tenant_id;
      email = invite.email;
      full_name = some (strip request.full_name);
      password_hash = hash_password bcrypt request.password;
      role = invite.role;
      status = "active";
    } in
    let (returned, users, marked) =
      accept_invite-accepts (hash_password bcrypt) w token request invite known takes same strong
        open_now new in
    let found : find_row (λ u. str_eq u.email (lower email)) later.admin_users ≡ some user =
      rw (kept, users, lowered)
        (find_row-append_none (λ (u : AdminUser). str_eq u.email invite.email) w.admin_users user
          new (eq_refl invite.email)) in
    let allowed : may_log_in bcrypt request.password (some user) ≡ true =
      rw (verify_password-hash_password bcrypt law request.password, role) refl in
    (
      login_response bcrypt jwt uuids settings user later.clock,
      (
        authenticate-logs_in bcrypt jwt uuids settings later email request.password user found
            allowed,
        refl,
        refl,
        refl,
      ),
    )
