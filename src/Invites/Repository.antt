-- ===== src/Invites/Repository.antt =====
-- app/repositories/admin_invite_repo.py (`AdminInviteRepository`), and what the invites use of
-- app/repositories/admin_user_repo.py (`AdminUserRepository`).
use multi_tenant_ai_chatbot.Prelude.{
  ℕ, String, Option, none, some, [], ◌∷◌, ◌++◌, find_row, any, update_where, ◌==◌, str_eq,
}
use multi_tenant_ai_chatbot.Db.{Db}
use multi_tenant_ai_chatbot.Db.Rows.{AdminUser, AdminInvite}
use multi_tenant_ai_chatbot.World.{
  Action, db_error, pure, gets, modify_db, raise_if, send_aware_time, uuid4, ◌>>=◌, ◌>>◌,
}
pub use multi_tenant_ai_chatbot.Tenants.Repository.{AuditEntry}

-- the arguments of `AdminInviteRepository.create`
pub record NewInvite : Type 0 where
  pub token : ℕ
  pub tenant_id : ℕ
  pub email : String
  pub role : String
  pub invited_by : String
  pub expires_at : ℕ

abbrev pub invite_row : ℕ → NewInvite → AdminInvite
invite_row id n = record {
  id = id;
  token = n.token;
  tenant_id = n.tenant_id;
  email = n.email;
  role = n.role;
  invited_by = n.invited_by;
  expires_at = n.expires_at;
  used_at = none;
  revoked_at = none;
}

unfoldable pub create : NewInvite → Action AdminInvite
create new = do
  id ← uuid4
  send_aware_time
  modify_db (λ db. record db { admin_invites = db.admin_invites ++ invite_row id new ∷ [] })
  pure (invite_row id new)

unfoldable pub get_by_token : ℕ → Action (Option AdminInvite)
get_by_token token = gets (λ w. find_row (λ i. i.token == token) w.admin_invites)

-- the columns of one row, found by its primary key, are written
abbrev pub write_invite : AdminInvite → (AdminInvite → AdminInvite) → Db → Db
write_invite invite f db = record db {
  admin_invites = update_where (λ i. i.id == invite.id) f db.admin_invites;
}

unfoldable pub mark_used : AdminInvite → ℕ → Action (Unit {0})
mark_used invite used_at = do
  send_aware_time
  modify_db (write_invite invite (λ i. record i { used_at = some used_at }))

-- the columns written hold a time
unfoldable pub write_found :
    (AdminInvite → AdminInvite) → Option AdminInvite → Action (Option AdminInvite)
write_found f none = pure none
write_found f (some invite) = do
  send_aware_time
  modify_db (write_invite invite f)
  pure (some (f invite))

unfoldable pub mark_revoked : ℕ → ℕ → Action (Option AdminInvite)
unfolding get_by_token write_found
mark_revoked token revoked_at = do
  found ← get_by_token token
  write_found (λ i. record i { revoked_at = some revoked_at }) found

unfoldable pub resend : ℕ → ℕ → ℕ → Action (Option AdminInvite)
unfolding get_by_token write_found
resend token new_token new_expires_at = do
  found ← get_by_token token
  write_found (λ i. record i { token = new_token; expires_at = new_expires_at }) found

-- `AdminUserRepository.get_by_email`
unfoldable pub get_by_email : String → Action (Option AdminUser)
get_by_email email = gets (λ w. find_row (λ u. str_eq u.email email) w.admin_users)

-- `AdminUserRepository.create`, and the name that `accept_invite` sets on the new row. The email is
-- unique.
unfoldable pub create_user : ℕ → String → String → String → Option String → Action AdminUser
create_user tenant_id email password_hash role full_name = do
  taken ← gets (λ w. any (λ u. str_eq u.email email) w.admin_users)
  raise_if taken db_error
  id ← uuid4
  let user : AdminUser = record {
    id = id;
    tenant_id = tenant_id;
    email = email;
    full_name = full_name;
    password_hash = password_hash;
    role = role;
    status = "active";
  }
  modify_db (λ db. record db { admin_users = db.admin_users ++ user ∷ [] })
  pure user
