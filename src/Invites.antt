-- ===== src/Invites.antt =====
-- app/services/admin_invite.py, over app/repositories/admin_invite_repo.py and
-- app/repositories/admin_user_repo.py (`Invites.Repository`). `hash_password` of
-- app/infra/password.py is bcrypt, a parameter. The classes `[A-Za-z]` and `\d` of the password
-- rules are taken on ASCII. The texts of the exceptions are left out, but each exception is its own.
pub mod Repository
pub mod Accept
pub mod Manage
use Prim.Native.Char.{code}
use Prim.Native.String as Native
use multi_tenant_ai_chatbot.Prelude.{
  ℕ, ◌+◌, ◌*◌, String, Bool, true, false, ◌&&◌, ◌||◌, not, Option, none, some, List, [], ◌∷◌,
  is_some, ltb, leb, ◌==◌, str_eq, if◌then◌else◌,
}
use multi_tenant_ai_chatbot.Prelude.Text.{strip, lower, text_length}
use multi_tenant_ai_chatbot.Db.Rows.{Json, uuid, text, AdminUser, AdminInvite, Tenant}
use multi_tenant_ai_chatbot.World.{
  World, Action, validation_error, invite_unavailable, invite_forbidden, invite_conflict,
  weak_password, assertion_error, pure, raise, gets, or_raise, raise_if, uuid4, ◌>>=◌, ◌>>◌,
}
use multi_tenant_ai_chatbot.Tenants.Repository.{get_by_id, add_audit_log}
use Repository.{
  NewInvite, create, get_by_token, mark_used, mark_revoked, resend, get_by_email, create_user,
}

is_letter : ℕ → Bool
is_letter n = (leb b'A' n && leb n b'Z') || (leb b'a' n && leb n b'z')

is_digit : ℕ → Bool
is_digit n = leb b'0' n && leb n b'9'

-- `pattern.search(text)` for a pattern that is one class of characters
searches : (ℕ → Bool) → String → Bool
searches p Native.[] = false
searches p (Native.◌∷◌ c s) = p (code c) || searches p s

-- `_check_password_strength` does not raise
unfoldable pub is_strong : String → Bool
unfolding is_letter is_digit searches
is_strong password =
    not (ltb 72 (text_length password)) && searches is_letter password && searches is_digit password

unfoldable pub check_password_strength : String → Action (Unit {0})
check_password_strength password = raise_if (not (is_strong password)) weak_password

pub data InviteStatus : Type 0 where
  used revoked expired pending : InviteStatus

-- `_invite_status`
unfoldable pub invite_status : AdminInvite → ℕ → InviteStatus
invite_status invite now =
    if is_some invite.used_at
    then used
    else if is_some invite.revoked_at
    then revoked
    else if ltb invite.expires_at now
    then expired
    else pending

abbrev pub is_pending : InviteStatus → Bool
is_pending pending = true
is_pending _ = false

-- `InviteCreateRequest` of app/domain/admin_invite.py, validated: the role is `tenant_admin` or
-- `tenant_manager`
pub record InviteCreateRequest : Type 0 where
  pub email : String
  pub role : String
  pub ttl_seconds : ℕ

unfoldable pub create_invite : InviteCreateRequest → ℕ → String → Action AdminInvite
create_invite request inviter_tenant_id inviter_actor_id = do
  token ← uuid4
  now ← gets (λ w. w.clock)
  create (record {
    token = token;
    tenant_id = inviter_tenant_id;
    email = lower request.email;
    role = request.role;
    invited_by = inviter_actor_id;
    expires_at = now + request.ttl_seconds;
  })

-- `InviteDetailsResponse`: its `status` is one of `pending`, `used` and `expired`
pub record InviteDetails : Type 0 where
  pub email : String
  pub role : String
  pub tenant_name : String
  pub expires_at : ℕ
  pub status : InviteStatus

-- the validation of the response model's `status`
abbrev pub is_public : InviteStatus → Bool
is_public revoked = false
is_public _ = true

unfoldable pub get_invite_details : ℕ → Action InviteDetails
get_invite_details token = do
  found ← get_by_token token
  invite ← or_raise found invite_unavailable
  owner ← get_by_id invite.tenant_id
  tenant ← or_raise owner invite_unavailable
  now ← gets (λ w. w.clock)
  let status = invite_status invite now
  raise_if (not (is_public status)) validation_error
  pure (record {
    email = invite.email;
    role = invite.role;
    tenant_name = tenant.name;
    expires_at = invite.expires_at;
    status = status;
  })

-- `InviteAcceptRequest`
pub record InviteAcceptRequest : Type 0 where
  pub full_name : String
  pub password : String
  pub confirm_password : String

unfoldable pub accept_invite : (String → String) → ℕ → InviteAcceptRequest → Action AdminUser
accept_invite hash_password token request = do
  raise_if (not (str_eq request.password request.confirm_password)) invite_unavailable
  check_password_strength request.password
  found ← get_by_token token
  invite ← or_raise found invite_unavailable
  now ← gets (λ w. w.clock)
  raise_if (not (is_pending (invite_status invite now))) invite_unavailable
  existing ← get_by_email invite.email
  raise_if (is_some existing) invite_unavailable
  user ←
      create_user invite.tenant_id invite.email (hash_password request.password) invite.role
        (some (strip request.full_name))
  used_at ← gets (λ w. w.clock)
  mark_used invite used_at
  pure user

-- `InviteActor`
pub record InviteActor : Type 0 where
  pub tenant_id : ℕ
  pub actor_id : String
  pub role : String

-- `_require_actor_scope` does not raise
abbrev pub in_scope : AdminInvite → InviteActor → Bool
in_scope invite actor = str_eq actor.role "tenant_manager" || invite.tenant_id == actor.tenant_id

abbrev pub is_closed : InviteStatus → Bool
is_closed used = true
is_closed revoked = true
is_closed _ = false

abbrev audit_entry : InviteActor → String → AdminInvite → Repository.AuditEntry
audit_entry actor action invite = record {
  actor_id = some actor.actor_id;
  actor_role = actor.role;
  action = action;
  metadata = ("invite_id", uuid invite.id) ∷ ("email", text invite.email) ∷ [];
}

-- what `revoke_invite` and `resend_invite` check before they change the invite
unfoldable pub open_invite : ℕ → InviteActor → Action AdminInvite
open_invite token actor = do
  found ← get_by_token token
  invite ← or_raise found invite_unavailable
  raise_if (not (in_scope invite actor)) invite_forbidden
  now ← gets (λ w. w.clock)
  raise_if (is_closed (invite_status invite now)) invite_conflict
  pure invite

unfoldable pub revoke_invite : ℕ → InviteActor → Action AdminInvite
unfolding open_invite
revoke_invite token actor = do
  invite ← open_invite token actor
  now ← gets (λ w. w.clock)
  revoked_row ← mark_revoked token now
  row ← or_raise revoked_row assertion_error
  add_audit_log invite.tenant_id (audit_entry actor "admin.invite_revoked" row)
  pure row

abbrev pub default_ttl : ℕ
default_ttl = 86400 * 7

unfoldable pub resend_invite : ℕ → InviteActor → ℕ → Action AdminInvite
unfolding open_invite
resend_invite token actor ttl_seconds = do
  invite ← open_invite token actor
  new_token ← uuid4
  now ← gets (λ w. w.clock)
  resent ← resend token new_token (now + ttl_seconds)
  row ← or_raise resent assertion_error
  add_audit_log invite.tenant_id (audit_entry actor "admin.invite_resent" row)
  pure row
