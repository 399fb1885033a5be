-- ===== src/Invites/Accept.antt =====
-- `accept_invite` of app/services/admin_invite.py: what a redeemed invite creates, that it can be
-- redeemed once, and that a refusal changes nothing.
use multi_tenant_ai_chatbot.Prelude.{
  ℕ, String, ◌≡◌, ◌≢◌, refl, true, false, none, some, List, [], ◌∷◌, ◌++◌, find_row, any,
  find_row-update_other, ==-refl, ◌==◌, str_eq, eq_iff, arith, ◌∙◌, update_where,
}
use multi_tenant_ai_chatbot.Prelude.Text.{strip}
use multi_tenant_ai_chatbot.Db.Rows.{AdminUser, AdminInvite}
use multi_tenant_ai_chatbot.World.{World, Error, ok, err, invite_unavailable, uuid4, ◌>>=◌}
use multi_tenant_ai_chatbot.Invites.Repository.{get_by_token, get_by_email, create_user, mark_used}
use multi_tenant_ai_chatbot.Invites.{
  InviteAcceptRequest, pending, invite_status, is_strong, check_password_strength, accept_invite,
}

no_user :
    (email : String) (users : List AdminUser)
    → find_row (λ u. str_eq u.email email) users ≡ none
    → any (λ u. str_eq u.email email) users ≡ false
no_user email [] h = refl
no_user email (u ∷ users) h = ground (arith, no_user email users)

used_is_closed :
    (invite : AdminInvite) (at now : ℕ)
    → invite.used_at ≡ some at
    → invite_status invite now ≢ pending
unfolding invite_status
used_is_closed invite at now h = ground arith

-- An invite that is used, revoked or expired is refused, and nothing is changed.
pub accept_invite-closed :
    (hash_password : String → String) (w : World) (token : ℕ) (request : InviteAcceptRequest)
    (invite : AdminInvite)
    → find_row (λ i. i.token == token) w.admin_invites ≡ some invite
    → invite_status invite w.clock ≢ pending
    → is_strong request.password ≡ true
    → accept_invite hash_password token request w ≡ (err invite_unavailable, w)
unfolding accept_invite check_password_strength get_by_token ◌>>=◌
accept_invite-closed hash_password w token request invite known closed strong = ground arith

module _ (hash_password : String → String) (w : World) (token : ℕ)
    (request : InviteAcceptRequest) where
  -- Where the driver takes the times, an acceptance that raises, whatever the error, has changed
  -- nothing.
  pub accept_invite-refused :
      (e : Error)
      → w.takes_aware_times ≡ true
      → (accept_invite hash_password token request w).0 ≡ err e
      → (accept_invite hash_password token request w).1 ≡ w
  unfolding accept_invite check_password_strength get_by_token get_by_email create_user mark_used
      uuid4 ◌>>=◌
  accept_invite-refused e takes h = ground arith

  module _ (invite : AdminInvite)
      (known : find_row (λ i. i.token == token) w.admin_invites ≡ some invite) where
    marked :
        (now : ℕ)
        → find_row
            (λ i. i.token == token)
            (update_where
              (λ i. i.id == invite.id)
              (λ i. record i { used_at = some now })
              w.admin_invites)
          ≡ some (record invite { used_at = some now })
    marked now =
        find_row-update_other (λ (i : AdminInvite). i.token == token) (λ i. i.id == invite.id)
          (λ i. record i { used_at = some now }) w.admin_invites invite (λ i. refl) known
        ∙ rw (==-refl invite.id)

    -- Where the driver takes the times, a pending invite, redeemed with a strong password given twice for an email that no user has,
    -- creates one user, with the tenant, role and email of the invite and the hash of the password,
    -- and is marked used. The request has no say in tenant, role or email.
    pub accept_invite-accepts :
        w.takes_aware_times ≡ true
        → request.password ≡ request.confirm_password
        → is_strong request.password ≡ true
        → invite_status invite w.clock ≡ pending
        → find_row (λ u. str_eq u.email invite.email) w.admin_users ≡ none
        → let user : AdminUser = record {
          id = w.next_id;
          tenant_id = invite.tenant_id;
          email = invite.email;
          full_name = some (strip request.full_name);
          password_hash = hash_password request.password;
          role = invite.role;
          status = "active";
        } in
          let (r, w') = accept_invite hash_password token request w in
          (r ≡ ok user)
          × (w'.admin_users ≡ w.admin_users ++ user ∷ [])
          × (find_row (λ i. i.token == token) w'.admin_invites
              ≡ some (record invite { used_at = some w.clock }))
    unfolding accept_invite check_password_strength get_by_token get_by_email create_user mark_used
        uuid4 ◌>>=◌
    accept_invite-accepts takes same strong open_now new =
        rw
          (
            (eq_iff request.password request.confirm_password).1 same,
            strong,
            takes,
            known,
            open_now,
            new,
            no_user invite.email w.admin_users new,
          )
          (refl, refl, marked w.clock)

    -- Once redeemed, which takes a driver that takes the times, an invite is refused ever after: at any time, to any request with a strong
    -- password, as long as the invites are as the acceptance left them.
    pub accept_invite-once :
        w.takes_aware_times ≡ true
        → request.password ≡ request.confirm_password
        → is_strong request.password ≡ true
        → invite_status invite w.clock ≡ pending
        → find_row (λ u. str_eq u.email invite.email) w.admin_users ≡ none
        → (later : World) (second : InviteAcceptRequest)
        → later.admin_invites ≡ (accept_invite hash_password token request w).1.admin_invites
        → is_strong second.password ≡ true
        → accept_invite hash_password token second later ≡ (err invite_unavailable, later)
    accept_invite-once takes same strong open_now new later second kept strong' =
        let redeemed = record invite { used_at = some w.clock } in
        accept_invite-closed hash_password later token second redeemed
          (rw kept (accept_invite-accepts takes same strong open_now new).2)
          (used_is_closed redeemed w.clock later.clock refl) strong'
