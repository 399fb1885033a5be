-- ===== src/Invites/Manage.antt =====
-- `create_invite`, `get_invite_details`, `revoke_invite` and `resend_invite` of
-- app/services/admin_invite.py.
use multi_tenant_ai_chatbot.Prelude.{
  ℕ, ◌+◌, ◌≤◌, ◌<◌, String, ◌≡◌, ◌≢◌, ◌↔◌, refl, true, false, none, some, List, [], ◌∷◌, All,
  find_row, update_where, find_row-update_other, find_row-append_none, ==-refl, ◌==◌, arith,
  Bool-cases, inl, inr, ◌∙◌, eq_of_==,
}
use multi_tenant_ai_chatbot.Prelude.Text.{lower}
use multi_tenant_ai_chatbot.Db.Rows.{AdminInvite, Tenant}
use multi_tenant_ai_chatbot.World.{World, ok, err, invite_forbidden, validation_error, uuid4, ◌>>=◌}
use multi_tenant_ai_chatbot.Tenants.Repository.{add_audit_log, get_by_id}
use multi_tenant_ai_chatbot.Invites.Repository.{get_by_token, mark_revoked, resend, create}
use multi_tenant_ai_chatbot.Invites.{
  InviteCreateRequest, InviteActor, revoked, pending, invite_status, is_closed, in_scope,
  create_invite, get_invite_details, revoke_invite, resend_invite,
}

-- no two invites have one token, and every token came from `uuid4`
abbrev pub HasToken : ℕ → AdminInvite → Type 0
HasToken token i = i.token ≡ token

abbrev pub TokensAreUnique : List AdminInvite → Type 0
TokensAreUnique [] = Unit
TokensAreUnique (i ∷ rows) = (find_row (λ j. j.token == i.token) rows ≡ none) × TokensAreUnique rows

abbrev pub IsWellFormed : World → Type 0
IsWellFormed w = TokensAreUnique w.admin_invites × All (λ i. i.token < w.next_id) w.admin_invites

fresh_token :
    (token : ℕ) (rows : List AdminInvite)
    → All (λ i. i.token < token) rows
    → find_row (λ i. i.token == token) rows ≡ none
fresh_token token [] h = refl
fresh_token token (i ∷ rows) h = ground (arith, fresh_token token rows h.1)

-- Where the driver takes the times, a new invite is stored in the inviter's tenant whatever the request says, is found under its token
-- and is pending exactly until its term is over.
pub create_invite-finds :
    (w : World) (request : InviteCreateRequest) (tenant_id now : ℕ) (actor_id : String)
    → w.takes_aware_times ≡ true
    → IsWellFormed w
    → let invite : AdminInvite = record {
      id = w.next_id + 1;
      token = w.next_id;
      tenant_id = tenant_id;
      email = lower request.email;
      role = request.role;
      invited_by = actor_id;
      expires_at = w.clock + request.ttl_seconds;
      used_at = none;
      revoked_at = none;
    } in
      let (r, w') = create_invite request tenant_id actor_id w in
      (r ≡ ok invite)
      × (find_row (λ i. i.token == w.next_id) w'.admin_invites ≡ some invite)
      × ((invite_status invite now ≡ pending) ↔ (now ≤ w.clock + request.ttl_seconds))
unfolding create_invite create uuid4 ◌>>=◌ invite_status
create_invite-finds w request tenant_id now actor_id takes wf = rw takes (
  refl,
  find_row-append_none (λ (i : AdminInvite). i.token == w.next_id) w.admin_invites _
      (fresh_token w.next_id w.admin_invites wf.1) (==-refl w.next_id),
  ground arith,
)

module _ (w : World) (token : ℕ) (invite : AdminInvite)
    (known : find_row (λ i. i.token == token) w.admin_invites ≡ some invite) where
  -- The details of a revoked invite of a known tenant end in a validation error: the response model
  -- has no such status.
  pub get_invite_details-revoked :
      (tenant : Tenant)
      → find_row (λ t. t.id == invite.tenant_id) w.tenants ≡ some tenant
      → invite_status invite w.clock ≡ revoked
      → get_invite_details token w ≡ (err validation_error, w)
  unfolding get_invite_details get_by_token get_by_id ◌>>=◌
  get_invite_details-revoked tenant owner h = rw (known, owner, h)

  written :
      (f : AdminInvite → AdminInvite)
      → ((y : AdminInvite) → ((f y).token == token) ≡ (y.token == token))
      → find_row (λ i. i.token == token) (update_where (λ i. i.id == invite.id) f w.admin_invites)
        ≡ some (f invite)
  written f keeps =
      find_row-update_other (λ (i : AdminInvite). i.token == token) (λ i. i.id == invite.id) f
        w.admin_invites invite keeps known
      ∙ rw (==-refl invite.id)

  -- Where the driver takes the times, revoking an invite that is neither used nor revoked, expired or not, by an actor in scope,
  -- returns it revoked; it is found so under its token, and is revoked at any time from then on.
  pub revoke_invite-revokes :
      (actor : InviteActor) (now : ℕ)
      → w.takes_aware_times ≡ true
      → in_scope invite actor ≡ true
      → is_closed (invite_status invite w.clock) ≡ false
      → let (r, w') = revoke_invite token actor w in
        let gone = record invite { revoked_at = some w.clock } in
        (r ≡ ok gone)
        × (find_row (λ i. i.token == token) w'.admin_invites ≡ some gone)
        × (invite_status gone now ≡ revoked)
  unfolding revoke_invite get_by_token mark_revoked add_audit_log invite_status uuid4 ◌>>=◌
  revoke_invite-revokes actor now takes scope still_open =
      rw (known, scope, still_open) (rw (known, takes) (refl, written _ (λ y. refl), ground arith))

  -- An actor who is neither a tenant manager nor of the invite's tenant cannot revoke it, and
  -- nothing is changed.
  pub revoke_invite-forbidden :
      (actor : InviteActor)
      → in_scope invite actor ≡ false
      → revoke_invite token actor w ≡ (err invite_forbidden, w)
  unfolding revoke_invite get_by_token ◌>>=◌
  revoke_invite-forbidden actor scope = rw (known, scope) refl

still_gone :
    (token new id expires_at : ℕ) (rows : List AdminInvite)
    → find_row (λ i. i.token == token) rows ≡ none
    → token ≢ new
    → find_row
        (λ i. i.token == token)
        (update_where
          (λ i. i.id == id)
          (λ i. record i { token = new; expires_at = expires_at })
          rows)
      ≡ none
still_gone token new id expires_at [] h ne = refl
still_gone token new id expires_at (i ∷ rows) h ne =
    ground (arith, still_gone token new id expires_at rows)

old_token_gone :
    (token new expires_at : ℕ) (invite : AdminInvite) (rows : List AdminInvite)
    → TokensAreUnique rows
    → find_row (λ i. i.token == token) rows ≡ some invite
    → token ≢ new
    → find_row
        (λ i. i.token == token)
        (update_where
          (λ i. i.id == invite.id)
          (λ i. record i { token = new; expires_at = expires_at })
          rows)
      ≡ none
old_token_gone token new expires_at invite [] wf h ne = refl
old_token_gone token new expires_at invite (i ∷ rows) wf h ne =
    elim (Bool-cases (i.token == token)) [
      | inl same ↦
          let e : i ≡ invite = ground arith in
          let gone : find_row (λ (j : AdminInvite). j.token == token) rows ≡ none =
            rw (eq_of_== i.token token same) at wf.0 in
          ground (arith, e, still_gone token new invite.id expires_at rows gone)
      | inr other ↦
          let rest : find_row (λ (j : AdminInvite). j.token == token) rows ≡ some invite =
            rw other at h in
          ground (arith, rest, old_token_gone token new expires_at invite rows wf.1)
    ]

known_below :
    (token next : ℕ) (rows : List AdminInvite) (invite : AdminInvite)
    → All (λ i. i.token < next) rows
    → find_row (λ i. i.token == token) rows ≡ some invite
    → token < next
known_below token next [] invite h e = cc
known_below token next (i ∷ rows) invite h e =
    ground (arith, known_below token next rows invite h.1)

-- Where the driver takes the times, and tokens are unique and come from `uuid4`, resending an invite
-- that is neither used nor revoked, expired or not, by an actor in scope, gives it a token that no invite had and a new term; the old token finds no invite any more.
pub resend_invite-retires_token :
    (w : World) (token : ℕ) (invite : AdminInvite) (actor : InviteActor) (ttl_seconds : ℕ)
    → w.takes_aware_times ≡ true
    → IsWellFormed w
    → find_row (λ i. i.token == token) w.admin_invites ≡ some invite
    → in_scope invite actor ≡ true
    → is_closed (invite_status invite w.clock) ≡ false
    → let (r, w') = resend_invite token actor ttl_seconds w in
      (r ≡ ok (record invite { token = w.next_id; expires_at = w.clock + ttl_seconds }))
      × (find_row (λ i. i.token == w.next_id) w.admin_invites ≡ none)
      × (find_row (λ i. i.token == token) w'.admin_invites ≡ none)
unfolding resend_invite get_by_token resend add_audit_log uuid4 ◌>>=◌
resend_invite-retires_token w token invite actor ttl_seconds takes wf known scope still_open =
    let below = known_below token w.next_id w.admin_invites invite wf.1 known in
    rw (known, scope, still_open)
      (rw (known, takes)
        (
          refl,
          fresh_token w.next_id w.admin_invites wf.1,
          old_token_gone token w.next_id (w.clock + ttl_seconds) invite w.admin_invites wf.0 known
              (omega arith),
        ))
