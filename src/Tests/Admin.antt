-- ===== src/Tests/Admin.antt =====
-- Tests of tenants and invites.
use multi_tenant_ai_chatbot.Prelude.{
  ◌+◌, String, ◌≡◌, refl, none, some, [], ◌∷◌, map, length, find_row, select, ◌==◌, arith,
}
use multi_tenant_ai_chatbot.Db.{conversation_referenced, page_referenced}
use multi_tenant_ai_chatbot.Db.Rows.{erased, AdminInvite}
use multi_tenant_ai_chatbot.World.{World, ok, err, db_error, invite_unavailable, request}
use multi_tenant_ai_chatbot.World.Stays.{Stays}
use multi_tenant_ai_chatbot.World.Isolation.{Untouched}
use multi_tenant_ai_chatbot.Tenants.Role.{parse_role}
use multi_tenant_ai_chatbot.Tenants.{erase_tenant}
use multi_tenant_ai_chatbot.Tenants.Frames.{erase_tenant-Untouched}
use multi_tenant_ai_chatbot.Tenants.Erasure.{erase_tenant-erases, erase_tenant-blocked}
use multi_tenant_ai_chatbot.Invites.{
  InviteAcceptRequest, InviteActor, invite_status, is_strong, accept_invite, resend_invite,
}
use multi_tenant_ai_chatbot.Invites.Accept.{accept_invite-once}
use multi_tenant_ai_chatbot.Invites.Manage.{resend_invite-retires_token}
use multi_tenant_ai_chatbot.Tests.{acme, invite, database, world, ticketed}

abbrev hash : String → String
hash password = "hashed"

abbrev good : InviteAcceptRequest
good = record {
  full_name = " Ann ";
  password = "correct horse 1";
  confirm_password = "correct horse 1";
}

abbrev boss : InviteActor
boss = record { tenant_id = 1; actor_id = "boss"; role = "tenant_admin" }

abbrev stranger : InviteActor
stranger = record { tenant_id = 2; actor_id = "eve"; role = "tenant_admin" }

abbrev with_invite : AdminInvite → World
with_invite i = record world { db = record database { admin_invites = i ∷ [] } }

abbrev revoked_invite : AdminInvite
revoked_invite = record invite { revoked_at = some 900 }

erase_tenant-Untouched_example : Stays (Untouched 2) (erase_tenant 1 "tenant_manager" none none)
erase_tenant-Untouched_example = erase_tenant-Untouched 2 1 "tenant_manager" none none (omega arith)

erase_tenant-erases_example :
    let (r, v) = erase_tenant 1 "tenant_manager" none none world in
    (r
      ≡ ok (record {
        tenant_id = 1;
        status = erased;
        deleted_rows =
            ("cms_pages", 0)
            ∷ ("rag_chunks", 0)
            ∷ ("leads", 1)
            ∷ ("conversations", 1)
            ∷ ("widget_configs", 0)
            ∷ [];
        deleted_blobs = 0;
        deleted_sessions = 0;
        trace_id = 100;
      }))
    × (find_row (λ x. x.id == 1) v.tenants ≡ some (record acme { status = erased }))
    × (select (λ r. r.tenant_id == 1) v.leads ≡ [])
    × (select (λ r. r.tenant_id == 1) v.conversations ≡ [])
    × (select (λ r. r.tenant_id == 1) v.cms_pages ≡ [])
    × (map (λ a. a.action) v.audit_logs ≡ "tenant.erasure_requested" ∷ "tenant.erased" ∷ [])
    × (length v.erasure_jobs ≡ 1)
unfolding parse_role conversation_referenced page_referenced
erase_tenant-erases_example =
    erase_tenant-erases world 1 "tenant_manager" none none acme refl refl (refl, refl)

erase_tenant-blocked_example :
    let (r, v) = request (erase_tenant 1 "tenant_manager" none none) ticketed in
    (r ≡ err db_error) × (v.db ≡ ticketed.db)
unfolding parse_role conversation_referenced
erase_tenant-blocked_example =
    erase_tenant-blocked ticketed 1 "tenant_manager" none none acme refl refl refl

accept_invite-once_example :
    let later = (accept_invite hash 31 good world).1 in
    accept_invite hash 31 good later ≡ (err invite_unavailable, later)
unfolding is_strong invite_status
accept_invite-once_example =
    accept_invite-once hash world 31 good invite refl refl refl refl refl refl
      (accept_invite hash 31 good world).1 good refl refl

resend_invite-retires_token_example :
    let (r, v) = resend_invite 31 boss 600 world in
    (r ≡ ok (record invite { token = 100; expires_at = 1000 + 600 }))
    × (find_row (λ i. i.token == 100) world.admin_invites ≡ none)
    × (find_row (λ i. i.token == 31) v.admin_invites ≡ none)
unfolding invite_status
resend_invite-retires_token_example =
    resend_invite-retires_token world 31 invite boss 600 refl ((refl, tt), (omega arith, tt)) refl
      refl refl
