-- ===== src/Tenants/Erasure.antt =====
-- What `TenantService.erase_tenant` of app/services/tenant_service.py does to the erased tenant.
use mathlib.Core.List.{map-append, append_assoc}
use multi_tenant_ai_chatbot.Prelude.{
  ℕ, ◌+◌, String, ◌≡◌, refl, ◌≢◌, true, false, Option, some, [], ◌∷◌, ◌++◌, map, length,
  length-append, find_row, any, update_where, select, select-delete, find_row-update_where, ◌==◌,
  arith,
}
use multi_tenant_ai_chatbot.Db.{conversation_referenced, page_referenced}
use multi_tenant_ai_chatbot.Db.Rows.{TenantStatus, erasing, erased, Tenant}
use multi_tenant_ai_chatbot.World.{
  World, ok, err, db_error, tenant_permission, request, ◌>>=◌, uuid4,
}
use multi_tenant_ai_chatbot.Tenants.Role.{tenant_manager, parse_role}
use multi_tenant_ai_chatbot.Tenants.Repository.{
  add_audit_log, set_status, erase_tenant_rows, create_erasure_job,
}
use multi_tenant_ai_chatbot.Tenants.{require_tenant_manager, only_manager, erase_tenant}

abbrev pub owned : (t : ℕ) → World → record { leads : ℕ; conversations : ℕ; cms_pages : ℕ }
owned t w = record {
  leads = length (select (λ r. r.tenant_id == t) w.leads);
  conversations = length (select (λ r. r.tenant_id == t) w.conversations);
  cms_pages = length (select (λ r. r.tenant_id == t) w.cms_pages);
}

-- no other row refers to a conversation or a page of the tenant
abbrev pub IsUnreferenced : ℕ → World → Type 0
IsUnreferenced t w =
    (any (conversation_referenced w.db) (select (λ r. r.tenant_id == t) w.conversations) ≡ false)
    × (any (page_referenced w.db) (select (λ r. r.tenant_id == t) w.cms_pages) ≡ false)

module _ (w : World) (t : ℕ) (actor_role : String) (actor_id reason : Option String)
    (tenant : Tenant) (manager : parse_role actor_role ≡ some tenant_manager)
    (known : find_row (λ x. x.id == t) w.tenants ≡ some tenant) where
  status_found :
      (s : TenantStatus)
      → find_row
          (λ x. x.id == t)
          (update_where (λ x. x.id == t) (λ x. record x { status = s }) w.tenants)
        ≡ some (record tenant { status = s })
  status_found s =
      find_row-update_where (λ (x : Tenant). x.id == t) (λ x. record x { status = s }) w.tenants
        tenant (λ x. refl) known

  twice_found :
      find_row
        (λ x. x.id == t)
        (update_where
          (λ x. x.id == t)
          (λ x. record x { status = erased })
          (update_where (λ x. x.id == t) (λ x. record x { status = erasing }) w.tenants))
      ≡ some (record tenant { status = erased })
  twice_found =
      find_row-update_where (λ (x : Tenant). x.id == t) (λ x. record x { status = erased }) _ _
        (λ x. refl) (status_found erasing)

  -- A tenant manager's erasure of a known tenant, where no escalation ticket refers to one of its
  -- conversations and no RAG chunk to one of its pages, returns the numbers of the rows deleted.
  -- Afterwards the tenant is erased and has no leads, conversations or pages, two entries are in
  -- the audit log, the request before the completion, and one job is recorded.
  pub erase_tenant-erases :
      IsUnreferenced t w
      → let (r, w') = erase_tenant t actor_role actor_id reason w in
        (r
          ≡ ok (record {
            tenant_id = t;
            status = erased;
            deleted_rows =
                ("cms_pages", (owned t w).cms_pages)
                ∷ ("rag_chunks", 0)
                ∷ ("leads", (owned t w).leads)
                ∷ ("conversations", (owned t w).conversations)
                ∷ ("widget_configs", 0)
                ∷ [];
            deleted_blobs = 0;
            deleted_sessions = 0;
            trace_id = w.next_id;
          }))
        × (find_row (λ x. x.id == t) w'.tenants ≡ some (record tenant { status = erased }))
        × (select (λ r. r.tenant_id == t) w'.leads ≡ [])
        × (select (λ r. r.tenant_id == t) w'.conversations ≡ [])
        × (select (λ r. r.tenant_id == t) w'.cms_pages ≡ [])
        × (map (λ a. a.action) w'.audit_logs
            ≡ map (λ a. a.action) w.audit_logs ++ "tenant.erasure_requested" ∷ "tenant.erased" ∷ [])
        × (length w'.erasure_jobs ≡ length w.erasure_jobs + 1)
  unfolding erase_tenant require_tenant_manager add_audit_log set_status erase_tenant_rows
      create_erasure_job ◌>>=◌ uuid4 conversation_referenced page_referenced
  erase_tenant-erases h =
      rw (manager, known, h.0, h.1, status_found erasing, twice_found)
        (
          refl,
          refl,
          select-delete (λ r. r.tenant_id == t) w.leads,
          select-delete (λ r. r.tenant_id == t) w.conversations,
          select-delete (λ r. r.tenant_id == t) w.cms_pages,
          simp (map-append, append_assoc),
          rw length-append,
        )

  -- While any escalation ticket refers to a conversation of the tenant, the erasure ends in a
  -- database error, and the request's rollback leaves the database as it was: the tenant is not
  -- erased, and its rows stay.
  pub erase_tenant-blocked :
      any (conversation_referenced w.db) (select (λ r. r.tenant_id == t) w.conversations) ≡ true
      → let (r, w') = request (erase_tenant t actor_role actor_id reason) w in
        (r ≡ err db_error) × (w'.db ≡ w.db)
  unfolding request erase_tenant require_tenant_manager add_audit_log set_status erase_tenant_rows
      ◌>>=◌ uuid4 conversation_referenced
  erase_tenant-blocked h = rw (manager, known, h) (refl, refl)

-- Without the tenant manager's role the erasure is refused, and nothing is changed.
pub erase_tenant-forbidden :
    (w : World) (t : ℕ) (actor_role : String) (actor_id reason : Option String)
    → parse_role actor_role ≢ some tenant_manager
    → erase_tenant t actor_role actor_id reason w ≡ (err tenant_permission, w)
unfolding erase_tenant require_tenant_manager only_manager ◌>>=◌
erase_tenant-forbidden w t actor_role actor_id reason h = ground arith
