-- ===== src/Cms/Publishing.antt =====
-- app/services/cms_pages.py: what one call of the service does to the page, its audit log and the index.
use multi_tenant_ai_chatbot.Prelude.{
  ℕ, ◌+◌, String, ◌≡◌, refl, ap, true, false, some, List, [], ◌∷◌, ◌++◌, map, All-any, select,
  find_row, update_where, find_row-update_where, ◌==◌, Option-cases, inl, inr,
}
use multi_tenant_ai_chatbot.Db.Rows.{CmsPage, RagChunk, uuid, text}
use multi_tenant_ai_chatbot.World.{
  World, Result, Action, ok, err, pure, cms_not_found, attempt, request, uuid4, ◌>>=◌,
}
use multi_tenant_ai_chatbot.Tenants.Repository.{add_audit_log, audit_row}
use multi_tenant_ai_chatbot.Tools.Args.Calls.{ArgValue}
use multi_tenant_ai_chatbot.Rag.Ingest.{
  Hashing, prepare_cms_page_chunks, row_of, is_chunk_of, sync_cms_page_index,
}
use multi_tenant_ai_chatbot.Rag.Ingest.Index.{
  with_rows, other_rows, NewIds, replaced_rows, sync_cms_page_index-published,
}
use multi_tenant_ai_chatbot.Cms.{
  CmsActor, to_payload, page_text, page_entry, status_action, sync_page_index, update_page,
  set_page_status, delete_page, validated_update, validated_status,
}
use multi_tenant_ai_chatbot.Cms.Repository.{
  PageChange, is_of, with_status, get, update, set_status, write_page,
}
use multi_tenant_ai_chatbot.Cms.Published.{sync_page_index-HasRows}

-- An update or a change of status by a valid body, or a deletion, of a page that is unknown or another
-- tenant's is refused with one and the same error, and changes nothing.
pub cms_calls-refused :
    (hashing : Hashing) (w : World) (page_id : ℕ) (actor : CmsActor)
    → (diff : PageChange) (body : List (String × ArgValue)) → validated_update body ≡ some diff
    → (status : String) (status_body : List (String × ArgValue))
    → validated_status status_body ≡ some status
    → is_of actor.tenant_id (find_row (λ p. p.id == page_id) w.cms_pages) ≡ false
    → (update_page hashing page_id body actor w ≡ (err cms_not_found, w))
      × (set_page_status hashing page_id status_body actor w ≡ (err cms_not_found, w))
      × (delete_page page_id actor w ≡ (err cms_not_found, w))
unfolding update_page set_page_status delete_page update set_status get ◌>>=◌
cms_calls-refused hashing w page_id actor diff body valid status status_body valid_status foreign =
    elim (Option-cases (find_row (λ p. p.id == page_id) w.cms_pages)) [
      | inl missing ↦ (rw (valid, missing) refl, rw (valid_status, missing) refl, rw missing refl)
      | inr (page, known) ↦
          let other : (page.tenant_id == actor.tenant_id) ≡ false = rw known at foreign in
          (
            rw (valid, known, other) refl,
            rw (valid_status, known, other) refl,
            rw (known, other) refl,
          )
    ]

pair_path : {A B : Type 0} (p : A × B) (a : A) (b : B) → p.0 ≡ a → p.1 ≡ b → p ≡ (a, b)
pair_path p a b h k = rw (h, k) refl

attempt-ok :
    {A : Type 0} (m : Action A) (w : World) (r : Result A)
    → (m w).0 ≡ r
    → ((attempt m >>= λ u. pure tt) w).0 ≡ ok tt
unfolding attempt ◌>>=◌
attempt-ok m w (ok a) e = rw (attempt, e) refl
attempt-ok m w (err x) e = rw (attempt, e) refl

-- Syncing never fails, and writes only to the index.
sync_page_index-stands :
    (hashing : Hashing) (page : CmsPage) (w : World)
    → (rows : List RagChunk) × (sync_page_index hashing page w ≡ (ok tt, with_rows rows w))
unfolding sync_page_index
sync_page_index-stands hashing page w =
    let (rows, (e, any)) =
      sync_page_index-HasRows (λ r. Unit) hashing page w (All-any _ w.rag_chunks (λ r h. tt))
        (λ b. All-any _ w.rag_chunks (λ r. tt)) (λ b. All-any _ w.rag_chunks (λ r. tt))
        (λ b. All-any _ _ (λ c. tt)) in
    (
      rows,
      pair_path _ _ _
          (attempt-ok (request (sync_cms_page_index hashing true (page_text page) page.status)) w _
            refl)
          e,
    )

-- the world in which the status is set and recorded, and the index is not yet synced
abbrev status_written : (page_id : ℕ) (status : String) (actor : CmsActor) → World → World
status_written page_id status actor w = record w {
  db = record w.db {
    cms_pages = update_where (λ p. p.id == page_id) (with_status status) w.cms_pages;
    audit_logs =
        w.audit_logs
        ++ audit_row w.next_id actor.tenant_id (
            page_entry actor (status_action status)
              (("page_id", uuid page_id) ∷ ("status", text status) ∷ []))
          ∷ [];
    next_id = w.next_id + 1;
  };
}

attempt-returned :
    {A : Type 0} (m : Action A) (w v : World) (a : A)
    → (m w).0 ≡ ok a
    → (m w).1 ≡ v
    → (attempt (request m) >>= λ u. pure tt) w ≡ (ok tt, v)
unfolding attempt request ◌>>=◌
attempt-returned m w v a e k = rw (request, e) (rw k refl)

sync_page_index-published :
    (hashing : Hashing) (page : CmsPage) (w : World)
    → w.index_deletes ≡ true
    → page.status ≡ "published"
    → let chunks = prepare_cms_page_chunks hashing (page_text page) w.clock in
      NewIds chunks (other_rows (page_text page) w.rag_chunks)
      → sync_page_index hashing page w
        ≡ (ok tt, with_rows (other_rows (page_text page) w.rag_chunks ++ map row_of chunks) w)
unfolding sync_page_index
sync_page_index-published hashing page w deletes p new =
    let m = sync_cms_page_index hashing true (page_text page) page.status in
    let e : m w ≡ (
      ok (prepare_cms_page_chunks hashing (page_text page) w.clock),
      with_rows
          (other_rows (page_text page) w.rag_chunks
            ++ map row_of (prepare_cms_page_chunks hashing (page_text page) w.clock))
          w,
    ) =
      rw p (sync_cms_page_index-published hashing (page_text page) w deletes new) in
    attempt-returned m w _ _ (ap (λ x. x.0) e) (ap (λ x. x.1) e)

module _ (hashing : Hashing) (w : World) (page_id : ℕ) (page : CmsPage) (actor : CmsActor)
    (known : find_row (λ p. p.id == page_id) w.cms_pages ≡ some page)
    (own : (page.tenant_id == actor.tenant_id) ≡ true) where
  found_then :
      (status : String)
      → find_row
          (λ p. p.id == page_id)
          (update_where (λ p. p.id == page_id) (with_status status) w.cms_pages)
        ≡ some (with_status status page)
  found_then status =
      find_row-update_where (λ (p : CmsPage). p.id == page_id) (with_status status) w.cms_pages page
        (λ y. refl) known

  -- Setting the status of a page of the actor's tenant by a valid body succeeds whatever becomes of
  -- the index: the page is returned and stored with the status, and one entry is added to the audit
  -- log, which says whether it was published.
  pub set_page_status-stands :
      (status : String) (body : List (String × ArgValue))
      → validated_status body ≡ some status
      → let (r, v) = set_page_status hashing page_id body actor w in
        (r ≡ ok (to_payload (with_status status page)))
        × (find_row (λ p. p.id == page_id) v.cms_pages ≡ some (with_status status page))
        × (v.audit_logs
            ≡ w.audit_logs
              ++ audit_row w.next_id actor.tenant_id (
                  page_entry actor
                    (status_action status)
                    (("page_id", uuid page_id) ∷ ("status", text status) ∷ []))
                ∷ [])
  unfolding set_page_status set_status get write_page add_audit_log uuid4 ◌>>=◌
  set_page_status-stands status body valid =
      let (rows, e) =
        sync_page_index-stands hashing (with_status status page)
          (status_written page_id status actor w) in
      rw (valid, known, own) (rw e (refl, found_then status, refl))

  -- Publishing a page of the actor's tenant, where the new chunk ids are fresh and rows of the index
  -- can be deleted, makes the page's rows of the index those of the chunks that its text is cut into, in
  -- order, and leaves those of all other pages alone.
  pub set_page_status-publishes :
      (body : List (String × ArgValue))
      → w.index_deletes ≡ true
      → validated_status body ≡ some "published"
      → let chunks = prepare_cms_page_chunks hashing (page_text page) w.clock in
        NewIds chunks (other_rows (page_text page) w.rag_chunks)
        → let v = (set_page_status hashing page_id body actor w).1 in
          (select (is_chunk_of page.tenant_id page.id) v.rag_chunks ≡ map row_of chunks)
          × (other_rows (page_text page) v.rag_chunks ≡ other_rows (page_text page) w.rag_chunks)
  unfolding set_page_status set_status get write_page add_audit_log uuid4 ◌>>=◌
  set_page_status-publishes body deletes valid new =
      let e =
        sync_page_index-published hashing (with_status "published" page)
          (status_written page_id "published" actor w) deletes refl new in
      rw (valid, known, own) (rw e (replaced_rows hashing (page_text page) w.clock w.rag_chunks))
