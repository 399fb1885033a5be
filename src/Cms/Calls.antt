-- ===== src/Cms/Calls.antt =====
-- app/services/cms_pages.py: the index under any sequence of the service's calls.
use multi_tenant_ai_chatbot.Prelude.{
  ℕ, ◌<◌, ◌+◌, String, ◌≡◌, refl, Bool, true, some, List, [], ◌∷◌, All, All-append, All-map, any,
  find_row, ◌==◌, find_row-passes, arith, Bool-cases, Option-cases, inl, inr,
}
use multi_tenant_ai_chatbot.Db.Rows.{RagChunk}
use multi_tenant_ai_chatbot.World.{World, Result, ok, err, Action, request, uuid4, ◌>>=◌}
use multi_tenant_ai_chatbot.Tenants.Repository.{add_audit_log}
use multi_tenant_ai_chatbot.Tools.Args.Calls.{ArgValue}
use multi_tenant_ai_chatbot.Rag.Ingest.{Hashing}
use multi_tenant_ai_chatbot.Cms.{
  CmsActor, sync_page_index, create_page, update_page, set_page_status, delete_page,
  validated_update, validated_status,
}
use multi_tenant_ai_chatbot.Cms.Repository.{
  NewPage, page_row, slug_taken, changed, with_status, create, get, update, set_status, soft_delete,
  write_page,
}
use multi_tenant_ai_chatbot.Cms.Published.{IsServed, IsWellFormed}
use multi_tenant_ai_chatbot.Cms.Changes.{
  changed-others, changed-IsWellFormed, ids-update_where, IsWellFormed-then_pure,
  IsWellFormed-delete_index, fresh_id, ids-grow, created-IsWellFormed, of_page,
}

module _ (hashing : Hashing) (w : World) (actor : CmsActor) (wf : IsWellFormed w) where
  create_page-IsWellFormed : (new : NewPage) → IsWellFormed (create_page hashing new actor w).1
  unfolding create_page create uuid4 ◌>>=◌
  create_page-IsWellFormed new =
      let page = page_row w.next_id actor.tenant_id new (some actor.actor_id) in
      elim (Bool-cases (any (slug_taken w.next_id actor.tenant_id new.slug) w.cms_pages)) [
        | inl taken ↦ rw taken (ids-grow w.next_id w.cms_pages wf.0, wf.1)
        | inr free ↦ rw free (
            IsWellFormed-then_pure (sync_page_index hashing page) _ _ (
              created-IsWellFormed hashing w.cms_pages page _ refl
                (fresh_id w.next_id w.cms_pages wf.0)
                (All-append (λ p. p.id < w.next_id + 1) w.cms_pages (page ∷ [])
                  (ids-grow w.next_id w.cms_pages wf.0) (omega arith, tt))
                wf.1))
      ]

  module _ (page_id : ℕ) (deletes : w.index_deletes ≡ true) where
    module _ (body : List (String × ArgValue)) where
      set_page_status-IsWellFormed : IsWellFormed (set_page_status hashing page_id body actor w).1
      unfolding set_page_status set_status get write_page add_audit_log uuid4 ◌>>=◌
      set_page_status-IsWellFormed = elim (Option-cases (validated_status body)) [
        | inl e ↦ rw e wf
        | inr (status, e) ↦ elim (Option-cases (find_row (λ p. p.id == page_id) w.cms_pages)) [
          | inl missing ↦ rw (e, missing) wf
          | inr (page, known) ↦ elim (Bool-cases (page.tenant_id == actor.tenant_id)) [
            | inl own ↦
                rw (e, known, own)
                  (IsWellFormed-then_pure (sync_page_index hashing (with_status status page)) _ _ (
                    changed-IsWellFormed w.cms_pages page_id page (with_status status) (λ y. refl)
                      (λ y. refl) known hashing _ refl
                      (ids-update_where w.next_id _ (with_status status) w.cms_pages (λ y. refl)
                        wf.0)
                      wf.1 deletes))
            | inr other ↦ rw (e, known, other) wf
          ]
        ]
      ]

      update_page-IsWellFormed : IsWellFormed (update_page hashing page_id body actor w).1
      unfolding update_page update get write_page add_audit_log uuid4 ◌>>=◌
      update_page-IsWellFormed = elim (Option-cases (validated_update body)) [
        | inl e ↦ rw e wf
        | inr (diff, e) ↦ elim (Option-cases (find_row (λ p. p.id == page_id) w.cms_pages)) [
          | inl missing ↦ rw (e, missing) wf
          | inr (page, known) ↦ elim (Bool-cases (page.tenant_id == actor.tenant_id)) [
            | inl own ↦
                elim (Bool-cases
                  (any (slug_taken page_id actor.tenant_id (changed diff page).slug) w.cms_pages)) [
                    | inl taken ↦ rw (e, known, own, taken) wf
                    | inr free ↦
                        rw (e, known, own, free)
                          (IsWellFormed-then_pure (sync_page_index hashing (changed diff page)) _ _
                            (changed-IsWellFormed w.cms_pages page_id page (changed diff)
                              (λ y. refl) (λ y. refl) known hashing _ refl
                              (ids-update_where w.next_id _ (changed diff) w.cms_pages (λ y. refl)
                                wf.0)
                              wf.1 deletes))
                  ]
            | inr other ↦ rw (e, known, other) wf
          ]
        ]
      ]

    delete_page-IsWellFormed : IsWellFormed (delete_page page_id actor w).1
    unfolding delete_page soft_delete get write_page add_audit_log uuid4 ◌>>=◌
    delete_page-IsWellFormed = elim (Option-cases (find_row (λ p. p.id == page_id) w.cms_pages)) [
      | inl missing ↦ rw missing wf
      | inr (page, known) ↦ elim (Bool-cases (page.tenant_id == actor.tenant_id)) [
        | inl own ↦
            rw (known, own)
              (rw (known, own)
                (IsWellFormed-delete_index actor.tenant_id page_id _ deletes
                  (ids-update_where w.next_id _ (with_status "archived") w.cms_pages (λ y. refl)
                    wf.0)
                  (All-map _ w.rag_chunks
                    (λ (r : RagChunk) (h : IsServed w.cms_pages r) b.
                      changed-others w.cms_pages page_id page (with_status "archived") (λ y. refl)
                        (λ y. refl) known r h
                        (of_page _ _ page r own (find_row-passes _ w.cms_pages page known) b))
                    wf.1)))
        | inr other ↦ rw (known, other) wf
      ]
    ]

request-IsWellFormed :
    {A : Type 0} (m : Action A) (w : World) (r : Result A)
    → (m w).0 ≡ r
    → IsWellFormed w
    → IsWellFormed (m w).1
    → IsWellFormed (request m w).1
unfolding request
request-IsWellFormed m w (ok a) e wf h = rw (request, e) h
request-IsWellFormed m w (err x) e wf h = rw (request, e) wf

-- a call of the service, with its arguments
pub data CmsCall : Type 0 where
  creates : (new : NewPage) (actor : CmsActor) → CmsCall
  updates sets_status : (page_id : ℕ) (body : List (String × ArgValue)) (actor : CmsActor) → CmsCall
  deletes_page : (page_id : ℕ) (actor : CmsActor) → CmsCall

-- the world after a request that makes the call
unfoldable pub called : Hashing → CmsCall → World → World
called hashing (creates new actor) w = (request (create_page hashing new actor) w).1
called hashing (updates page_id body actor) w =
    (request (update_page hashing page_id body actor) w).1
called hashing (sets_status page_id body actor) w =
    (request (set_page_status hashing page_id body actor) w).1
called hashing (deletes_page page_id actor) w = (request (delete_page page_id actor) w).1

-- calls one after the other, and for each whether rows of the index can be deleted then
unfoldable pub calls : Hashing → List (Bool × CmsCall) → World → World
unfolding called
calls hashing [] w = w
calls hashing ((deletes, c) ∷ rest) w =
    calls hashing rest (called hashing c (record w { index_deletes = deletes }))

-- a call that changes a page, which a new one does not, can delete the page's rows of the index
abbrev pub CanDelete : Bool × CmsCall → Type 0
CanDelete (deletes, creates new actor) = Unit
CanDelete (deletes, updates page_id body actor) = deletes ≡ true
CanDelete (deletes, sets_status page_id body actor) = deletes ≡ true
CanDelete (deletes, deletes_page page_id actor) = deletes ≡ true

called-IsWellFormed :
    (hashing : Hashing) (c : CmsCall) (w : World)
    → CanDelete (w.index_deletes, c)
    → IsWellFormed w
    → IsWellFormed (called hashing c w)
unfolding called
called-IsWellFormed hashing (creates new actor) w can wf =
    request-IsWellFormed (create_page hashing new actor) w _ refl wf
      (create_page-IsWellFormed hashing w actor wf new)
called-IsWellFormed hashing (updates page_id body actor) w can wf =
    request-IsWellFormed (update_page hashing page_id body actor) w _ refl wf
      (update_page-IsWellFormed hashing w actor wf page_id can body)
called-IsWellFormed hashing (sets_status page_id body actor) w can wf =
    request-IsWellFormed (set_page_status hashing page_id body actor) w _ refl wf
      (set_page_status-IsWellFormed hashing w actor wf page_id can body)
called-IsWellFormed hashing (deletes_page page_id actor) w can wf =
    request-IsWellFormed (delete_page page_id actor) w _ refl wf
      (delete_page-IsWellFormed hashing w actor wf page_id can)

-- Under any sequence of calls, by any actors, whatever the hashes are and whichever of the index's
-- insertions clash, every row of the index is of a page that its tenant has and has published, if it was
-- so before, as long as each call but the creation of a page can delete rows of the index; a creation
-- may fail to.
pub calls-IsWellFormed :
    (hashing : Hashing) (cs : List (Bool × CmsCall)) (w : World)
    → All CanDelete cs
    → IsWellFormed w
    → IsWellFormed (calls hashing cs w)
unfolding calls
calls-IsWellFormed hashing [] w can wf = wf
calls-IsWellFormed hashing ((deletes, c) ∷ cs) w can wf =
    calls-IsWellFormed hashing cs (called hashing c (record w { index_deletes = deletes })) can.1
      (called-IsWellFormed hashing c (record w { index_deletes = deletes }) can.0 wf)
