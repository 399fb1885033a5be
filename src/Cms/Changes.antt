-- ===== src/Cms/Changes.antt =====
-- app/services/cms_pages.py: the index after the change of a page.
use multi_tenant_ai_chatbot.Prelude.{
  ℕ, ◌<◌, ◌+◌, ◌≡◌, refl, sym, ◌∙◌, subst, Bool, true, false, not, none, some, List, [], ◌∷◌, ◌++◌,
  All, All-map, All-select, find_row, update_where, ◌==◌, str_eq, eq_of_==, ==-refl,
  find_row-passes, find_row-update_where, find_row-update_other, find_row-append_some,
  find_row-append_none, arith, Bool-cases, Option-cases, inl, inr,
}
use multi_tenant_ai_chatbot.Db.Rows.{CmsPage, RagChunk}
use multi_tenant_ai_chatbot.World.{World, Action, pure, request, attempt, ◌>>=◌, ◌>>◌}
use multi_tenant_ai_chatbot.Rag.Ingest.{Hashing, is_chunk_of, delete_cms_page_chunks}
use multi_tenant_ai_chatbot.Cms.{sync_page_index, delete_page_index}
use multi_tenant_ai_chatbot.Cms.Published.{
  continue-pure, serves, IsServed, IsWellFormed, sync_page_index-IsServed,
}

module _ (pages : List CmsPage) (page_id : ℕ) (page : CmsPage) (f : CmsPage → CmsPage)
    (keeps_id : (y : CmsPage) → (f y).id ≡ y.id)
    (keeps_tenant : (y : CmsPage) → (f y).tenant_id ≡ y.tenant_id)
    (known : find_row (λ p. p.id == page_id) pages ≡ some page) where
  abbrev after : List CmsPage
  after = update_where (λ p. p.id == page_id) f pages

  pub found_after : find_row (λ p. p.id == page_id) after ≡ some (f page)
  found_after =
      find_row-update_where (λ (p : CmsPage). p.id == page_id) f pages page
        (λ y. ground (arith, keeps_id y)) known

  other_IsServed :
      (r : RagChunk) → IsServed pages r → (r.page_id == page_id) ≡ false → IsServed after r
  other_IsServed r h b = elim (Option-cases (find_row (λ p. p.id == r.page_id) pages)) [
    | inl e ↦ absurd (ground (arith, e, h))
    | inr (x, e) ↦
        let still =
          find_row-update_other (λ (p : CmsPage). p.id == r.page_id) (λ p. p.id == page_id) f pages
            x (λ y. ground (arith, keeps_id y)) e in
        let mine = find_row-passes (λ (p : CmsPage). p.id == r.page_id) pages x e in
        let other : (x.id == page_id) ≡ false = ground arith in
        let here : serves r (some x) ≡ true = rw e at h in rw (still, other) here
  ]

  own_tenant :
      (r : RagChunk)
      → IsServed pages r
      → (r.page_id == page_id) ≡ true
      → page.tenant_id ≡ r.tenant_id
  own_tenant r h b =
      let e : r.page_id ≡ page_id = eq_of_== r.page_id page_id b in
      let here : serves r (some page) ≡ true = rw (e, known) at h in ground (arith, here)

  -- Changing a page keeps the rows of the others served.
  pub changed-others :
      (r : RagChunk)
      → IsServed pages r
      → is_chunk_of page.tenant_id page.id r ≡ false
      → IsServed after r
  changed-others r h b = elim (Bool-cases (r.page_id == page_id)) [
    | inl e ↦
        let own = own_tenant r h e in
        let mine = find_row-passes (λ (p : CmsPage). p.id == page_id) pages page known in
        absurd (ground (arith, own, mine))
    | inr e ↦ other_IsServed r h e
  ]

  -- Changing a page into a published one keeps all rows served.
  changed-whole :
      (r : RagChunk)
      → IsServed pages r
      → str_eq (f page).status "published" ≡ true
      → IsServed after r
  changed-whole r h p = elim (Bool-cases (r.page_id == page_id)) [
    | inl e ↦
        let own : (f page).tenant_id ≡ r.tenant_id = keeps_tenant page ∙ own_tenant r h e in
        let same : r.page_id ≡ page_id = eq_of_== r.page_id page_id e in
        rw (same, found_after, own, ==-refl r.tenant_id, p) refl
    | inr e ↦ other_IsServed r h e
  ]

  module _ (hashing : Hashing) (w : World) (same_pages : w.cms_pages ≡ after)
      (ids : All (λ p. p.id < w.next_id) w.cms_pages) (served : All (IsServed pages) w.rag_chunks)
      (deletes : w.index_deletes ≡ true) where
    -- Syncing the changed page brings the index back in order.
    pub changed-IsWellFormed : IsWellFormed (sync_page_index hashing (f page) w).1
    changed-IsWellFormed =
        let mine : page.id ≡ page_id =
          ground (arith, find_row-passes (λ (p : CmsPage). p.id == page_id) pages page known) in
        let found : find_row (λ p. p.id == (f page).id) w.cms_pages ≡ some (f page) =
          rw same_pages (
            subst (λ k. find_row (λ p. p.id == k) after ≡ some (f page))
              (sym (keeps_id page ∙ mine)) found_after) in
        let (rows, (e, h)) =
          sync_page_index-IsServed hashing (f page) w found
            (rw (keeps_id page, keeps_tenant page, same_pages)
              (All-map
                (λ (r : RagChunk). is_chunk_of page.tenant_id page.id r ≡ false → IsServed after r)
                w.rag_chunks changed-others served))
            (λ p.
              rw same_pages
                (All-map (IsServed after) w.rag_chunks (λ r g. changed-whole r g p) served))
            (λ fails. absurd cc) in
        rw e (ids, h)

pub ids-update_where :
    (n : ℕ) (q : CmsPage → Bool) (f : CmsPage → CmsPage) (pages : List CmsPage)
    → ((y : CmsPage) → (f y).id ≡ y.id)
    → All (λ p. p.id < n) pages
    → All (λ p. p.id < n + 1) (update_where q f pages)
ids-update_where n q f [] keeps h = tt
ids-update_where n q f (p ∷ pages) keeps h =
    (ground (arith, keeps p, h.0), ids-update_where n q f pages keeps h.1)

pub IsWellFormed-then_pure :
    {A B : Type 0} (m : Action A) (b : B) (w : World)
    → IsWellFormed (m w).1
    → IsWellFormed ((m >> pure b) w).1
unfolding ◌>>=◌
IsWellFormed-then_pure m b w h = rw (continue-pure (m w).0 b (m w).1) h

pub IsWellFormed-delete_index :
    (t page_id : ℕ) (w : World)
    → w.index_deletes ≡ true
    → All (λ p. p.id < w.next_id) w.cms_pages
    → All (λ r. is_chunk_of t page_id r ≡ false → IsServed w.cms_pages r) w.rag_chunks
    → IsWellFormed (delete_page_index t page_id w).1
unfolding delete_page_index delete_cms_page_chunks attempt request ◌>>=◌
IsWellFormed-delete_index t page_id w deletes ids others = rw deletes (
  ids,
  All-select (IsServed w.cms_pages) (λ r. not (is_chunk_of t page_id r)) w.rag_chunks
      (λ r b h. h (ground arith)) others,
)

pub fresh_id :
    (n : ℕ) (pages : List CmsPage)
    → All (λ p. p.id < n) pages
    → find_row (λ p. p.id == n) pages ≡ none
fresh_id n [] h = refl
fresh_id n (p ∷ pages) h = ground (arith, h.0, fresh_id n pages h.1)

grown-IsServed :
    (pages : List CmsPage) (page : CmsPage) (r : RagChunk)
    → IsServed pages r
    → IsServed (pages ++ page ∷ []) r
grown-IsServed pages page r h = elim (Option-cases (find_row (λ p. p.id == r.page_id) pages)) [
  | inl e ↦ absurd (ground (arith, e, h))
  | inr (x, e) ↦
      let here : serves r (some x) ≡ true = rw e at h in
      rw (find_row-append_some (λ (p : CmsPage). p.id == r.page_id) pages (page ∷ []) x e) here
]

pub created-IsWellFormed :
    (hashing : Hashing) (pages : List CmsPage) (page : CmsPage) (w : World)
    → w.cms_pages ≡ pages ++ page ∷ []
    → find_row (λ p. p.id == page.id) pages ≡ none
    → All (λ p. p.id < w.next_id) (pages ++ page ∷ [])
    → All (IsServed pages) w.rag_chunks
    → IsWellFormed (sync_page_index hashing page w).1
created-IsWellFormed hashing pages page w same fresh ids served =
    let grown =
      All-map (IsServed (pages ++ page ∷ [])) w.rag_chunks (grown-IsServed pages page) served in
    let (rows, (e, h)) =
      sync_page_index-IsServed hashing page w
        (rw same (
          find_row-append_none (λ (p : CmsPage). p.id == page.id) pages page fresh
            (==-refl page.id)))
        (rw same (
          All-map
            (λ (r : RagChunk).
              is_chunk_of page.tenant_id page.id r ≡ false → IsServed (pages ++ page ∷ []) r)
            w.rag_chunks (λ r g b. g) grown))
        (λ p. rw same grown) (λ fails. rw same grown) in
    rw e (rw same ids, h)

pub of_page :
    (t page_id : ℕ) (page : CmsPage) (r : RagChunk)
    → (page.tenant_id == t) ≡ true
    → (page.id == page_id) ≡ true
    → is_chunk_of t page_id r ≡ false
    → is_chunk_of page.tenant_id page.id r ≡ false
of_page t page_id page r own mine b = ground arith

pub ids-grow :
    (n : ℕ) (pages : List CmsPage) → All (λ p. p.id < n) pages → All (λ p. p.id < n + 1) pages
ids-grow n pages h = All-map (λ p. p.id < n + 1) pages (λ p k. omega (arith, k)) h
