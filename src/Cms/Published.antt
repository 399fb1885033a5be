-- ===== src/Cms/Published.antt =====
-- The index of the CMS pages under the calls of app/services/cms_pages.py: what it holds is published.
use multi_tenant_ai_chatbot.Prelude.{
  ℕ, ◌<◌, String, ◌≡◌, refl, ap, Bool, true, false, not, ◌&&◌, Option, none, some, List, [], ◌∷◌,
  All, All-select, find_row, ◌==◌, str_eq, ==-refl, arith, Bool-cases, inl, inr,
}
use multi_tenant_ai_chatbot.Db.Rows.{CmsPage, RagChunk}
use multi_tenant_ai_chatbot.World.{
  World, Error, Result, ok, err, db_error, Action, pure, continue, attempt, request, ◌>>=◌,
}
use multi_tenant_ai_chatbot.Rag.Chunking.{default_chunk_size, default_chunk_overlap, chunk_text}
use multi_tenant_ai_chatbot.Prelude.Words.{normalized}
use multi_tenant_ai_chatbot.Rag.Ingest.{
  Hashing, prepared, prepare_cms_page_chunks, row_of, is_chunk_of, insert_chunks,
  sync_cms_page_index,
}
use multi_tenant_ai_chatbot.Rag.Ingest.Index.{
  with_rows, other_rows, insert_chunks-adds, delete_cms_page_chunks-deletes,
  delete_cms_page_chunks-fails,
}
use multi_tenant_ai_chatbot.Cms.{page_text, sync_page_index}

abbrev pub serves : RagChunk → Option CmsPage → Bool
serves r none = false
serves r (some p) = p.tenant_id == r.tenant_id && str_eq p.status "published"

-- the row's page is there, is of the row's tenant and is published
abbrev pub IsServed : List CmsPage → RagChunk → Type 0
IsServed pages r = serves r (find_row (λ p. p.id == r.page_id) pages) ≡ true

abbrev pub IsWellFormed : World → Type 0
IsWellFormed w = All (λ p. p.id < w.next_id) w.cms_pages × All (IsServed w.cms_pages) w.rag_chunks

-- the world with other rows in the index, all of which satisfy `P`
abbrev pub HasRows : (RagChunk → Type 0) → (v w : World) → Type 0
HasRows P v w = (rows : List RagChunk) × ((v ≡ with_rows rows w) × All P rows)

pub continue-pure :
    {A B : Type 0} (r : Result A) (b : B) (v : World) → (continue r (λ u. pure b) v).1 ≡ v
unfolding pure
continue-pure (ok a) b v = refl
continue-pure (err e) b v = refl

module _ (P : RagChunk → Type 0) where
  attempt-HasRows :
      {A : Type 0} (m : Action A) (w : World) (r : Result A)
      → (m w).0 ≡ r
      → ((x : Error) → r ≡ err x → All P w.rag_chunks)
      → HasRows P (m w).1 w
      → HasRows P (attempt (request m) w).1 w
  unfolding attempt request
  attempt-HasRows m w (ok a) e h k = rw (request, e) k
  attempt-HasRows m w (err x) e h k = rw (request, e) (w.rag_chunks, (rw k.1.0 refl, h x refl))

module _ (P : RagChunk → Type 0) (hashing : Hashing) (page : CmsPage) (w : World)
    (others : All (λ r. is_chunk_of page.tenant_id page.id r ≡ false → P r) w.rag_chunks)
    (whole : str_eq page.status "published" ≡ true → All P w.rag_chunks)
    (unchanged : w.index_deletes ≡ false → All P w.rag_chunks)
    (new : str_eq page.status "published" ≡ true
      → All (λ c. P (row_of c)) (prepare_cms_page_chunks hashing (page_text page) w.clock)) where
  kept : All P (other_rows (page_text page) w.rag_chunks)
  kept =
      All-select P (λ r. not (is_chunk_of page.tenant_id page.id r)) w.rag_chunks
        (λ r b h. h (ground arith)) others

  index-HasRows :
      w.index_deletes ≡ true
      → str_eq page.status "published" ≡ true
      → HasRows P (sync_cms_page_index hashing true (page_text page) page.status w).1 w
  unfolding sync_cms_page_index ◌>>=◌
  index-HasRows deletes b =
      let w1 = with_rows (other_rows (page_text page) w.rag_chunks) w in
      let chunks = prepare_cms_page_chunks hashing (page_text page) w.clock in
      let added = insert_chunks-adds P chunks w1 kept (new b) in
      rw (delete_cms_page_chunks-deletes (page_text page) w deletes, b)
        (rw (continue-pure (insert_chunks chunks w1).0 chunks (insert_chunks chunks w1).1) added)

  sync_cms_page_index-fails :
      w.index_deletes ≡ false
      → sync_cms_page_index hashing true (page_text page) page.status w ≡ (err db_error, w)
  unfolding sync_cms_page_index ◌>>=◌
  sync_cms_page_index-fails fails = rw (delete_cms_page_chunks-fails (page_text page) w fails) refl

  sync_cms_page_index-clears :
      w.index_deletes ≡ true
      → str_eq page.status "published" ≡ false
      → sync_cms_page_index hashing true (page_text page) page.status w
        ≡ (ok [], with_rows (other_rows (page_text page) w.rag_chunks) w)
  unfolding sync_cms_page_index ◌>>=◌
  sync_cms_page_index-clears deletes b =
      rw (delete_cms_page_chunks-deletes (page_text page) w deletes, b) refl

  attempted-HasRows :
      let m = sync_cms_page_index hashing true (page_text page) page.status in
      HasRows P (attempt (request m) w).1 w
  attempted-HasRows =
      let m = sync_cms_page_index hashing true (page_text page) page.status in
      elim (Bool-cases w.index_deletes) [
        | inl deletes ↦ elim (Bool-cases (str_eq page.status "published")) [
          | inl b ↦ attempt-HasRows P m w (m w).0 refl (λ x e. whole b) (index-HasRows deletes b)
          | inr b ↦
              let e = sync_cms_page_index-clears deletes b in
              attempt-HasRows P m w (ok []) (ap (λ p. p.0) e) (λ x bad. absurd cc)
                (other_rows (page_text page) w.rag_chunks, (ap (λ p. p.1) e, kept))
        ]
        | inr fails ↦
            let e = sync_cms_page_index-fails fails in
            attempt-HasRows P m w (err db_error) (ap (λ p. p.0) e) (λ x bad. unchanged fails)
              (w.rag_chunks, (ap (λ p. p.1) e, unchanged fails))
      ]

  -- Syncing a page changes only the index, and leaves only rows that satisfy `P` there, whether the
  -- sync succeeds or is rolled back.
  pub sync_page_index-HasRows : HasRows P (sync_page_index hashing page w).1 w
  unfolding sync_page_index ◌>>=◌
  sync_page_index-HasRows =
      let m = sync_cms_page_index hashing true (page_text page) page.status in
      rw (continue-pure (attempt (request m) w).0 tt (attempt (request m) w).1) attempted-HasRows

prepared-IsServed :
    (hashing : Hashing) (page : CmsPage) (pages : List CmsPage) (now index : ℕ)
    (chunks : List String)
    → find_row (λ p. p.id == page.id) pages ≡ some page
    → str_eq page.status "published" ≡ true
    → All (λ c. IsServed pages (row_of c)) (prepared hashing (page_text page) now index chunks)
prepared-IsServed hashing page pages now index [] known p = tt
prepared-IsServed hashing page pages now index (chunk ∷ chunks) known p = (
  rw (known, ==-refl page.tenant_id, p) refl,
  prepared-IsServed hashing page pages now _ chunks known p,
)

prepare-IsServed :
    (hashing : Hashing) (page : CmsPage) (pages : List CmsPage) (now : ℕ)
    → find_row (λ p. p.id == page.id) pages ≡ some page
    → str_eq page.status "published" ≡ true
    → All (λ c. IsServed pages (row_of c)) (prepare_cms_page_chunks hashing (page_text page) now)
unfolding prepare_cms_page_chunks
prepare-IsServed hashing page pages now known p =
    elim (Bool-cases (str_eq (normalized page.body) "")) [
      | inl b ↦ rw b tt
      | inr b ↦ rw b (
          prepared-IsServed hashing page pages now 0
            (chunk_text (normalized page.body) default_chunk_size default_chunk_overlap) known p)
    ]

pub sync_page_index-IsServed :
    (hashing : Hashing) (page : CmsPage) (w : World)
    → find_row (λ p. p.id == page.id) w.cms_pages ≡ some page
    → All (λ r. is_chunk_of page.tenant_id page.id r ≡ false → IsServed w.cms_pages r) w.rag_chunks
    → (str_eq page.status "published" ≡ true → All (IsServed w.cms_pages) w.rag_chunks)
    → (w.index_deletes ≡ false → All (IsServed w.cms_pages) w.rag_chunks)
    → HasRows (IsServed w.cms_pages) (sync_page_index hashing page w).1 w
sync_page_index-IsServed hashing page w known others whole unchanged =
    sync_page_index-HasRows (IsServed w.cms_pages) hashing page w others whole unchanged
      (λ b. prepare-IsServed hashing page w.cms_pages w.clock known b)
