-- ===== src/Rag/Ingest/Index.antt =====
-- app/rag/ingest.py: what `sync_cms_page_index` leaves in `rag_chunks`.
use multi_tenant_ai_chatbot.Prelude.{
  ℕ, suc, ◌<◌, String, ◌≡◌, refl, ◌∙◌, ap, true, false, not, List, [], ◌∷◌, ◌++◌, map, any, select,
  select-append, select-delete, select-select, All, All-append, All-select, All-map, All-any,
  append_assoc, append-nil, ◌==◌, str_eq, arith, Bool-cases, inl, inr, ==-refl,
}
use multi_tenant_ai_chatbot.Prelude.Words.{normalized}
use multi_tenant_ai_chatbot.Db.Rows.{RagChunk}
use multi_tenant_ai_chatbot.World.{World, ok, err, db_error, ◌>>=◌}
use multi_tenant_ai_chatbot.Rag.Chunking.{default_chunk_size, default_chunk_overlap, chunk_text}
use multi_tenant_ai_chatbot.Rag.Ingest.{
  Hashing, PageText, PreparedChunk, prepared_chunk, prepared, prepare_cms_page_chunks, row_of,
  is_taken, insert_chunk, insert_chunks, is_chunk_of, delete_cms_page_chunks, sync_cms_page_index,
}

abbrev pub with_rows : List RagChunk → World → World
with_rows rows w = record w { db = record w.db { rag_chunks = rows } }

-- the chunks can be inserted one after the other
abbrev pub Fit : List PreparedChunk → List RagChunk → Type 0
Fit [] rows = Unit
Fit (c ∷ chunks) rows = (any (is_taken c) rows ≡ false) × Fit chunks (rows ++ row_of c ∷ [])

pub insert_chunks-Fit :
    (chunks : List PreparedChunk) (w : World)
    → Fit chunks w.rag_chunks
    → insert_chunks chunks w ≡ (ok tt, with_rows (w.rag_chunks ++ map row_of chunks) w)
unfolding insert_chunks insert_chunk ◌>>=◌
insert_chunks-Fit [] w h = rw (append-nil w.rag_chunks) refl
insert_chunks-Fit (c ∷ chunks) w h = rw h.0 (
    insert_chunks-Fit chunks (with_rows (w.rag_chunks ++ row_of c ∷ []) w) h.1
    ∙ rw (append_assoc w.rag_chunks (row_of c ∷ []) (map row_of chunks)) refl)

-- Whether or not all are inserted, only rows of the index are added, and each is one of the chunks'.
pub insert_chunks-adds :
    (P : RagChunk → Type 0) (chunks : List PreparedChunk) (w : World)
    → All P w.rag_chunks
    → All (λ c. P (row_of c)) chunks
    → let v = (insert_chunks chunks w).1 in
      (rows : List RagChunk) × ((v ≡ with_rows rows w) × All P rows)
unfolding insert_chunks insert_chunk ◌>>=◌
insert_chunks-adds P [] w h k = (w.rag_chunks, (refl, h))
insert_chunks-adds P (c ∷ chunks) w h k = elim (Bool-cases (any (is_taken c) w.rag_chunks)) [
  | inl taken ↦ rw taken (w.rag_chunks, (refl, h))
  | inr free ↦ rw free (
      insert_chunks-adds P chunks (with_rows (w.rag_chunks ++ row_of c ∷ []) w)
        (All-append P w.rag_chunks (row_of c ∷ []) h (k.0, tt)) k.1)
]

-- the ids that were made are new to the rows, and differ from one another
abbrev pub NewIds : List PreparedChunk → List RagChunk → Type 0
NewIds [] rows = Unit
NewIds (c ∷ chunks) rows =
    (any (λ r. r.id == c.chunk_id) rows ≡ false) × NewIds chunks (rows ++ row_of c ∷ [])

-- the row is not of the page, or is of a chunk before `index`
abbrev IsBefore : (t p index : ℕ) → RagChunk → Type 0
IsBefore t p index r = is_chunk_of t p r ≡ true → r.chunk_index < index

not_taken :
    (c : PreparedChunk) (rows : List RagChunk)
    → All (IsBefore c.tenant_id c.page_id c.chunk_index) rows
    → any (λ r. r.id == c.chunk_id) rows ≡ false
    → any (is_taken c) rows ≡ false
not_taken c [] h new = refl
not_taken c (r ∷ rows) h new = ground (arith, h.0, not_taken c rows h.1)

module _ (hashing : Hashing) (page : PageText) (now : ℕ) where
  prepared-Fit :
      (index : ℕ) (chunks : List String) (rows : List RagChunk)
      → All (IsBefore page.tenant_id page.page_id index) rows
      → NewIds (prepared hashing page now index chunks) rows
      → Fit (prepared hashing page now index chunks) rows
  prepared-Fit index [] rows h new = tt
  prepared-Fit index (chunk ∷ chunks) rows h new =
      let c = prepared_chunk hashing page now index chunk in
      (
        not_taken c rows h new.0,
        prepared-Fit (suc index) chunks (rows ++ row_of c ∷ [])
            (All-append (IsBefore page.tenant_id page.page_id (suc index)) rows (row_of c ∷ [])
              (All-map (IsBefore page.tenant_id page.page_id (suc index)) rows
                (λ (r : RagChunk) (b : IsBefore page.tenant_id page.page_id index r) e.
                  omega (arith, b e))
                h)
              ((λ e. omega arith), tt))
            new.1,
      )

  prepare-Fit :
      (rows : List RagChunk)
      → All (IsBefore page.tenant_id page.page_id 0) rows
      → NewIds (prepare_cms_page_chunks hashing page now) rows
      → Fit (prepare_cms_page_chunks hashing page now) rows
  unfolding prepare_cms_page_chunks
  prepare-Fit rows h new = elim (Bool-cases (str_eq (normalized page.text) "")) [
    | inl b ↦ rw b tt
    | inr b ↦ rw b (
        prepared-Fit 0 (chunk_text (normalized page.text) default_chunk_size default_chunk_overlap)
          rows h (rw b at new))
  ]

-- the rows of the other pages
abbrev pub other_rows : PageText → List RagChunk → List RagChunk
other_rows page rows = select (λ r. not (is_chunk_of page.tenant_id page.page_id r)) rows

pub delete_cms_page_chunks-deletes :
    (page : PageText) (w : World)
    → w.index_deletes ≡ true
    → delete_cms_page_chunks true page.tenant_id page.page_id w
      ≡ (ok tt, with_rows (other_rows page w.rag_chunks) w)
unfolding delete_cms_page_chunks ◌>>=◌
delete_cms_page_chunks-deletes page w deletes = rw deletes refl

pub delete_cms_page_chunks-fails :
    (page : PageText) (w : World)
    → w.index_deletes ≡ false
    → delete_cms_page_chunks true page.tenant_id page.page_id w ≡ (err db_error, w)
unfolding delete_cms_page_chunks ◌>>=◌
delete_cms_page_chunks-fails page w fails = rw fails refl

-- Where rows can be deleted, syncing a published page whose new ids are fresh makes the rows of the page those of its prepared
-- chunks, in order, and leaves the other pages' rows alone.
pub sync_cms_page_index-published :
    (hashing : Hashing) (page : PageText) (w : World)
    → w.index_deletes ≡ true
    → let chunks = prepare_cms_page_chunks hashing page w.clock in
      NewIds chunks (other_rows page w.rag_chunks)
      → sync_cms_page_index hashing true page "published" w
        ≡ (ok chunks, with_rows (other_rows page w.rag_chunks ++ map row_of chunks) w)
unfolding sync_cms_page_index ◌>>=◌
sync_cms_page_index-published hashing page w deletes new =
    let chunks = prepare_cms_page_chunks hashing page w.clock in
    let before =
      All-select (IsBefore page.tenant_id page.page_id 0) {Q = λ r. Unit}
        (λ r. not (is_chunk_of page.tenant_id page.page_id r)) w.rag_chunks
        (λ r b u e. ground arith) (All-any _ w.rag_chunks (λ r. tt)) in
    rw (delete_cms_page_chunks-deletes page w deletes) (
      rw
        (insert_chunks-Fit chunks (with_rows (other_rows page w.rag_chunks) w)
          (prepare-Fit hashing page w.clock (other_rows page w.rag_chunks) before new))
        refl)

module _ (hashing : Hashing) (page : PageText) (now : ℕ) where
  abbrev IsOwn : PreparedChunk → Type 0
  IsOwn c = is_chunk_of page.tenant_id page.page_id (row_of c) ≡ true

  prepared-IsOwn :
      (index : ℕ) (chunks : List String) → All IsOwn (prepared hashing page now index chunks)
  prepared-IsOwn index [] = tt
  prepared-IsOwn index (chunk ∷ chunks) =
      (rw (==-refl page.tenant_id, ==-refl page.page_id) refl, prepared-IsOwn (suc index) chunks)

  prepare-IsOwn : All IsOwn (prepare_cms_page_chunks hashing page now)
  unfolding prepare_cms_page_chunks
  prepare-IsOwn = elim (Bool-cases (str_eq (normalized page.text) "")) [
    | inl b ↦ rw b tt
    | inr b ↦ rw b (
        prepared-IsOwn 0
          (chunk_text (normalized page.text) default_chunk_size default_chunk_overlap))
  ]

  own_rows :
      (chunks : List PreparedChunk)
      → All IsOwn chunks
      → (select (is_chunk_of page.tenant_id page.page_id) (map row_of chunks) ≡ map row_of chunks)
        × (other_rows page (map row_of chunks) ≡ [])
  own_rows [] h = (refl, refl)
  own_rows (c ∷ chunks) h =
      let (e, k) = own_rows chunks h.1 in (rw h.0 (ap (λ r. row_of c ∷ r) e), rw h.0 k)

  -- The rows of a page and of the others, after the page's were replaced.
  pub replaced_rows :
      (rows : List RagChunk)
      → let after = other_rows page rows ++ map row_of (prepare_cms_page_chunks hashing page now) in
        (select (is_chunk_of page.tenant_id page.page_id) after
          ≡ map row_of (prepare_cms_page_chunks hashing page now))
        × (other_rows page after ≡ other_rows page rows)
  replaced_rows rows =
      let own = is_chunk_of page.tenant_id page.page_id in
      let new = map row_of (prepare_cms_page_chunks hashing page now) in
      let (e, k) = own_rows (prepare_cms_page_chunks hashing page now) prepare-IsOwn in
      (
        select-append own (other_rows page rows) new ∙ rw (select-delete own rows, e) refl,
        select-append (λ r. not (own r)) (other_rows page rows) new
            ∙ rw (select-select (λ r. not (own r)) (λ r. not (own r)) rows (λ r h. h), k)
                (append-nil (other_rows page rows)),
      )
