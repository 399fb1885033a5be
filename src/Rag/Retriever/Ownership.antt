-- ===== src/Rag/Retriever/Ownership.antt =====
-- app/rag/retriever.py: whose chunks `retrieve_chunks` returns.
use multi_tenant_ai_chatbot.Prelude.{
  sort_by, ℕ, suc, String, ◌≡◌, refl, Bool, true, Option, none, some, List, [], ◌∷◌, All,
  All-append, All-take, any, select, find_row, ◌==◌, ==-refl, eq_of_==, str_eq, leb, length, arith,
  Bool-cases, inl, inr, ◌||◌, min, max,
}
use multi_tenant_ai_chatbot.Prelude.Text.{strip}
use multi_tenant_ai_chatbot.Db.Rows.{CmsPage, RagChunk}
use multi_tenant_ai_chatbot.World.{World}
use multi_tenant_ai_chatbot.Tools.Answer.{Chunk}
use multi_tenant_ai_chatbot.Rag.Scoring.{expanded_query_terms, score_chunk}
use multi_tenant_ai_chatbot.Rag.Chunking.{default_chunk_size, default_chunk_overlap, chunk_text}
use multi_tenant_ai_chatbot.Rag.Retriever.{
  is_published_page, is_published_of, is_better, indexed_candidate, indexed_candidates,
  retrieve_indexed, page_candidates, pages_candidates, retrieve_fallback, candidates_or,
  retrieve_candidates, retrieve_chunks, max_top_k,
}
use multi_tenant_ai_chatbot.Rag.Retriever.Ranking.{All-sort_by}

-- the chunk is of the tenant, and of a page that the tenant has published
abbrev pub IsVisible : (t : ℕ) (pages : List CmsPage) → Chunk → Type 0
IsVisible t pages c = (c.tenant_id ≡ t) × (any (is_published_page t c.page_id) pages ≡ true)

any_of_find_row :
    {A : Type 0} (p : A → Bool) (xs : List A) (x : A) → find_row p xs ≡ some x → any p xs ≡ true
any_of_find_row p [] x h = cc
any_of_find_row p (y ∷ xs) x h = ground (arith, any_of_find_row p xs x)

module _ (t : ℕ) (terms : List String) (query : String) where
  module _ (pages : List CmsPage) where
    indexed_candidate-IsVisible :
        (row : RagChunk) (o : Option CmsPage)
        → row.tenant_id ≡ t
        → find_row (is_published_page t row.page_id) pages ≡ o
        → All (IsVisible t pages) (indexed_candidate t terms query row o)
    unfolding indexed_candidate
    indexed_candidate-IsVisible row none own h = tt
    indexed_candidate-IsVisible row (some page) own h =
        elim (Bool-cases (leb (score_chunk terms query row.text) 0)) [
          | inl b ↦ rw b tt
          | inr b ↦ rw b ((own, any_of_find_row (is_published_page t row.page_id) pages page h), tt)
        ]

    indexed_candidates-IsVisible :
        (rows : List RagChunk)
        → All (IsVisible t pages) (indexed_candidates t terms query pages rows)
    unfolding indexed_candidates
    indexed_candidates-IsVisible [] = tt
    indexed_candidates-IsVisible (row ∷ rows) = elim (Bool-cases (row.tenant_id == t)) [
      | inl own ↦ rw own (
          All-append (IsVisible t pages) _ _
            (indexed_candidate-IsVisible row (find_row (is_published_page t row.page_id) pages)
              (eq_of_== row.tenant_id t own) refl)
            (indexed_candidates-IsVisible rows))
      | inr other ↦ rw other (indexed_candidates-IsVisible rows)
    ]

    abbrev IsPublished : CmsPage → Type 0
    IsPublished p = any (is_published_page t p.id) pages ≡ true

    select-IsPublished :
        (some_pages : List CmsPage)
        → ((q : CmsPage → Bool) → any q some_pages ≡ true → any q pages ≡ true)
        → All IsPublished (select (is_published_of t) some_pages)
    select-IsPublished [] inside = tt
    select-IsPublished (p ∷ rest) inside =
        let later = select-IsPublished rest (λ q h. inside q (ground (arith, h))) in
        elim (Bool-cases (is_published_of t p)) [
          | inl b ↦ rw b (inside (is_published_page t p.id) (ground (arith, ==-refl p.id)), later)
          | inr b ↦ rw b later
        ]

    page_candidates-IsVisible :
        (page : CmsPage) (index : ℕ) (chunks : List String)
        → IsPublished page
        → All (IsVisible t pages) (page_candidates t terms query page index chunks)
    unfolding page_candidates
    page_candidates-IsVisible page index [] h = tt
    page_candidates-IsVisible page index (chunk ∷ chunks) h =
        let later = page_candidates-IsVisible page (suc index) chunks h in
        elim (Bool-cases (leb (score_chunk terms query chunk) 0)) [
          | inl b ↦ rw b later
          | inr b ↦ rw b ((refl, h), later)
        ]

    pages_candidates-IsVisible :
        (some_pages : List CmsPage)
        → All IsPublished some_pages
        → All (IsVisible t pages) (pages_candidates t terms query some_pages)
    unfolding pages_candidates
    pages_candidates-IsVisible [] h = tt
    pages_candidates-IsVisible (page ∷ rest) h =
        All-append (IsVisible t pages) _ _
          (page_candidates-IsVisible page 0
            (chunk_text page.body default_chunk_size default_chunk_overlap) h.0)
          (pages_candidates-IsVisible rest h.1)

  candidates_or-All :
      (P : Chunk → Type 0) (xs ys : List Chunk)
      → All P xs
      → All P ys
      → All P (candidates_or t terms query xs ys)
  candidates_or-All P [] ys h k = k
  candidates_or-All P (x ∷ xs) ys h k = h

  retrieve_candidates-IsVisible :
      (w : World) → All (IsVisible t w.cms_pages) (retrieve_candidates t terms query w)
  unfolding retrieve_candidates retrieve_indexed retrieve_fallback
  retrieve_candidates-IsVisible w =
      candidates_or-All (IsVisible t w.cms_pages) _ _
        (indexed_candidates-IsVisible w.cms_pages (sort_by _ w.rag_chunks))
        (pages_candidates-IsVisible w.cms_pages _ (
          All-sort_by _ (IsPublished w.cms_pages) _
            (select-IsPublished w.cms_pages w.cms_pages (λ q h. h))))

-- Every chunk that is returned for a tenant is the tenant's, and its page is one that the tenant has
-- published, from the index or from the pages themselves.
pub retrieve_chunks-IsVisible :
    (w : World) (t : ℕ) (query : String) (top_k : ℕ)
    → All (IsVisible t w.cms_pages) (retrieve_chunks w t query top_k)
unfolding retrieve_chunks
retrieve_chunks-IsVisible w t query top_k =
    elim (Bool-cases
      (str_eq (strip query) "" || leb (length (expanded_query_terms (strip query))) 0)) [
        | inl none_asked ↦ rw none_asked tt
        | inr asked ↦ rw asked (
            All-take (IsVisible t w.cms_pages) (max 1 (min top_k max_top_k)) _ (
              All-sort_by is_better (IsVisible t w.cms_pages) _ (
                retrieve_candidates-IsVisible t (expanded_query_terms (strip query)) (strip query)
                  w)))
      ]
