-- ===== src/Rag/Retriever.antt =====
-- app/rag/retriever.py: `retrieve_chunks`, over the index or, where that has nothing, the published
-- pages. A failure of the query on the index, which the code takes for an empty answer, is left out.
pub mod Ranking
pub mod Ownership
use multi_tenant_ai_chatbot.Prelude.{
  ℕ, suc, min, max, String, Bool, true, false, not, ◌&&◌, ◌||◌, Option, none, some, List, [], ◌∷◌,
  ◌++◌, take, select, find_row, sort_by, length, ltb, leb, or_option, ◌==◌, str_eq, if◌then◌else◌,
}
use multi_tenant_ai_chatbot.Prelude.Text.{strip}
use multi_tenant_ai_chatbot.Db.Rows.{CmsPage, RagChunk}
use multi_tenant_ai_chatbot.World.{World}
use multi_tenant_ai_chatbot.Tools.Answer.{Chunk, ChunkId, indexed, fallback}
use multi_tenant_ai_chatbot.Rag.Chunking.{default_chunk_size, default_chunk_overlap, chunk_text}
use multi_tenant_ai_chatbot.Rag.Scoring.{expanded_query_terms, score_chunk}

-- `_MAX_TOP_K`
abbrev pub max_top_k : ℕ
max_top_k = 8

abbrev pub first_text : List String → String
first_text [] = "CMS content"
first_text (s ∷ texts) = if str_eq s "" then first_text texts else s

-- an empty address counts as none
abbrev pub some_text : Option String → Option String
some_text none = none
some_text (some s) = if str_eq s "" then none else some s

abbrev pub is_published_page : (tenant_id page_id : ℕ) → CmsPage → Bool
is_published_page tenant_id page_id p =
    p.id == page_id && p.tenant_id == tenant_id && str_eq p.status "published"

abbrev pub is_published_of : ℕ → CmsPage → Bool
is_published_of tenant_id p = p.tenant_id == tenant_id && str_eq p.status "published"

-- `page_id ASC, chunk_index ASC`
abbrev chunk_before : RagChunk → RagChunk → Bool
chunk_before a b =
    if a.page_id == b.page_id then ltb a.chunk_index b.chunk_index else ltb a.page_id b.page_id

module _ (tenant_id : ℕ) (query_terms : List String) (raw_query : String) where
  -- one row of the index joined with its published page, scored; a row without a score is left out
  unfoldable pub indexed_candidate : RagChunk → Option CmsPage → List Chunk
  indexed_candidate row none = []
  indexed_candidate row (some page) =
      let score = score_chunk query_terms raw_query row.text in
      if leb score 0
      then []
      else record {
        chunk_id = indexed row.id;
        tenant_id = row.tenant_id;
        page_id = row.page_id;
        text = row.text;
        score = score;
        source_title = first_text (row.source_title ∷ page.title ∷ []);
        source_url = some_text (or_option (some_text row.source_url) page.source_url);
      }
        ∷ []

  unfoldable pub indexed_candidates : List CmsPage → List RagChunk → List Chunk
  unfolding indexed_candidate
  indexed_candidates pages [] = []
  indexed_candidates pages (row ∷ rows) =
      let rest = indexed_candidates pages rows in
      if row.tenant_id == tenant_id
      then indexed_candidate row (find_row (is_published_page tenant_id row.page_id) pages) ++ rest
      else rest

  -- `_retrieve_indexed_candidates`
  unfoldable pub retrieve_indexed : World → List Chunk
  unfolding indexed_candidates sort_by
  retrieve_indexed w = indexed_candidates w.cms_pages (sort_by chunk_before w.rag_chunks)

  -- the chunks of one page, from `index` on
  unfoldable pub page_candidates : CmsPage → (index : ℕ) → List String → List Chunk
  page_candidates page index [] = []
  page_candidates page index (chunk ∷ chunks) =
      let rest = page_candidates page (suc index) chunks in
      let score = score_chunk query_terms raw_query chunk in
      if leb score 0
      then rest
      else record {
        chunk_id = fallback page.id index;
        tenant_id = tenant_id;
        page_id = page.id;
        text = chunk;
        score = score;
        source_title = first_text (page.title ∷ []);
        source_url = some_text page.source_url;
      }
        ∷ rest

  unfoldable pub pages_candidates : List CmsPage → List Chunk
  unfolding page_candidates
  pages_candidates [] = []
  pages_candidates (page ∷ pages) =
      page_candidates page 0 (chunk_text page.body default_chunk_size default_chunk_overlap)
      ++ pages_candidates pages

  -- `_retrieve_cms_fallback_candidates`
  unfoldable pub retrieve_fallback : World → List Chunk
  unfolding pages_candidates sort_by
  retrieve_fallback w =
      pages_candidates
        (sort_by (λ a b. ltb a.id b.id) (select (is_published_of tenant_id) w.cms_pages))

  abbrev pub candidates_or : List Chunk → List Chunk → List Chunk
  candidates_or [] others = others
  candidates_or (c ∷ candidates) others = c ∷ candidates

  unfoldable pub retrieve_candidates : World → List Chunk
  unfolding retrieve_indexed retrieve_fallback
  retrieve_candidates w = candidates_or (retrieve_indexed w) (retrieve_fallback w)

-- `sorted(candidates, key=score, reverse=True)`: the best first, equal ones in their order
abbrev pub is_better : Chunk → Chunk → Bool
is_better a b = ltb b.score a.score

unfoldable pub retrieve_chunks : World → (tenant_id : ℕ) (query : String) (top_k : ℕ) → List Chunk
unfolding retrieve_candidates sort_by
retrieve_chunks w tenant_id query top_k =
    let cleaned_query = strip query in
    let query_terms = expanded_query_terms cleaned_query in
    if str_eq cleaned_query "" || leb (length query_terms) 0
    then []
    else take (max 1 (min top_k max_top_k))
        (sort_by is_better (retrieve_candidates tenant_id query_terms cleaned_query w))
