-- ===== src/Rag/Ingest.antt =====
-- app/rag/ingest.py: the chunks of a CMS page, and their rows in `rag_chunks`. SHA-256 and
-- `uuid.uuid5` are parameters (`Hashing`). The embedding, which no query reads, is left out.
pub mod Index
use multi_tenant_ai_chatbot.Prelude.{
  ℕ, suc, String, Bool, ◌&&◌, ◌||◌, not, Option, List, [], ◌∷◌, ◌++◌, any, select, ◌==◌, str_eq,
  if◌then◌else◌,
}
use multi_tenant_ai_chatbot.Prelude.Text.{strip}
use multi_tenant_ai_chatbot.Prelude.Words.{normalized}
use multi_tenant_ai_chatbot.Db.Rows.{CmsPage, RagChunk}
use multi_tenant_ai_chatbot.World.{
  World, Action, db_error, pure, gets, modify_db, raise_if, ◌>>=◌, ◌>>◌,
}
use multi_tenant_ai_chatbot.Rag.Chunking.{default_chunk_size, default_chunk_overlap, chunk_text}

-- `_sha256`, and `uuid5` of the name that `_stable_chunk_uuid` forms
pub record Hashing : Type 0 where
  pub sha256 : String → String
  pub uuid5 : (tenant_id page_id chunk_index : ℕ) (sha256 : String) → ℕ

pub record PreparedChunk : Type 0 where
  pub chunk_id : ℕ
  pub tenant_id : ℕ
  pub page_id : ℕ
  pub chunk_index : ℕ
  pub text : String
  pub source_title : String
  pub source_type : String
  pub content_sha256 : String
  pub created_at : ℕ
  pub source_url : Option String

-- the arguments that name a page and its text
pub record PageText : Type 0 where
  pub tenant_id : ℕ
  pub page_id : ℕ
  pub text : String
  pub source_title : String
  pub source_url : Option String

-- `source_title.strip() or "CMS content"`
abbrev pub safe_title : String → String
safe_title title =
    let stripped = strip title in if str_eq stripped "" then "CMS content" else stripped

-- `_stable_chunk_uuid`
abbrev pub stable_chunk_uuid : Hashing → (tenant_id page_id chunk_index : ℕ) (text : String) → ℕ
stable_chunk_uuid hashing tenant_id page_id chunk_index text =
    hashing.uuid5 tenant_id page_id chunk_index (hashing.sha256 text)

module _ (hashing : Hashing) (page : PageText) (created_at : ℕ) where
  abbrev pub prepared_chunk : (index : ℕ) (chunk : String) → PreparedChunk
  prepared_chunk index chunk = record {
    chunk_id = stable_chunk_uuid hashing page.tenant_id page.page_id index chunk;
    tenant_id = page.tenant_id;
    page_id = page.page_id;
    chunk_index = index;
    text = chunk;
    source_title = safe_title page.source_title;
    source_type = "cms_page";
    content_sha256 = hashing.sha256 chunk;
    created_at = created_at;
    source_url = page.source_url;
  }

  -- the list that `prepare_cms_page_chunks` builds, from `index` on
  abbrev pub prepared : (index : ℕ) → List String → List PreparedChunk
  prepared index [] = []
  prepared index (chunk ∷ chunks) = prepared_chunk index chunk ∷ prepared (suc index) chunks

  unfoldable pub prepare_cms_page_chunks : List PreparedChunk
  prepare_cms_page_chunks =
      let cleaned_text = normalized page.text in
      if str_eq cleaned_text ""
      then []
      else prepared 0 (chunk_text cleaned_text default_chunk_size default_chunk_overlap)

-- `_INSERT_CHUNK_SQL`: the row of a chunk; the keys of its metadata are fields
abbrev pub row_of : PreparedChunk → RagChunk
row_of c = record {
  id = c.chunk_id;
  tenant_id = c.tenant_id;
  page_id = c.page_id;
  chunk_index = c.chunk_index;
  text = c.text;
  source_title = c.source_title;
  source_type = c.source_type;
  source_url = c.source_url;
  content_sha256 = c.content_sha256;
}

-- a row that is in the way of a chunk: the primary key and `uq_rag_chunks_tenant_page_idx`
abbrev pub is_taken : PreparedChunk → RagChunk → Bool
is_taken c r =
    r.id == c.chunk_id
    || (r.tenant_id == c.tenant_id && r.page_id == c.page_id && r.chunk_index == c.chunk_index)

unfoldable pub insert_chunk : PreparedChunk → Action (Unit {0})
insert_chunk chunk = do
  taken ← gets (λ w. any (is_taken chunk) w.rag_chunks)
  raise_if taken db_error
  modify_db (λ db. record db { rag_chunks = db.rag_chunks ++ row_of chunk ∷ [] })

unfoldable pub insert_chunks : List PreparedChunk → Action (Unit {0})
unfolding insert_chunk
insert_chunks [] = pure tt
insert_chunks (chunk ∷ chunks) = insert_chunk chunk >> insert_chunks chunks

abbrev pub is_chunk_of : (tenant_id page_id : ℕ) → RagChunk → Bool
is_chunk_of tenant_id page_id r = r.tenant_id == tenant_id && r.page_id == page_id

unfoldable pub delete_cms_page_chunks :
    (has_session : Bool) (tenant_id page_id : ℕ) → Action (Unit {0})
delete_cms_page_chunks has_session tenant_id page_id = if not has_session then pure tt else (do
  succeeds ← gets (λ w. w.index_deletes)
  raise_if (not succeeds) db_error
  modify_db (λ db. record db {
    rag_chunks = select (λ r. not (is_chunk_of tenant_id page_id r)) db.rag_chunks;
  }))

unfoldable pub sync_cms_page_index :
    Hashing → (has_session : Bool) → PageText → (status : String) → Action (List PreparedChunk)
unfolding delete_cms_page_chunks prepare_cms_page_chunks insert_chunks
sync_cms_page_index hashing has_session page status = if not has_session then pure [] else (do
  delete_cms_page_chunks has_session page.tenant_id page.page_id
  now ← gets (λ w. w.clock)
  let chunks = prepare_cms_page_chunks hashing page now
  if not (str_eq status "published") then pure [] else (do insert_chunks chunks; pure chunks))

unfoldable pub embed_cms_page :
    Hashing → (has_session : Bool) → PageText → (status : String) → Action (List PreparedChunk)
unfolding sync_cms_page_index prepare_cms_page_chunks
embed_cms_page hashing has_session page status =
    if not has_session
    then (if not (str_eq status "published")
        then pure []
        else gets (λ w. prepare_cms_page_chunks hashing page w.clock))
    else sync_cms_page_index hashing has_session page status
