-- ===== src/Tools/Answer.antt =====
-- app/agent/tools.py: `build_rag_answer`, over the `RagChunk` dicts of app/rag/retriever.py.
use Prim.Native.String.{◌++◌}
use multi_tenant_ai_chatbot.Prelude.{
  ℕ, suc, String, Option, List, [], ◌∷◌, take, ◌==◌, str_eq, if◌then◌else◌,
}
use multi_tenant_ai_chatbot.Prelude.Words.{join}
use multi_tenant_ai_chatbot.Prelude.Text.{strip, prefix}

-- `chunk_id`: a row of the index, or `cms-{page}-{index}`
pub data ChunkId : Type 0 where
  indexed : ℕ → ChunkId
  fallback : (page_id index : ℕ) → ChunkId

-- the score is in ten-thousandths, the places that it is rounded to
pub record Chunk : Type 0 where
  pub chunk_id : ChunkId
  pub tenant_id : ℕ
  pub page_id : ℕ
  pub text : String
  pub score : ℕ
  pub source_title : String
  pub source_url : Option String

-- `str(index)` for the indices that occur, 1 to 3
abbrev index_text : ℕ → String
index_text n = if n == 1 then "1" else if n == 2 then "2" else "3"

abbrev pub source_or_default : String → String
source_or_default title = if str_eq (strip title) "" then "CMS content" else strip title

-- the numbered parts; a chunk with no text is passed over, and keeps its number
unfoldable pub answer_parts : ℕ → List Chunk → List String
answer_parts index [] = []
answer_parts index (chunk ∷ chunks) =
    let rest = answer_parts (suc index) chunks in
    let body = strip chunk.text in
    if str_eq body ""
    then rest
    else (index_text index
        ++ ". From "
        ++ source_or_default chunk.source_title
        ++ ": "
        ++ strip (prefix 450 body))
      ∷ rest

abbrev no_information : String
no_information = "I don't have this information."

abbrev intro : String → String
intro query =
    if str_eq query ""
    then "Based on the tenant's published content"
    else "Based on the tenant's published content for your question: “" ++ prefix 120 query ++ "”"

unfoldable pub build_rag_answer : String → List Chunk → String
unfolding answer_parts join
build_rag_answer query chunks = elim (answer_parts 1 (take 3 chunks)) [
  | [] ↦ no_information
  | part ∷ parts ↦ intro (strip query) ++ "\n\n" ++ join "\n\n" (part ∷ parts)
]
