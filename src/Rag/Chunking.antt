-- ===== src/Rag/Chunking.antt =====
-- app/rag/retriever.py: `chunk_text`. Its loop runs on fuel, and `none` means that the fuel ran out;
-- one round for each character of the text is enough, since each round begins further on.
pub mod Coverage
use multi_tenant_ai_chatbot.Prelude.{
  ℕ, zero, suc, ◌+◌, ◌-◌, min, max, String, Option, none, some, List, [], ◌∷◌, or_else, ltb, leb,
  str_eq, if◌then◌else◌,
}
use multi_tenant_ai_chatbot.Prelude.Text.{prefix, text_length}
use multi_tenant_ai_chatbot.Prelude.Slices.{skip}
use multi_tenant_ai_chatbot.Prelude.Words.{normalized}

-- `_DEFAULT_CHUNK_SIZE` and `_DEFAULT_CHUNK_OVERLAP`
abbrev pub default_chunk_size : ℕ
default_chunk_size = 700

abbrev pub default_chunk_overlap : ℕ
default_chunk_overlap = 120

-- `text[start:end]`
abbrev pub slice : String → (start end : ℕ) → String
slice text start end = prefix (end - start) (skip start text)

abbrev pub cons_chunk : String → Option (List String) → Option (List String)
cons_chunk chunk none = none
cons_chunk chunk (some chunks) = some (chunk ∷ chunks)

-- the rounds of the loop from `start` on
unfoldable pub chunk_loop :
    (fuel : ℕ) (cleaned : String) (size overlap start : ℕ) → Option (List String)
chunk_loop zero cleaned size overlap start = none
chunk_loop (suc fuel) cleaned size overlap start =
    let end = start + size in
    let later = chunk_loop fuel cleaned size overlap (end - overlap) in
    if ltb start (text_length cleaned)
    then (if leb (text_length cleaned) end
        then some (slice cleaned start end ∷ [])
        else cons_chunk (slice cleaned start end) later)
    else some []

abbrev pub safe_chunk_size : ℕ → ℕ
safe_chunk_size chunk_size = max 100 chunk_size

-- `max(0, …)` changes nothing of a natural number
abbrev pub safe_overlap : (chunk_size overlap : ℕ) → ℕ
safe_overlap chunk_size overlap = min overlap (safe_chunk_size chunk_size - 1)

-- the chunks of a text that is normalized
unfoldable pub chunks_of_cleaned :
    (cleaned : String) (chunk_size overlap : ℕ) → Option (List String)
chunks_of_cleaned cleaned chunk_size overlap =
    if str_eq cleaned ""
    then some []
    else chunk_loop (text_length cleaned + 1) cleaned (safe_chunk_size chunk_size)
        (safe_overlap chunk_size overlap) 0

unfoldable pub chunk_text : (text : String) (chunk_size overlap : ℕ) → List String
unfolding chunks_of_cleaned
chunk_text text chunk_size overlap =
    or_else (chunks_of_cleaned (normalized text) chunk_size overlap) []
