-- ===== src/Tests/Retrieval.antt =====
-- The theorems on app/rag/retriever.py, at concrete inputs.
use mathlib.Core.List.{Permᴰ}
use multi_tenant_ai_chatbot.Prelude.{
  ◌-◌, max, min, ◌≤◌, String, ◌≡◌, refl, some, List, [], ◌∷◌, ◌++◌, All, length,
}
use multi_tenant_ai_chatbot.Prelude.Text.{strip, text_length, lower, contains}
use multi_tenant_ai_chatbot.Prelude.Words.{normalized, alphanumeric_runs}
use multi_tenant_ai_chatbot.Tools.Answer.{Chunk}
use multi_tenant_ai_chatbot.Rag.Chunking.{chunks_of_cleaned, chunk_text}
use multi_tenant_ai_chatbot.Rag.Chunking.Coverage.{
  rebuilt, chunks_of_cleaned-ends, chunk_text-covers, chunk_text-fits,
}
use multi_tenant_ai_chatbot.Rag.Scoring.{expanded_query_terms}
use multi_tenant_ai_chatbot.Rag.Retriever.{max_top_k, retrieve_candidates, retrieve_chunks}
use multi_tenant_ai_chatbot.Rag.Retriever.Ranking.{IsDescending, retrieve_chunks-IsDescending}
use multi_tenant_ai_chatbot.Rag.Retriever.Ownership.{IsVisible, retrieve_chunks-IsVisible}
use multi_tenant_ai_chatbot.Tests.{page, with_pages}

abbrev long_text : String
long_text =
    "All work and no play makes Jack a dull boy. All work and no play makes Jack a dull boy. All work and no play makes Jack a dull boy."

chunks_of_cleaned-ends_example :
    (chunks : List String) × (chunks_of_cleaned long_text 100 20 ≡ some chunks)
chunks_of_cleaned-ends_example = chunks_of_cleaned-ends 100 20 long_text

chunk_text-covers_example :
    rebuilt (min 20 (max 100 100 - 1)) (chunk_text long_text 100 20) ≡ normalized long_text
chunk_text-covers_example = chunk_text-covers 100 20 long_text

chunk_text-fits_example :
    All (λ chunk. text_length chunk ≤ max 100 100) (chunk_text long_text 100 20)
chunk_text-fits_example = chunk_text-fits 100 20 long_text

retrieve_chunks-IsVisible_example :
    All
      (IsVisible 1 (page ∷ []))
      (retrieve_chunks (with_pages (page ∷ [])) 1 "When are you open?" 3)
retrieve_chunks-IsVisible_example =
    retrieve_chunks-IsVisible (with_pages (page ∷ [])) 1 "When are you open?" 3

retrieve_chunks-IsDescending_example :
    let best = retrieve_chunks (with_pages (page ∷ [])) 1 "open" 3 in
    (left_out : List Chunk) × (Permᴰ (best ++ left_out) (
        retrieve_candidates 1
          (expanded_query_terms (strip "open"))
          (strip "open")
          (with_pages (page ∷ [])))
      × IsDescending (best ++ left_out)
      × (length best ≤ max 1 (min 3 max_top_k)))
unfolding expanded_query_terms strip contains lower alphanumeric_runs
retrieve_chunks-IsDescending_example =
    retrieve_chunks-IsDescending (with_pages (page ∷ [])) 1 "open" 3 refl
