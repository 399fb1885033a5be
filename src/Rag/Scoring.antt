-- ===== src/Rag/Scoring.antt =====
-- app/rag/retriever.py: `_tokenize`, `_expanded_query_terms` and `_score_chunk`. A set of terms is a
-- list without repetition. The score is the exact quotient, rounded half to even to four places as
-- `round` does, in ten-thousandths; the rounding of the float before it is left out.
use multi_tenant_ai_chatbot.Prelude.{
  ℕ, ◌+◌, ◌*◌, ◌/◌, ◌%◌, String, Bool, ◌&&◌, ◌||◌, not, List, [], ◌∷◌, ◌++◌, any, select, length,
  ltb, leb, str_eq, if◌then◌else◌,
}
use multi_tenant_ai_chatbot.Prelude.Text.{lower, contains, text_length}
use multi_tenant_ai_chatbot.Prelude.Words.{alphanumeric_runs}

-- `terms.update(more)`: the terms that are new
abbrev pub add_terms : List String → List String → List String
add_terms terms [] = terms
add_terms terms (t ∷ more) =
    add_terms (if any (str_eq t) terms then terms else terms ++ t ∷ []) more

abbrev is_long : String → Bool
is_long token = ltb 2 (text_length token)

-- `_tokenize`
unfoldable pub tokenize : String → List String
tokenize text = add_terms [] (select is_long (alphanumeric_runs (lower text)))

abbrev mentions : String → List String → Bool
mentions lowered words = any (contains lowered) words

-- `_expanded_query_terms`
unfoldable pub expanded_query_terms : String → List String
unfolding tokenize
expanded_query_terms query =
    let lowered = lower query in
    let expand = λ (words more : List String) (terms : List String).
      if mentions lowered words then add_terms terms more else terms in
    expand ("cancellation" ∷ "cancel" ∷ []) ("cancellation" ∷ "policy" ∷ "hours" ∷ []) (
      expand ("located" ∷ "where" ∷ "location" ∷ [])
        ("located" ∷ "location" ∷ "station" ∷ "library" ∷ [])
        (expand ("open" ∷ "saturday" ∷ "hours" ∷ []) ("open" ∷ "saturday" ∷ "hours" ∷ []) (
          expand ("membership" ∷ "cost" ∷ "price" ∷ [])
            ("membership" ∷ "memberships" ∷ "month" ∷ "dollars" ∷ "pricing" ∷ [])
            (tokenize query))))

-- `n / d` rounded half to even
unfoldable pub rounded : (n d : ℕ) → ℕ
rounded n d =
    let q = n / d in
    let twice = 2 * (n % d) in if ltb d twice then q + 1 else if ltb twice d then q else q + q % 2

abbrev count_common : List String → List String → ℕ
count_common terms others = length (select (λ t. any (str_eq t) others) terms)

-- `_score_chunk`
unfoldable pub score_chunk : (query_terms : List String) (raw_query chunk : String) → ℕ
unfolding tokenize rounded
score_chunk query_terms raw_query chunk =
    let chunk_terms = tokenize chunk in
    let n = length query_terms in
    let lowered_query = lower raw_query in
    let boost =
      if not (str_eq lowered_query "") && contains (lower chunk) lowered_query then 2500 else 0 in
    if leb n 0 || leb (length chunk_terms) 0
    then 0
    else rounded (10000 * count_common query_terms chunk_terms + boost * n) n
