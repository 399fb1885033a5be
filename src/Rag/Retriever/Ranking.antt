-- ===== src/Rag/Retriever/Ranking.antt =====
-- app/rag/retriever.py: what `retrieve_chunks` returns of its candidates.
use mathlib.Core.List.{Permᴰ}
use mathlib.Core.List.Permᴰ
use multi_tenant_ai_chatbot.Prelude.{
  length-take-le, insert_by, sort_by, ℕ, suc, zero, ◌≤◌, min, max, String, ◌≡◌, refl, ap, Bool,
  false, List, [], ◌∷◌, ◌++◌, All, length, take, drop, leb, str_eq, arith, Bool-cases, inl, inr,
  ◌||◌,
}
use multi_tenant_ai_chatbot.Prelude.Text.{strip}
use multi_tenant_ai_chatbot.World.{World}
use multi_tenant_ai_chatbot.Tools.Answer.{Chunk}
use multi_tenant_ai_chatbot.Rag.Scoring.{expanded_query_terms}
use multi_tenant_ai_chatbot.Rag.Retriever.{
  is_better, max_top_k, retrieve_candidates, retrieve_chunks,
}

module _ {A : Type 0} (before : A → A → Bool) where
  insert_by-Permᴰ : (x : A) (ys : List A) → Permᴰ (insert_by before x ys) (x ∷ ys)
  insert_by-Permᴰ x [] = Permᴰ.refl (x ∷ [])
  insert_by-Permᴰ x (y ∷ ys) = elim (Bool-cases (before y x)) [
    | inl b ↦ rw b (Permᴰ.trans (Permᴰ.cons refl (insert_by-Permᴰ x ys)) (Permᴰ.swap refl refl))
    | inr b ↦ rw b (Permᴰ.refl (x ∷ y ∷ ys))
  ]

  pub sort_by-Permᴰ : (xs : List A) → Permᴰ (sort_by before xs) xs
  unfolding sort_by
  sort_by-Permᴰ [] = Permᴰ.nil
  sort_by-Permᴰ (x ∷ xs) =
      Permᴰ.trans (insert_by-Permᴰ x (sort_by before xs)) (Permᴰ.cons refl (sort_by-Permᴰ xs))

  module _ (P : A → Type 0) where
    All-insert_by : (x : A) (ys : List A) → P x → All P ys → All P (insert_by before x ys)
    All-insert_by x [] h k = (h, tt)
    All-insert_by x (y ∷ ys) h k = elim (Bool-cases (before y x)) [
      | inl b ↦ rw b (k.0, All-insert_by x ys h k.1)
      | inr b ↦ rw b (h, k)
    ]

    pub All-sort_by : (xs : List A) → All P xs → All P (sort_by before xs)
    unfolding sort_by
    All-sort_by [] h = tt
    All-sort_by (x ∷ xs) h = All-insert_by x (sort_by before xs) h.0 (All-sort_by xs h.1)

-- no later chunk has a better score
abbrev pub IsDescending : List Chunk → Type 0
IsDescending [] = Unit
IsDescending (c ∷ chunks) = All (λ d. d.score ≤ c.score) chunks × IsDescending chunks

All-le :
    (a b : ℕ) (chunks : List Chunk)
    → a ≤ b
    → All (λ d. d.score ≤ a) chunks
    → All (λ d. d.score ≤ b) chunks
All-le a b [] h k = tt
All-le a b (c ∷ chunks) h k = (omega (arith, k.0), All-le a b chunks h k.1)

insert_by-IsDescending :
    (x : Chunk) (ys : List Chunk) → IsDescending ys → IsDescending (insert_by is_better x ys)
insert_by-IsDescending x [] h = (tt, tt)
insert_by-IsDescending x (y ∷ ys) h = elim (Bool-cases (is_better y x)) [
  | inl b ↦
      let below : x.score ≤ y.score = ground arith in
      rw b (
        All-insert_by is_better (λ d. d.score ≤ y.score) x ys below h.0,
        insert_by-IsDescending x ys h.1,
      )
  | inr b ↦
      let below : y.score ≤ x.score = ground arith in
      rw b ((below, All-le y.score x.score ys below h.0), h)
]

sort_by-IsDescending : (xs : List Chunk) → IsDescending (sort_by is_better xs)
unfolding sort_by
sort_by-IsDescending [] = tt
sort_by-IsDescending (x ∷ xs) =
    insert_by-IsDescending x (sort_by is_better xs) (sort_by-IsDescending xs)

take-append-drop : {A : Type 0} (n : ℕ) (xs : List A) → take n xs ++ drop n xs ≡ xs
take-append-drop zero xs = refl
take-append-drop (suc n) [] = refl
take-append-drop (suc n) (x ∷ xs) = ap (λ r. x ∷ r) (take-append-drop n xs)

-- A query with terms returns at most `top_k` chunks, eight and at least one as its bounds, the best
-- first; with the ones left out behind them they are all the candidates, each once, and none of
-- those is better than any that is returned.
pub retrieve_chunks-IsDescending :
    (w : World) (tenant_id : ℕ) (query : String) (top_k : ℕ)
    → (str_eq (strip query) "" || leb (length (expanded_query_terms (strip query))) 0) ≡ false
    → let best = retrieve_chunks w tenant_id query top_k in
      (left_out : List Chunk) × (Permᴰ
          (best ++ left_out)
          (retrieve_candidates tenant_id (expanded_query_terms (strip query)) (strip query) w)
        × IsDescending (best ++ left_out)
        × (length best ≤ max 1 (min top_k max_top_k)))
unfolding retrieve_chunks
retrieve_chunks-IsDescending w t query top_k asked =
    let found = retrieve_candidates t (expanded_query_terms (strip query)) (strip query) w in
    let k = max 1 (min top_k max_top_k) in
    let whole = take-append-drop k (sort_by is_better found) in
    (
      drop k (sort_by is_better found),
      rw asked (
        rw whole (sort_by-Permᴰ is_better found),
        rw whole (sort_by-IsDescending found),
        length-take-le k (sort_by is_better found),
      ),
    )
