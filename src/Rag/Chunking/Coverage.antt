-- ===== src/Rag/Chunking/Coverage.antt =====
-- `chunk_text` of app/rag/retriever.py: its loop ends, no chunk is longer than the chunk size, and the
-- chunks cover the text, each beginning with the overlap that the one before ends with.
use Prim.Native.String.{◌++◌}
use Prim.Native.String.count as count_clauses
use multi_tenant_ai_chatbot.Prelude.{
  ℕ, zero, suc, ◌+◌, ◌-◌, ◌≤◌, ◌<◌, min, max, String, ◌≡◌, refl, sym, ap, ◌∙◌, some, List, [], ◌∷◌,
  All, ltb, leb, str_eq, arith, eq_iff, Bool-cases, inl, inr,
}
use multi_tenant_ai_chatbot.Prelude.Text.{text_length}
use multi_tenant_ai_chatbot.Prelude.Slices.{
  skip, skip-nil, skip_all, skip-skip, skip-append, text_length-skip, text_length-prefix,
  prefix-append-skip,
}
use multi_tenant_ai_chatbot.Prelude.Words.{normalized}
use multi_tenant_ai_chatbot.Rag.Chunking.{
  slice, chunk_loop, safe_chunk_size, safe_overlap, chunks_of_cleaned, chunk_text,
}

-- the chunks after the first, without what they repeat
abbrev pub without_overlap : (overlap : ℕ) → List String → String
without_overlap overlap [] = ""
without_overlap overlap (chunk ∷ chunks) = skip overlap chunk ++ without_overlap overlap chunks

-- the text that the chunks were cut from
abbrev pub rebuilt : (overlap : ℕ) → List String → String
rebuilt overlap [] = ""
rebuilt overlap (chunk ∷ chunks) = chunk ++ without_overlap overlap chunks

abbrev FirstHolds : ℕ → List String → Type 0
FirstHolds overlap [] = Unit
FirstHolds overlap (chunk ∷ chunks) = overlap ≤ text_length chunk

without_overlap-eq-skip :
    (overlap : ℕ) (chunks : List String)
    → FirstHolds overlap chunks
    → without_overlap overlap chunks ≡ skip overlap (rebuilt overlap chunks)
without_overlap-eq-skip overlap [] h = sym (skip-nil overlap)
without_overlap-eq-skip overlap (chunk ∷ chunks) h =
    sym (skip-append overlap chunk (without_overlap overlap chunks) h)

-- what the chunks from `start` on are
record Cuts (cleaned : String) (size overlap start : ℕ) (chunks : List String) : Type 0 where
  covers : rebuilt overlap chunks ≡ skip start cleaned
  small : All (λ chunk. text_length chunk ≤ size) chunks
  first : start + overlap ≤ text_length cleaned → FirstHolds overlap chunks

module _ (cleaned : String) (size overlap : ℕ) (small : overlap < size) where
  abbrev chunk_at : ℕ → String
  chunk_at start = slice cleaned start (start + size)

  length-chunk_at :
      (start : ℕ) → text_length (chunk_at start) ≡ min size (text_length cleaned - start)
  length-chunk_at start = omega (
    arith,
    text_length-prefix (start + size - start) (skip start cleaned),
    text_length-skip start cleaned,
  )

  chunk_at-append-skip :
      (start : ℕ) → chunk_at start ++ skip (start + size) cleaned ≡ skip start cleaned
  chunk_at-append-skip start =
      let width : start + size - start ≡ size = omega arith in
      rw (width, ← skip-skip size start cleaned) (prefix-append-skip size (skip start cleaned))

  Cuts-end : (start : ℕ) → text_length cleaned ≤ start → Cuts cleaned size overlap start []
  Cuts-end start h = record { covers = sym (skip_all start cleaned h); small = tt; first = λ k. tt }

  Cuts-last :
      (start : ℕ)
      → text_length cleaned ≤ start + size
      → Cuts cleaned size overlap start (chunk_at start ∷ [])
  Cuts-last start h = record {
    covers =
        ap (λ r. chunk_at start ++ r) (sym (skip_all (start + size) cleaned h))
        ∙ chunk_at-append-skip start;
    small = (omega (arith, length-chunk_at start), tt);
    first = λ k. omega (arith, k, length-chunk_at start);
  }

  Cuts-step :
      (start : ℕ) (chunks : List String)
      → start + size < text_length cleaned
      → Cuts cleaned size overlap (start + size - overlap) chunks
      → Cuts cleaned size overlap start (chunk_at start ∷ chunks)
  Cuts-step start chunks h later = record {
    covers =
        ap (λ r. chunk_at start ++ r)
          (without_overlap-eq-skip overlap chunks (later.first (omega arith))
            ∙ ap (skip overlap) later.covers
            ∙ skip-skip overlap (start + size - overlap) cleaned
            ∙ ap (λ n. skip n cleaned) (omega arith))
        ∙ chunk_at-append-skip start;
    small = (omega (arith, length-chunk_at start), later.small);
    first = λ k. omega (arith, length-chunk_at start);
  }

  -- With more fuel than characters left, the loop ends, and its chunks cover the text from `start`.
  chunk_loop-Cuts :
      (fuel start : ℕ)
      → text_length cleaned - start < fuel
      → (chunks : List String) × ((chunk_loop fuel cleaned size overlap start ≡ some chunks)
          × Cuts cleaned size overlap start chunks)
  unfolding chunk_loop
  chunk_loop-Cuts zero start h = absurd (omega arith)
  chunk_loop-Cuts (suc fuel) start h = elim (Bool-cases (ltb start (text_length cleaned))) [
    | inr past ↦ ([], (rw past, Cuts-end start (ground arith)))
    | inl before ↦ elim (Bool-cases (leb (text_length cleaned) (start + size))) [
      | inl last ↦ (chunk_at start ∷ [], (rw (before, last), Cuts-last start (ground arith)))
      | inr more ↦
          let (chunks, (found, cuts)) =
            chunk_loop-Cuts fuel (start + size - overlap) (ground arith) in
          (
            chunk_at start ∷ chunks,
            (rw (before, more, found), Cuts-step start chunks (ground arith) cuts),
          )
    ]
  ]

-- the text of a chunk loop that begins at zero
skip_none : (s : String) → skip 0 s ≡ s
unfolding skip
skip_none s = refl

module _ (chunk_size overlap : ℕ) where
  abbrev pub cut_size : ℕ
  cut_size = safe_chunk_size chunk_size

  abbrev pub cut_overlap : ℕ
  cut_overlap = safe_overlap chunk_size overlap

  empty_cut : (cleaned : String) → cleaned ≡ "" → Cuts cleaned cut_size cut_overlap 0 []
  empty_cut cleaned e =
      Cuts-end cleaned cut_size cut_overlap (omega arith) 0
        (omega (arith, count_clauses.nil, ap text_length e))

  chunks_of_cleaned-Cuts :
      (cleaned : String)
      → (chunks : List String) × ((chunks_of_cleaned cleaned chunk_size overlap ≡ some chunks)
          × Cuts cleaned cut_size cut_overlap 0 chunks)
  unfolding chunks_of_cleaned
  chunks_of_cleaned-Cuts cleaned = elim (Bool-cases (str_eq cleaned "")) [
    | inl empty ↦ ([], (rw empty, empty_cut cleaned ((eq_iff cleaned "").0 empty)))
    | inr full ↦
        let (chunks, (found, cuts)) =
          chunk_loop-Cuts cleaned cut_size cut_overlap (omega arith) (text_length cleaned + 1) 0
            (omega arith) in
        (chunks, (rw (full, found), cuts))
  ]

  -- The loop over a text always ends, on the fuel that `chunk_text` gives it.
  pub chunks_of_cleaned-ends :
      (cleaned : String)
      → (chunks : List String) × (chunks_of_cleaned cleaned chunk_size overlap ≡ some chunks)
  chunks_of_cleaned-ends cleaned =
      let (chunks, (found, cuts)) = chunks_of_cleaned-Cuts cleaned in (chunks, found)

  chunk_text-Cuts :
      (text : String)
      → Cuts (normalized text) cut_size cut_overlap 0 (chunk_text text chunk_size overlap)
  unfolding chunk_text
  chunk_text-Cuts text =
      let (chunks, (found, cuts)) = chunks_of_cleaned-Cuts (normalized text) in rw found cuts

  -- The chunks of a text, each but the first without the overlap, are together the text with its runs
  -- of white space made single spaces: nothing of it is lost, and nothing is added.
  pub chunk_text-covers :
      (text : String) → rebuilt cut_overlap (chunk_text text chunk_size overlap) ≡ normalized text
  chunk_text-covers text = (chunk_text-Cuts text).covers ∙ skip_none (normalized text)

  -- No chunk has more characters than the chunk size, or than 100 where that is less.
  pub chunk_text-fits :
      (text : String)
      → All (λ chunk. text_length chunk ≤ max 100 chunk_size) (chunk_text text chunk_size overlap)
  chunk_text-fits text = (chunk_text-Cuts text).small
