-- ===== src/Prelude/Lists.antt =====
-- Lists measured by native numbers, and tables as lists of rows: selection, search and update by
-- a Boolean test on the row.
use Prim.Native.Nat.{ℕ, zero, suc, ◌+◌, ◌≤◌}
use mathlib.Core.Path.{◌≡◌, refl}
use mathlib.Core.Logic.{inl, inr}
use mathlib.Core.Bool.{Bool, true, false, ◌||◌, not}
use mathlib.Core.Option.{Option, none, some}
use mathlib.Core.List.{List, [], ◌∷◌, ◌++◌}
use native.Mathlib.Omega.{arith}
use multi_tenant_ai_chatbot.Prelude.Tests.{Bool-cases, if◌then◌else◌}

module _ {ℓ} {A : Type ℓ} where
  abbrev pub length : List A → ℕ
  length [] = 0
  length (x ∷ xs) = suc (length xs)

  abbrev pub take : ℕ → List A → List A
  take zero xs = []
  take (suc n) [] = []
  take (suc n) (x ∷ xs) = x ∷ take n xs

  abbrev pub drop : ℕ → List A → List A
  drop zero xs = xs
  drop (suc n) [] = []
  drop (suc n) (x ∷ xs) = drop n xs

  -- the rows of a table that pass a test, in order
  abbrev pub select : (A → Bool) → List A → List A
  select p [] = []
  select p (x ∷ xs) = if p x then x ∷ select p xs else select p xs

  -- the first row that passes a test
  abbrev pub find_row : (A → Bool) → List A → Option A
  find_row p [] = none
  find_row p (x ∷ xs) = if p x then some x else find_row p xs

  abbrev pub any : (A → Bool) → List A → Bool
  any p [] = false
  any p (x ∷ xs) = p x || any p xs

  -- UPDATE of the rows that pass a test
  abbrev pub update_where : (A → Bool) → (A → A) → List A → List A
  update_where p f [] = []
  update_where p f (x ∷ xs) = (if p x then f x else x) ∷ update_where p f xs

  abbrev pub All {κ} : (A → Type κ) → List A → Type κ
  All P [] = Unit
  All P (x ∷ xs) = P x × All P xs

module _ {ℓ} {A : Type ℓ} where
  pub length-append : (xs ys : List A) → length (xs ++ ys) ≡ length xs + length ys
  length-append [] ys = omega arith
  length-append (x ∷ xs) ys = omega (arith, length-append xs ys)

  pub length-select-le : (p : A → Bool) (xs : List A) → length (select p xs) ≤ length xs
  length-select-le p [] = omega arith
  length-select-le p (x ∷ xs) = ground (arith, length-select-le p xs)

  pub select-append :
      (p : A → Bool) (xs ys : List A) → select p (xs ++ ys) ≡ select p xs ++ select p ys
  select-append p [] ys = refl
  select-append p (x ∷ xs) ys = ground (arith, select-append p xs ys)

  -- A row appended that fails the test is not selected.
  pub select-append_fails :
      (p : A → Bool) (xs : List A) (y : A) → p y ≡ false → select p (xs ++ y ∷ []) ≡ select p xs
  select-append_fails p [] y h = ground arith
  select-append_fails p (x ∷ xs) y h = ground (arith, select-append_fails p xs y h)

  pub select-append_passes :
      (p : A → Bool) (xs : List A) (y : A)
      → p y ≡ true
      → select p (xs ++ y ∷ []) ≡ select p xs ++ y ∷ []
  select-append_passes p [] y h = ground arith
  select-append_passes p (x ∷ xs) y h = ground (arith, select-append_passes p xs y h)

  pub find_row-passes : (p : A → Bool) (xs : List A) (x : A) → find_row p xs ≡ some x → p x ≡ true
  find_row-passes p [] x h = cc
  find_row-passes p (y ∷ xs) x h = ground (arith, find_row-passes p xs x)

  pub find_row-append_none :
      (p : A → Bool) (xs : List A) (y : A)
      → find_row p xs ≡ none
      → p y ≡ true
      → find_row p (xs ++ y ∷ []) ≡ some y
  find_row-append_none p [] y h e = ground arith
  find_row-append_none p (x ∷ xs) y h e = ground (arith, find_row-append_none p xs y)

  pub find_row-append_some :
      (p : A → Bool) (xs ys : List A) (x : A)
      → find_row p xs ≡ some x
      → find_row p (xs ++ ys) ≡ some x
  find_row-append_some p [] ys x h = cc
  find_row-append_some p (y ∷ xs) ys x h = ground (arith, find_row-append_some p xs ys x)

  pub length-update_where :
      (p : A → Bool) (f : A → A) (xs : List A) → length (update_where p f xs) ≡ length xs
  length-update_where p f [] = refl
  length-update_where p f (x ∷ xs) = omega (arith, length-update_where p f xs)

-- An update that keeps its rows out of a selection leaves the selection alone.
pub select-update_where {ℓ} :
    {A : Type ℓ} (q p : A → Bool) (f : A → A) (xs : List A)
    → ((x : A) → p x ≡ true → (q x ≡ false) × (q (f x) ≡ false))
    → select q (update_where p f xs) ≡ select q xs
select-update_where q p f [] h = refl
select-update_where q p f (x ∷ xs) h = ground (arith, h x, select-update_where q p f xs h)

-- A second selection drops nothing of a first one that implies it.
pub select-select {ℓ} :
    {A : Type ℓ} (q p : A → Bool) (xs : List A)
    → ((x : A) → q x ≡ true → p x ≡ true)
    → select q (select p xs) ≡ select q xs
select-select q p [] h = refl
select-select q p (x ∷ xs) h = ground (arith, h x, select-select q p xs h)

module _ {ℓ} {A : Type ℓ} where
  -- Nothing is left of what was deleted.
  pub select-delete : (p : A → Bool) (xs : List A) → select p (select (λ x. not (p x)) xs) ≡ []
  select-delete p [] = refl
  select-delete p (x ∷ xs) = ground (arith, select-delete p xs)

  -- An update that keeps the test finds the updated row.
  pub find_row-update_where :
      (p : A → Bool) (f : A → A) (xs : List A) (x : A)
      → ((y : A) → p (f y) ≡ p y)
      → find_row p xs ≡ some x
      → find_row p (update_where p f xs) ≡ some (f x)
  find_row-update_where p f [] x keeps h = cc
  find_row-update_where p f (y ∷ xs) x keeps h =
      ground (arith, keeps y, find_row-update_where p f xs x keeps)

  pub any-select_none :
      (q p : A → Bool) (xs : List A) → any p xs ≡ false → any p (select q xs) ≡ false
  any-select_none q p [] h = refl
  any-select_none q p (x ∷ xs) h = ground (arith, any-select_none q p xs)

  -- An update by one test, seen through the search by another that the update keeps.
  pub find_row-update_other :
      (p q : A → Bool) (f : A → A) (xs : List A) (x : A)
      → ((y : A) → p (f y) ≡ p y)
      → find_row p xs ≡ some x
      → find_row p (update_where q f xs) ≡ some (if q x then f x else x)
  find_row-update_other p q f [] x keeps h = cc
  find_row-update_other p q f (y ∷ xs) x keeps h =
      ground (arith, keeps y, find_row-update_other p q f xs x keeps)

module _ {ℓ κ} {A : Type ℓ} (P : A → Type κ) where
  pub All-append : (xs ys : List A) → All P xs → All P ys → All P (xs ++ ys)
  All-append [] ys h k = k
  All-append (x ∷ xs) ys h k = (h.0, All-append xs ys h.1 k)

  pub All-take : (n : ℕ) (xs : List A) → All P xs → All P (take n xs)
  All-take zero xs h = tt
  All-take (suc n) [] h = tt
  All-take (suc n) (x ∷ xs) h = (h.0, All-take n xs h.1)

  -- What the rows that are kept satisfy if they satisfied another predicate before.
  pub All-select :
      {Q : A → Type κ} (p : A → Bool) (xs : List A)
      → ((x : A) → p x ≡ true → Q x → P x)
      → All Q xs
      → All P (select p xs)
  All-select p [] f h = tt
  All-select p (x ∷ xs) f h = elim (Bool-cases (p x)) [
    | inl b ↦ rw b (f x b h.0, All-select p xs f h.1)
    | inr b ↦ rw b (All-select p xs f h.1)
  ]

  pub All-map : {Q : A → Type κ} (xs : List A) → ((x : A) → Q x → P x) → All Q xs → All P xs
  All-map [] f h = tt
  All-map (x ∷ xs) f h = (f x h.0, All-map xs f h.1)

  pub All-any : (xs : List A) → ((x : A) → P x) → All P xs
  All-any [] f = tt
  All-any (x ∷ xs) f = (f x, All-any xs f)

-- a row put in its place, behind the rows that go in front of it
abbrev pub insert_by {ℓ} : {A : Type ℓ} → (A → A → Bool) → A → List A → List A
insert_by before x [] = x ∷ []
insert_by before x (y ∷ ys) = if before y x then y ∷ insert_by before x ys else x ∷ y ∷ ys

-- the rows sorted, where `before y x` says that a later row `y` goes in front of `x`
unfoldable pub sort_by {ℓ} : {A : Type ℓ} → (A → A → Bool) → List A → List A
sort_by before [] = []
sort_by before (x ∷ xs) = insert_by before x (sort_by before xs)

pub length-take-le {ℓ} : {A : Type ℓ} (n : ℕ) (xs : List A) → length (take n xs) ≤ n
length-take-le zero xs = omega arith
length-take-le (suc n) [] = omega arith
length-take-le (suc n) (x ∷ xs) = omega (arith, length-take-le n xs)
