-- ===== src/Prelude/Slices.antt =====
-- Python's slices of a text by characters.
use Prim.Native.Nat.{ℕ, zero, suc, ◌+◌, ◌-◌, ◌≤◌, min}
use Prim.Native.String.{String, [], ◌∷◌, ◌++◌}
use Prim.Native.String.count as count_clauses
use mathlib.Core.Path.{◌≡◌, refl, sym, ap, ◌∙◌}
use native.Mathlib.Omega.{arith}
use native.Mathlib.Nat.{zero-add, suc-add}
use text.Mathlib.TextLemmas.{nil-append, cons-append, append-nil}
use multi_tenant_ai_chatbot.Prelude.Text.{prefix, text_length}

-- `text[n:]`
unfoldable pub skip : ℕ → String → String
skip zero s = s
skip (suc n) [] = []
skip (suc n) (c ∷ s) = skip n s

pub text_length-skip : (n : ℕ) (s : String) → text_length (skip n s) ≡ text_length s - n
unfolding skip
text_length-skip zero s = omega arith
text_length-skip (suc n) [] = omega (arith, count_clauses.nil)
text_length-skip (suc n) (c ∷ s) = omega (arith, count_clauses.cons c s, text_length-skip n s)

pub text_length-prefix : (n : ℕ) (s : String) → text_length (prefix n s) ≡ min n (text_length s)
unfolding prefix
text_length-prefix zero s = omega (arith, count_clauses.nil)
text_length-prefix (suc n) [] = omega (arith, count_clauses.nil)
text_length-prefix (suc n) (c ∷ s) =
    omega (arith, count_clauses.cons c s, count_clauses.cons c (prefix n s), text_length-prefix n s)

-- A text is its prefix and the rest.
pub prefix-append-skip : (n : ℕ) (s : String) → prefix n s ++ skip n s ≡ s
unfolding prefix skip
prefix-append-skip zero s = nil-append s
prefix-append-skip (suc n) [] = nil-append []
prefix-append-skip (suc n) (c ∷ s) =
    cons-append c (prefix n s) (skip n s) ∙ ap (λ r. c ∷ r) (prefix-append-skip n s)

pub skip-nil : (m : ℕ) → skip m [] ≡ []
unfolding skip
skip-nil zero = refl
skip-nil (suc m) = refl

pub skip-skip : (m n : ℕ) (s : String) → skip m (skip n s) ≡ skip (n + m) s
unfolding skip
skip-skip m zero s = rw zero-add
skip-skip m (suc n) [] = skip-nil m ∙ sym (skip-nil (suc n + m))
skip-skip m (suc n) (c ∷ s) = rw suc-add (skip-skip m n s)

-- A skip that ends inside the first of two texts leaves the second.
pub skip-append : (n : ℕ) (s t : String) → n ≤ text_length s → skip n (s ++ t) ≡ skip n s ++ t
unfolding skip
skip-append zero s t h = refl
skip-append (suc n) [] t h = absurd (omega (arith, h, count_clauses.nil))
skip-append (suc n) (c ∷ s) t h =
    rw cons-append (skip-append n s t (omega (arith, h, count_clauses.cons c s)))

pub skip_all : (n : ℕ) (s : String) → text_length s ≤ n → skip n s ≡ []
unfolding skip
skip_all n [] h = skip-nil n
skip_all zero (c ∷ s) h = absurd (omega (arith, h, count_clauses.cons c s))
skip_all (suc n) (c ∷ s) h = skip_all n s (omega (arith, h, count_clauses.cons c s))

pub prefix_all : (n : ℕ) (s : String) → text_length s ≤ n → prefix n s ≡ s
prefix_all n s h =
    sym (append-nil (prefix n s))
    ∙ ap (λ r. prefix n s ++ r) (sym (skip_all n s h))
    ∙ prefix-append-skip n s
