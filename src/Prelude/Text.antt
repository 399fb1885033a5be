-- ===== src/Prelude/Text.antt =====
-- Python's string operations, over texts as lists of characters. `str.lower` is modelled on the
-- ASCII letters: any other character is kept.
use Prim.Native.Nat.{ℕ, zero, suc, ◌+◌, ◌-◌, ◌≤◌}
use Prim.Native.Char.{Char, code}
use Prim.Native.String.{String, [], ◌∷◌, char_at, count}
use Prim.Native.String.count as count_clauses
use mathlib.Core.Bool.{Bool, true, false, ◌&&◌, ◌||◌}
use mathlib.Core.Option.{none, some}
use native.Mathlib.Omega.{arith}
use text.Mathlib.Text.{find?}
use multi_tenant_ai_chatbot.Prelude.Tests.{leb, ◌==◌, str_eq, if◌then◌else◌}

-- `str.isspace` of one character
unfoldable pub is_space : Char → Bool
is_space c =
    let n = code c in
    (leb 9 n && leb n 13)
    || (leb 28 n && leb n 32)
    || n == 133
    || n == 160
    || n == 5760
    || (leb 8192 n && leb n 8202)
    || n == 8232
    || n == 8233
    || n == 8239
    || n == 8287
    || n == 12288

unfoldable pub lstrip : String → String
unfolding is_space
lstrip [] = []
lstrip (c ∷ s) = let rest = lstrip s in if is_space c then rest else c ∷ s

unfoldable pub rstrip : String → String
unfolding is_space
rstrip [] = []
rstrip (c ∷ s) = let r = rstrip s in if str_eq r "" && is_space c then [] else c ∷ r

-- `str.strip()`
unfoldable pub strip : String → String
unfolding lstrip rstrip
strip s = rstrip (lstrip s)

unfoldable pub lower_char : Char → Char
lower_char c =
    if leb b'A' (code c) && leb (code c) b'Z'
    then char_at "abcdefghijklmnopqrstuvwxyz" (code c - b'A')
    else c

-- `str.lower()`
unfoldable pub lower : String → String
unfolding lower_char
lower [] = []
lower (c ∷ s) = lower_char c ∷ lower s

-- `needle in text`
unfoldable pub contains : String → String → Bool
contains text needle = elim (find? text needle) [ none ↦ false | some _ ↦ true ]

-- `text[:n]`
unfoldable pub prefix : ℕ → String → String
prefix zero s = []
prefix (suc n) [] = []
prefix (suc n) (c ∷ s) = c ∷ prefix n s

-- `len(text)`
abbrev pub text_length : String → ℕ
text_length = count

pub text_length-prefix-le : (n : ℕ) (s : String) → text_length (prefix n s) ≤ n
unfolding prefix
text_length-prefix-le zero s = omega (arith, count_clauses.nil)
text_length-prefix-le (suc n) [] = omega (arith, count_clauses.nil)
text_length-prefix-le (suc n) (c ∷ s) =
    omega (arith, count_clauses.cons c (prefix n s), text_length-prefix-le n s)

-- `len(text.split())`: the flag says that the text before ends inside a word
unfoldable pub words_from : Bool → String → ℕ
unfolding is_space
words_from inside [] = 0
words_from inside (c ∷ s) =
    let outside_rest = words_from false s in
    let inside_rest = words_from true s in
    if is_space c then outside_rest else if inside then inside_rest else 1 + inside_rest

unfoldable pub word_count : String → ℕ
unfolding words_from
word_count = words_from false
