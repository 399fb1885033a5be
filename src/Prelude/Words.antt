-- ===== src/Prelude/Words.antt =====
-- The splitting of a text into words (`str.split`), into runs of letters and digits, and the joining
-- of texts (`str.join`).
use Prim.Native.Char.{Char, code}
use Prim.Native.String.{String, ◌++◌}
use Prim.Native.String as Native
use mathlib.Core.Bool.{Bool, ◌&&◌, ◌||◌}
use mathlib.Core.List.{List, [], ◌∷◌}
use multi_tenant_ai_chatbot.Prelude.Tests.{leb, str_eq, if◌then◌else◌}
use multi_tenant_ai_chatbot.Prelude.Text.{is_space}

-- the runs of characters that pass a test; `word` is the run that the text before ends with
unfoldable pub runs : (Char → Bool) → String → String → List String
runs keep word Native.[] = if str_eq word "" then [] else word ∷ []
runs keep word (Native.◌∷◌ c s) =
    let ended = runs keep "" s in
    let longer = runs keep (word ++ Native.◌∷◌ c Native.[]) s in
    if keep c then longer else if str_eq word "" then ended else word ∷ ended

abbrev is_not_space : Char → Bool
is_not_space c = if is_space c then Bool.false else Bool.true

-- `text.split()`
unfoldable pub split : String → List String
unfolding runs is_space
split = runs is_not_space ""

abbrev is_alphanumeric : Char → Bool
is_alphanumeric c =
    let n = code c in
    (leb b'a' n && leb n b'z') || (leb b'A' n && leb n b'Z') || (leb b'0' n && leb n b'9')

-- `re.findall(r"[a-zA-Z0-9]+", text)`
unfoldable pub alphanumeric_runs : String → List String
unfolding runs
alphanumeric_runs = runs is_alphanumeric ""

-- `separator.join(parts)`
unfoldable pub join : String → List String → String
join separator [] = ""
join separator (part ∷ []) = part
join separator (part ∷ (next ∷ parts)) = part ++ separator ++ join separator (next ∷ parts)

-- `" ".join(text.split())`
unfoldable pub normalized : String → String
unfolding split join
normalized text = join " " (split text)
