-- ===== src/Tools/Args/Calls.antt =====
-- The arguments of a model's tool call, as app/agent/agent.py parses them and the schemas of
-- app/agent/tools.py admit them: `RagSearchArgs(**raw_args)` and its like, whose fields are the
-- only keys allowed (`extra="forbid"`). Pydantic's reading of an integer is the parameter `read_int`.
use multi_tenant_ai_chatbot.Prelude.{
  ℕ, String, Bool, true, false, ◌&&◌, Option, none, some, List, [], ◌∷◌, any, is_some, leb, str_eq,
  if◌then◌else◌, ◌≡◌, arith, eq_iff,
}
use multi_tenant_ai_chatbot.Prelude.Dict.{lookup, text_key}
use multi_tenant_ai_chatbot.Redaction.{Regex, contact}
use multi_tenant_ai_chatbot.Tools.Args.{
  max_rag_top_k, max_intent_chars, max_name_chars, max_escalation_reason_chars, has_length,
}

-- a JSON value; `raw` is the text of one that is neither null, a natural number nor a string
pub data ArgValue : Type 0 where
  null : ArgValue
  number : ℕ → ArgValue
  text : String → ArgValue
  raw : String → ArgValue

-- what `json.loads` makes of the arguments; the code reads malformed ones as an empty object
pub data Arguments : Type 0 where
  malformed not_object : Arguments
  object : (items : List (String × ArgValue)) → Arguments

-- every key is one of the fields
unfoldable pub only_fields : List String → List (String × ArgValue) → Bool
only_fields fields [] = true
only_fields fields ((name, value) ∷ items) = any (str_eq name) fields && only_fields fields items

-- a field `str` with a test
abbrev pub required_text : (String → Bool) → Option ArgValue → Option String
required_text p (some (text s)) = if p s then some s else none
required_text p _ = none

-- a field `str | None = None` with a test: the outer `none` is a validation error
abbrev pub optional_text : (String → Bool) → Option ArgValue → Option (Option String)
optional_text p none = some none
optional_text p (some null) = some none
optional_text p (some (text s)) = if p s then some (some s) else none
optional_text p (some _) = none

abbrev top_k_in_range : Option ℕ → Option ℕ
top_k_in_range none = none
top_k_in_range (some n) = if leb 1 n && leb n max_rag_top_k then some n else none

abbrev pub top_k_or_default : (ArgValue → Option ℕ) → Option ArgValue → Option ℕ
top_k_or_default read_int none = some 5
top_k_or_default read_int (some v) = top_k_in_range (read_int v)

abbrev pub both {ℓ κ} : {A : Type ℓ} {B : Type κ} → Option A → Option B → Option (A × B)
both (some a) (some b) = some (a, b)
both _ _ = none

unfoldable pub rag_search_args :
    (ArgValue → Option ℕ) → List (String × ArgValue) → Option (String × ℕ)
rag_search_args read_int items =
    if only_fields ("query" ∷ "top_k" ∷ []) items
    then both (required_text (has_length 500) (lookup "query" items))
        (top_k_or_default read_int (lookup "top_k" items))
    else none

-- name, contact, intent
unfoldable pub capture_lead_args :
    Regex → List (String × ArgValue) → Option (Option String × (Option String × String))
capture_lead_args regex items =
    if only_fields ("name" ∷ "contact" ∷ "intent" ∷ []) items
    then both (optional_text (has_length max_name_chars) (lookup "name" items)) (
        both (optional_text (λ s. is_some (regex.search_for contact s)) (lookup "contact" items))
          (required_text (has_length max_intent_chars) (lookup "intent" items)))
    else none

unfoldable pub escalate_args : List (String × ArgValue) → Option String
escalate_args items =
    if only_fields ("reason" ∷ []) items
    then required_text (has_length max_escalation_reason_chars) (lookup "reason" items)
    else none

-- An object with a key that is not a field is not admitted.
pub only_fields-unknown :
    (fields : List String) (key : String) (value : ArgValue) (items : List (String × ArgValue))
    → any (str_eq key) fields ≡ false
    → lookup key items ≡ some value
    → only_fields fields items ≡ false
unfolding only_fields
only_fields-unknown fields key value [] h k = cc
only_fields-unknown fields key value ((name, v) ∷ items) h k =
    ground (arith, eq_iff name key, only_fields-unknown fields key value items)
