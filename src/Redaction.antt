-- ===== src/Redaction.antt =====
-- app/infra/redaction.py: `redact_text` and `contains_sensitive_data`. Python's `re` is the
-- parameter `Regex`, at the patterns that the code compiles: those of app/infra/redaction.py, and
-- of app/agent/tools.py.
use multi_tenant_ai_chatbot.Prelude.{
  String, Bool, true, false, ◌||◌, Option, none, some, List, [], ◌∷◌, any,
}

pub data Pattern : Type 0 where
  email phone secret_key bearer_token key_value : Pattern
  contact lead_name : Pattern

pub record Regex : Type 0 where
  -- `pattern.sub(replacement, text)`
  pub sub : Pattern → String → String → String
  -- `pattern.search(text)`: the text of the match, or of its group where it has one
  pub search_for : Pattern → String → Option String

abbrev pub redaction_text : String
redaction_text = "[REDACTED]"

abbrev pub secret_patterns : List Pattern
secret_patterns = secret_key ∷ bearer_token ∷ key_value ∷ []

abbrev pub is_found : Option String → Bool
is_found none = false
is_found (some _) = true

module _ (regex : Regex) where
  open regex use {sub, search_for}

  abbrev pub sub_all : List Pattern → String → String
  sub_all [] text = text
  sub_all (p ∷ patterns) text = sub_all patterns (sub p redaction_text text)

  unfoldable pub redact_text : Option String → String
  redact_text none = ""
  redact_text (some text) =
      sub_all secret_patterns (sub phone redaction_text (sub email redaction_text text))

  unfoldable pub contains_sensitive_data : Option String → Bool
  contains_sensitive_data none = false
  contains_sensitive_data (some text) =
      is_found (search_for email text)
      || is_found (search_for phone text)
      || any (λ p. is_found (search_for p text)) secret_patterns
