-- ===== src/Tools/Args.antt =====
-- app/agent/tools.py: the bounds, and the Pydantic schemas `RagSearchArgs`, `CaptureLeadArgs` and
-- `EscalateArgs` as tests, on typed values and on the arguments of a model's tool call.
pub mod Calls
use multi_tenant_ai_chatbot.Prelude.{
  ℕ, String, Bool, true, ◌&&◌, Option, none, some, is_some, leb, str_eq, if◌then◌else◌,
}
use multi_tenant_ai_chatbot.Prelude.Text.{strip, prefix, text_length}
use multi_tenant_ai_chatbot.Redaction.{Regex, contact}

abbrev pub max_rag_top_k : ℕ
max_rag_top_k = 10

abbrev pub max_intent_chars : ℕ
max_intent_chars = 1000

abbrev pub max_name_chars : ℕ
max_name_chars = 200

abbrev pub max_contact_chars : ℕ
max_contact_chars = 255

abbrev pub max_escalation_reason_chars : ℕ
max_escalation_reason_chars = 280

abbrev pub audit_excerpt_chars : ℕ
audit_excerpt_chars = 80

abbrev pub default_lead_cap : ℕ
default_lead_cap = 5

-- `Field(min_length=1, max_length=n)`
unfoldable pub has_length : ℕ → String → Bool
has_length n s = leb 1 (text_length s) && leb (text_length s) n

unfoldable pub valid_rag_search : String → ℕ → Bool
valid_rag_search query top_k = has_length 500 query && leb 1 top_k && leb top_k max_rag_top_k

abbrev pub optional : (String → Bool) → Option String → Bool
optional p none = true
optional p (some s) = p s

unfoldable pub valid_capture_lead : Regex → Option String → Option String → String → Bool
valid_capture_lead regex name contact_text intent =
    optional (has_length max_name_chars) name
    && optional (λ s. is_some (regex.search_for contact s)) contact_text
    && has_length max_intent_chars intent

unfoldable pub valid_escalate : String → Bool
valid_escalate = has_length max_escalation_reason_chars

-- `_trim_optional`
unfoldable pub trim_optional : Option String → ℕ → Option String
trim_optional none max_chars = none
trim_optional (some value) max_chars =
    if str_eq (strip value) "" then none else some (prefix max_chars (strip value))
