-- ===== src/Router.antt =====
-- app/agent/router.py: `route_message_decision` and its keyword fallback. The classifier of
-- app/infra/modelserver.py is a value, `Classifier`: no client, a failed call, or its prediction.
-- A confidence is in millionths.
pub mod Safety
use multi_tenant_ai_chatbot.Prelude.{
  ℕ, String, Bool, true, false, Option, none, some, List, [], ◌∷◌, any, ltb, str_eq, if◌then◌else◌,
}
use multi_tenant_ai_chatbot.Prelude.Text.{strip, lower, contains}

pub data Route : Type 0 where
  blocked rag_search capture_lead escalate agent : Route

pub data Label : Type 0 where
  spam faq sales_or_contact human_request ambiguous : Label

pub data Source : Type 0 where
  modelserver fallback_rules : Source

pub record RouteDecision : Type 0 where
  pub route : Route
  pub label : Label
  pub confidence : ℕ
  pub reason : String
  pub source : Source

pub data Classifier : Type 0 where
  no_client unavailable : Classifier
  predicted : Label → ℕ → Classifier

-- `_DEFAULT_CONFIDENCE_THRESHOLD`
abbrev pub default_threshold : ℕ
default_threshold = 700000

-- `_confidence_threshold`: the environment's text, and Python's `float` of a text
unfoldable pub confidence_threshold : (String → Option ℕ) → Option String → ℕ
confidence_threshold to_float none = default_threshold
confidence_threshold to_float (some raw) =
    if str_eq (strip raw) ""
    then default_threshold
    else elim (to_float raw) [ none ↦ default_threshold | some t ↦ t ]

-- `_LABEL_TO_ROUTE`
abbrev pub label_to_route : Label → Route
label_to_route spam = blocked
label_to_route faq = rag_search
label_to_route sales_or_contact = capture_lead
label_to_route human_request = escalate
label_to_route ambiguous = agent

-- `_contains_any`
unfoldable pub contains_any : String → List String → Bool
contains_any text = any (contains text)

abbrev pub spam_terms : List String
spam_terms =
    "buy now" ∷ "free money" ∷ "crypto giveaway" ∷ "casino" ∷ "viagra" ∷ "limited time offer" ∷ []

abbrev pub human_terms : List String
human_terms =
    "human" ∷ "real person" ∷ "live person" ∷ "representative" ∷ "support team" ∷ "talk to someone"
    ∷ "speak to someone" ∷ "live agent" ∷ []

abbrev pub sales_terms : List String
sales_terms =
    "price" ∷ "pricing" ∷ "quote" ∷ "contact" ∷ "demo" ∷ "sales" ∷ "call me" ∷ "email me"
    ∷ "book a meeting" ∷ []

abbrev pub mixed_or_uncertain_terms : List String
mixed_or_uncertain_terms =
    "also" ∷ "and" ∷ "but" ∷ "not sure" ∷ "maybe" ∷ "compare" ∷ "both" ∷ "while" ∷ []

abbrev decision : Route → Label → ℕ → String → Source → RouteDecision
decision route label confidence reason source = record {
  route = route;
  label = label;
  confidence = confidence;
  reason = reason;
  source = source;
}

-- `_fallback_rule_decision`
unfoldable pub fallback_rule_decision : String → RouteDecision
fallback_rule_decision message =
    let lowered = lower message in
    if contains_any lowered spam_terms
    then decision blocked spam 800000 "Fallback detected spam terms." fallback_rules
    else if contains_any lowered human_terms
    then decision escalate human_request 900000 "Fallback detected explicit human handoff request."
        fallback_rules
    else if contains_any lowered sales_terms
    then (if contains_any lowered mixed_or_uncertain_terms
        then decision agent ambiguous 550000 "Fallback detected mixed sales and multi-step wording."
            fallback_rules
        else decision capture_lead sales_or_contact 850000 "Fallback detected sales/contact intent."
            fallback_rules)
    else if contains_any lowered mixed_or_uncertain_terms
    then decision agent ambiguous 550000 "Fallback detected multi-step or uncertain wording."
        fallback_rules
    else decision rag_search faq 750000 "Fallback defaulted to FAQ/RAG path." fallback_rules

-- the branches of `route_message_decision` on a prediction
unfoldable pub predicted_decision : ℕ → Label → ℕ → RouteDecision
predicted_decision threshold spam confidence =
    decision blocked spam confidence "Classifier labelled message as spam." modelserver
predicted_decision threshold ambiguous confidence =
    decision agent ambiguous confidence "Classifier labelled message ambiguous; routing to agent."
      modelserver
predicted_decision threshold label confidence =
    if ltb confidence threshold
    then decision agent label confidence
        "Classifier confidence below threshold; failing safe to agent." modelserver
    else decision (label_to_route label) label confidence
        "Classifier selected high-confidence workflow route." modelserver

unfoldable pub classified : ℕ → String → Classifier → RouteDecision
unfolding predicted_decision fallback_rule_decision
classified threshold message no_client = fallback_rule_decision message
classified threshold message unavailable =
    decision agent ambiguous 0 "modelserver_unavailable: failing safe to agent." modelserver
classified threshold message (predicted label confidence) =
    predicted_decision threshold label confidence

unfoldable pub route_message_decision : ℕ → Classifier → String → RouteDecision
unfolding classified
route_message_decision threshold classifier message =
    let cleaned_message = strip message in
    if str_eq cleaned_message ""
    then decision blocked spam 1000000 "Empty visitor message was blocked before routing."
        fallback_rules
    else classified threshold cleaned_message classifier
