-- ===== src/Router/Safety.antt =====
-- When `route_message_decision` of app/agent/router.py takes a route that writes.
use multi_tenant_ai_chatbot.Prelude.{ℕ, ◌≤◌, String, ◌≡◌, ◌↔◌, true, false, str_eq, arith}
use multi_tenant_ai_chatbot.Prelude.Text.{strip, lower}
use multi_tenant_ai_chatbot.Router.{
  capture_lead, escalate, sales_or_contact, human_request, Classifier, no_client, unavailable,
  predicted, contains_any, spam_terms, human_terms, sales_terms, mixed_or_uncertain_terms,
  route_message_decision,
}

-- what entitles the router to a lead capture: a confident classifier, or, where there is none, a
-- sales term and no spam, human or mixed term
abbrev pub LeadIsLicensed : ℕ → String → Classifier → Type 0
LeadIsLicensed threshold lowered (predicted label confidence) =
    (label ≡ sales_or_contact) × (threshold ≤ confidence)
LeadIsLicensed threshold lowered no_client =
    (contains_any lowered sales_terms ≡ true)
    × (contains_any lowered spam_terms ≡ false)
    × (contains_any lowered human_terms ≡ false)
    × (contains_any lowered mixed_or_uncertain_terms ≡ false)
LeadIsLicensed threshold lowered unavailable = ⊥

-- what entitles it to an escalation: a confident classifier, or a human term and no spam term
abbrev pub EscalationIsLicensed : ℕ → String → Classifier → Type 0
EscalationIsLicensed threshold lowered (predicted label confidence) =
    (label ≡ human_request) × (threshold ≤ confidence)
EscalationIsLicensed threshold lowered no_client =
    (contains_any lowered human_terms ≡ true) × (contains_any lowered spam_terms ≡ false)
EscalationIsLicensed threshold lowered unavailable = ⊥

-- The router captures a lead exactly for a message that is not blank and with a licence: the
-- classifier said `sales_or_contact` with a confidence of at least the threshold, or there is no
-- classifier and the lowered text has a sales term and no spam, human or mixed term. A classifier
-- that is unavailable licenses nothing.
pub route-capture_lead :
    (threshold : ℕ) (classifier : Classifier) (message : String)
    → ((route_message_decision threshold classifier message).route ≡ capture_lead) ↔ (
        (str_eq (strip message) "" ≡ false)
        × LeadIsLicensed threshold (lower (strip message)) classifier)
unfolding route_message_decision
route-capture_lead threshold no_client message = ground arith
route-capture_lead threshold unavailable message = ground arith
route-capture_lead threshold (predicted label confidence) message = ground arith

-- The router escalates exactly for a message that is not blank and with a licence: the classifier
-- said `human_request` with a confidence of at least the threshold, or there is no classifier and
-- the lowered text has a human term and no spam term.
pub route-escalate :
    (threshold : ℕ) (classifier : Classifier) (message : String)
    → ((route_message_decision threshold classifier message).route ≡ escalate) ↔ (
        (str_eq (strip message) "" ≡ false)
        × EscalationIsLicensed threshold (lower (strip message)) classifier)
unfolding route_message_decision
route-escalate threshold no_client message = ground arith
route-escalate threshold unavailable message = ground arith
route-escalate threshold (predicted label confidence) message = ground arith
