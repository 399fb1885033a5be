-- ===== src/Agent/Plan.antt =====
-- app/agent/agent.py: the deterministic plan (`_plan_tools` and its tests on terms) and the token
-- estimates.
use multi_tenant_ai_chatbot.Prelude.{
  ℕ, ◌+◌, ◌-◌, max, String, Bool, ◌||◌, ◌&&◌, List, [], ◌∷◌, drop, length, any, if◌then◌else◌,
}
use multi_tenant_ai_chatbot.Prelude.Text.{lower, contains, word_count}
use multi_tenant_ai_chatbot.World.{MemoryMessage}

-- `_AgentPlan`; tools are named as the code's literals
pub record AgentPlan : Type 0 where
  pub tools : List String
  pub reason : String

-- any of the terms occurs in the message
abbrev any_term : List String → String → Bool
any_term terms lowered = any (contains lowered) terms

unfoldable pub needs_human : String → Bool
needs_human = any_term (
    "human" ∷ "real person" ∷ "live person" ∷ "representative" ∷ "manager" ∷ "support team"
    ∷ "talk to someone" ∷ "speak to someone" ∷ "live agent" ∷ [])

unfoldable pub needs_lead_capture : String → Bool
needs_lead_capture = any_term (
    "contact" ∷ "call me" ∷ "email me" ∷ "quote" ∷ "pricing" ∷ "demo" ∷ "sales" ∷ "book a meeting"
    ∷ [])

unfoldable pub needs_knowledge_lookup : String → Bool
needs_knowledge_lookup lowered =
    any_term ("what" ∷ "how" ∷ "when" ∷ "where" ∷ "why" ∷ "which" ∷ "do you" ∷ "can you" ∷ "?" ∷ [])
      lowered
    || any_term
        ("plan" ∷ "service" ∷ "services" ∷ "offer" ∷ "offers" ∷ "include" ∷ "included"
          ∷ "pricing options" ∷ "location" ∷ "located" ∷ [])
        lowered

unfoldable pub plan_tools : String → AgentPlan
plan_tools message =
    let lowered = lower message in
    let needs_lead = needs_lead_capture lowered in
    if needs_human lowered
    then record {
      tools = "escalate" ∷ [];
      reason = "Visitor explicitly requested human help or the request is out of scope.";
    }
    else if needs_knowledge_lookup lowered && needs_lead
    then record {
      tools = "rag_search" ∷ "capture_lead" ∷ [];
      reason = "Visitor asked for information and also showed follow-up/sales intent.";
    }
    else if needs_lead
    then record {
      tools = "capture_lead" ∷ [];
      reason = "Visitor showed follow-up or sales intent.";
    }
    else record { tools = "rag_search" ∷ []; reason = "Visitor asked for tenant knowledge." }

unfoldable pub rough_token_count : String → ℕ
rough_token_count text = max 1 (word_count text)

-- `memory[-n:]`
abbrev pub last {ℓ} : {A : Type ℓ} → ℕ → List A → List A
last n xs = drop (length xs - n) xs

abbrev pub sum_tokens : List MemoryMessage → ℕ
sum_tokens [] = 0
sum_tokens (item ∷ items) = rough_token_count item.content + sum_tokens items

unfoldable pub memory_token_count : List MemoryMessage → ℕ
memory_token_count memory = sum_tokens (last 6 memory)
