-- ===== src/Agent/Stops.antt =====
-- app/agent/agent.py: a model that never stops calling tools is stopped.
use multi_tenant_ai_chatbot.Prelude.{ℕ, ◌+◌, ◌*◌, ◌≤◌, String, ◌≡◌, ◌⊎◌, true, some, List, length}
use multi_tenant_ai_chatbot.World.{World}
use multi_tenant_ai_chatbot.World.Returns.{Returns}
use multi_tenant_ai_chatbot.Agent.{AgentResult, cap_hit_message}
use multi_tenant_ai_chatbot.Agent.Loop.{
  LlmClient, Completion, ChatMessage, LoopState, CallsOutcome, continued, escalated_by_model,
  has_calls,
}

abbrev pub handed_over : String
handed_over = "I escalated this conversation to a human so the team can follow up."

-- the answer is the message of a cap hit, or that of the model's own escalation, and the tools called are those of at most five completions of at most `k` calls, and of at most `m`,
-- with one escalation
abbrev pub IsStopped : (k m : ℕ) → AgentResult → Type 0
IsStopped k m r =
    ((r.answer ≡ cap_hit_message) ⊎ (r.answer ≡ handed_over))
    × (length r.used_tools ≤ 5 * k + 1)
    × (length r.used_tools ≤ m * k + 1)

-- the calls of one completion go on with the same tokens, or end with the message of an escalation, and
-- note at most `u` tools
abbrev IsNoted : (u tokens : ℕ) → CallsOutcome → Type 0
IsNoted u tokens (continued s) = (length s.used_tools ≤ u) × (s.cumulative_tokens ≡ tokens)
IsNoted u tokens (escalated_by_model r) = (r.answer ≡ handed_over) × (length r.used_tools ≤ u)

-- a completion with tool calls, at most `k` of them, that costs at least `n` tokens
abbrev IsBusy : (k n : ℕ) → Completion → Type 0
IsBusy k n c = (has_calls c.tool_calls ≡ true) × (length c.tool_calls ≤ k) × (n ≤ c.total_tokens)

-- a model that answers every chat with such a completion
abbrev pub IsRelentless : (k n : ℕ) → LlmClient → Type 0
IsRelentless k n client =
    (messages : List ChatMessage) → (c : Completion) × ((client messages ≡ some c) × IsBusy k n c)

-- what has been noted in `i` iterations
abbrev IsAfter : (k n i : ℕ) → LoopState → Type 0
IsAfter k n i s = (length s.used_tools ≤ i * k) × (i * n ≤ s.cumulative_tokens)
