-- ===== src/Agent.antt =====
-- app/agent/agent.py: the bounded tool-calling agent, its calls of tools and the path of a cap hit.
-- The model behind `GroqAgentClient` is any function of the chat so far. The loop of the model is
-- Agent/Loop, the plan without one Agent/Plan and Agent/Deterministic.
pub mod Plan
pub mod Deterministic
pub mod Loop
pub mod Frames
pub mod CapHit
pub mod Boundary
pub mod Stops
use multi_tenant_ai_chatbot.Prelude.{
  ℕ, String, Bool, true, false, Option, none, some, List, [], ◌∷◌, ◌++◌, any, str_eq, if◌then◌else◌,
}
use multi_tenant_ai_chatbot.Db.Rows.{number, text}
use multi_tenant_ai_chatbot.World.{Action, type_error, pure, raise, ◌>>=◌, ◌>>◌}
use multi_tenant_ai_chatbot.Tools.Args.Calls.{
  ArgValue, Arguments, malformed, not_object, object, rag_search_args, capture_lead_args,
  escalate_args,
}
use multi_tenant_ai_chatbot.Tools.Answer.{Chunk}
use multi_tenant_ai_chatbot.Tools.{
  Env, ToolResult, invalid_args, escalated, tool_not_allowed, emit_audit_safe, rag_search,
  capture_lead, escalate,
}

abbrev pub max_agent_iterations : ℕ
max_agent_iterations = 5

abbrev pub max_agent_tokens_per_turn : ℕ
max_agent_tokens_per_turn = 4000

abbrev pub cap_hit_message : String
cap_hit_message =
    "I'm not able to help with that right now — I've escalated this so a human can follow up."

abbrev pub allowed_tools : List String
allowed_tools = "rag_search" ∷ "capture_lead" ∷ "escalate" ∷ []

-- `AgentResult`; its `route` is always "agent"
pub record AgentResult : Type 0 where
  pub answer : String
  pub used_tools : List String
  pub citations : List Chunk
  pub escalated : Bool

-- `result.get("status") == "escalated"`
abbrev pub is_escalated : ToolResult → Bool
is_escalated (escalated ticket_id reason deduplicated) = true
is_escalated _ = false

-- `_cap_hit_path`, by the kind of the cap: "iteration", "token" or "empty_message"
abbrev pub cap_action : String → String
cap_action kind = if str_eq kind "token" then "agent.token_cap_hit" else "agent.iteration_cap_hit"

module _ (env : Env) where
  open env use {regex, read_int, has_session}

  unfoldable pub cap_hit_path :
      ℕ
      → String
      → (kind : String) (iteration_count token_total : ℕ) → List String
      → List Chunk
      → Action AgentResult
  cap_hit_path tenant_id session_id kind iteration_count token_total used_tools citations = do
    result ← escalate env tenant_id session_id "agent_cap_hit"
    emit_audit_safe has_session tenant_id (cap_action kind) (
        ("session_id", text session_id)
        ∷ ("iteration_count", number iteration_count)
        ∷ ("token_total", number token_total)
        ∷ ("exit", text kind)
        ∷ [])
    pure (record {
      answer = cap_hit_message;
      used_tools = used_tools ++ "escalate" ∷ [];
      citations = citations;
      escalated = is_escalated result;
    })

  -- the calls of `_execute_tool` below the validation of the arguments
  abbrev pub search_with : ℕ → Option (String × ℕ) → Action ToolResult
  search_with tenant_id none = pure invalid_args
  search_with tenant_id (some (query, top_k)) = rag_search env tenant_id query top_k

  abbrev pub capture_with :
      ℕ → String → Option (Option String × (Option String × String)) → Action ToolResult
  capture_with tenant_id session_id none = pure invalid_args
  capture_with tenant_id session_id (some (name, (contact, intent))) =
      capture_lead env tenant_id session_id name contact intent

  abbrev pub escalate_with : ℕ → String → Option String → Action ToolResult
  escalate_with tenant_id session_id none = pure invalid_args
  escalate_with tenant_id session_id (some reason) = escalate env tenant_id session_id reason

  unfoldable pub execute_on : ℕ → String → String → List (String × ArgValue) → Action ToolResult
  execute_on tenant_id session_id tool_name items =
      if str_eq tool_name "rag_search"
      then search_with tenant_id (rag_search_args read_int items)
      else if str_eq tool_name "capture_lead"
      then capture_with tenant_id session_id (capture_lead_args regex items)
      else if str_eq tool_name "escalate"
      then escalate_with tenant_id session_id (escalate_args items)
      else pure (tool_not_allowed tool_name)

  -- `_execute_tool`: `**raw_args` raises on arguments that are no object
  unfoldable pub execute_tool : ℕ → String → String → Arguments → Action ToolResult
  execute_tool tenant_id session_id tool_name malformed =
      execute_on tenant_id session_id tool_name []
  execute_tool tenant_id session_id tool_name (object items) =
      execute_on tenant_id session_id tool_name items
  execute_tool tenant_id session_id tool_name not_object =
      if any (str_eq tool_name) allowed_tools
      then raise type_error
      else pure (tool_not_allowed tool_name)
