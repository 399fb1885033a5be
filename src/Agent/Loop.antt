-- ===== src/Agent/Loop.antt =====
-- app/agent/agent.py: `run_agent` and `_run_llm_loop`. The model is a function of the chat so far
-- that answers or fails; `assemble_system_prompt`, which only reads, is a parameter. The iterations
-- left of `MAX_AGENT_ITERATIONS` are the recursion's fuel: the code's own bound.
use multi_tenant_ai_chatbot.Prelude.{
  ℕ, zero, suc, ◌+◌, String, Bool, true, false, ◌||◌, ◌&&◌, Option, none, some, List, [], ◌∷◌, ◌++◌,
  map, select, any, leb, str_eq, if◌then◌else◌,
}
use multi_tenant_ai_chatbot.Prelude.Text.{strip}
use multi_tenant_ai_chatbot.Db.Rows.{number, text, texts}
use multi_tenant_ai_chatbot.Redaction.{redact_text}
use multi_tenant_ai_chatbot.World.{World, MemoryMessage, Action, pure, gets, ◌>>=◌, ◌>>◌}
use multi_tenant_ai_chatbot.Tools.Args.Calls.{Arguments}
use multi_tenant_ai_chatbot.Tools.Answer.{Chunk}
use multi_tenant_ai_chatbot.Tools.{Env, ToolResult, captured, emit_audit_safe}
use multi_tenant_ai_chatbot.Agent.Plan.{last}
use multi_tenant_ai_chatbot.Agent.Deterministic.{chunks_of, run_deterministic}
use multi_tenant_ai_chatbot.Agent.{
  AgentResult, max_agent_iterations, max_agent_tokens_per_turn, is_escalated, cap_hit_path,
  execute_tool,
}

-- a tool call of the model
pub record ToolCall : Type 0 where
  pub id : String
  pub name : String
  pub arguments : Arguments

-- an entry of `messages`
pub data ChatMessage : Type 0 where
  said : (role content : String) → ChatMessage
  calls : (content : String) → List ToolCall → ChatMessage
  tool_answer : (tool_call_id name : String) → ToolResult → ChatMessage

pub record Completion : Type 0 where
  pub total_tokens : ℕ
  pub content : String
  pub tool_calls : List ToolCall

-- `client.complete(...)`: no completion where it raises
abbrev pub LlmClient : Type 0
LlmClient = List ChatMessage → Option Completion

-- the variables of the loop
pub record LoopState : Type 0 where
  pub messages : List ChatMessage
  pub used_tools : List String
  pub citations : List Chunk
  pub cumulative_tokens : ℕ
  pub captured_lead_results : List ToolResult

pub data CallsOutcome : Type 0 where
  continued : LoopState → CallsOutcome
  escalated_by_model : AgentResult → CallsOutcome

-- `captured_lead_results[-1].get("status") == "captured"`
abbrev pub last_captured : List ToolResult → Bool
last_captured [] = false
last_captured (captured lead_id has_contact ∷ []) = true
last_captured (result ∷ []) = false
last_captured (result ∷ (next ∷ results)) = last_captured (next ∷ results)

-- `_fallback_text_answer`
unfoldable pub fallback_text_answer : List ToolResult → String
fallback_text_answer results =
    if last_captured results
    then "I captured your details — the team will reach out shortly."
    else "I've recorded this conversation. The team will follow up if needed."

-- what the loop notes of one call: the tool, its citations or its lead, and its answer
unfoldable pub note_call : ToolCall → ToolResult → LoopState → LoopState
note_call call result s = record s {
  used_tools = s.used_tools ++ call.name ∷ [];
  citations =
      if str_eq call.name "rag_search" then s.citations ++ chunks_of result else s.citations;
  captured_lead_results =
      if str_eq call.name "capture_lead"
      then s.captured_lead_results ++ result ∷ []
      else s.captured_lead_results;
  messages = s.messages ++ tool_answer call.id call.name result ∷ [];
}

abbrev pub has_calls : List ToolCall → Bool
has_calls [] = false
has_calls (call ∷ _) = true

-- the completion in the state: its tokens, and its calls echoed into the history
unfoldable pub note_completion : Completion → LoopState → LoopState
note_completion c s = record s {
  cumulative_tokens = s.cumulative_tokens + c.total_tokens;
  messages = s.messages ++ calls c.content c.tool_calls ∷ [];
}

abbrev pub chat_of : MemoryMessage → ChatMessage
chat_of entry = said entry.role entry.content

abbrev pub is_chat_role : MemoryMessage → Bool
is_chat_role entry = str_eq entry.role "user" || str_eq entry.role "assistant"

module _ (env : Env) (tenant_id : ℕ) (session_id : String) where
  open env use {regex, has_session}

  -- the tool calls of one completion, up to an escalation
  unfoldable pub run_calls : (iteration : ℕ) → List ToolCall → LoopState → Action CallsOutcome
  run_calls iteration [] s = pure (continued s)
  run_calls iteration (call ∷ later) s = do
    result ← execute_tool env tenant_id session_id call.name call.arguments
    emit_audit_safe has_session tenant_id "agent.tool_called" (
        ("session_id", text session_id)
        ∷ ("tool_name", text call.name)
        ∷ ("iteration", number iteration)
        ∷ [])
    let s' = note_call call result s
    if str_eq call.name "escalate" && is_escalated result
        then (do
          emit_audit_safe has_session tenant_id "agent.turn_completed" (
              ("session_id", text session_id)
              ∷ ("iterations", number iteration)
              ∷ ("token_total", number s'.cumulative_tokens)
              ∷ ("used_tools", texts s'.used_tools)
              ∷ ("exit", text "escalated_by_model")
              ∷ [])
          pure (
              escalated_by_model (record {
                answer = "I escalated this conversation to a human so the team can follow up.";
                used_tools = s'.used_tools;
                citations = s'.citations;
                escalated = true;
              })))
        else run_calls iteration later s'

  -- the end of an iteration; `next` is the next one
  unfoldable pub after_calls :
      (iteration : ℕ) → (LoopState → Action AgentResult) → CallsOutcome → Action AgentResult
  after_calls iteration next (escalated_by_model result) = pure result
  after_calls iteration next (continued s) =
      if leb max_agent_tokens_per_turn s.cumulative_tokens
      then cap_hit_path env tenant_id session_id "token" iteration s.cumulative_tokens s.used_tools
          s.citations
      else next s

  -- a completion without tool calls ends the turn with its text
  unfoldable pub finish_text : (iteration : ℕ) → Completion → LoopState → Action AgentResult
  finish_text iteration c s = do
    emit_audit_safe has_session tenant_id "agent.turn_completed" (
        ("session_id", text session_id)
        ∷ ("iterations", number iteration)
        ∷ ("token_total", number (s.cumulative_tokens + c.total_tokens))
        ∷ ("used_tools", texts s.used_tools)
        ∷ [])
    pure (record {
      answer =
          if str_eq (strip c.content) ""
          then fallback_text_answer s.captured_lead_results
          else strip c.content;
      used_tools = s.used_tools;
      citations = s.citations;
      escalated = any (str_eq "escalate") s.used_tools;
    })

  module _ (message : String) (memory : List MemoryMessage) where
    unfoldable pub after_completion :
        (iteration : ℕ)
        → (LoopState → Action AgentResult)
        → LoopState
        → Option Completion
        → Action AgentResult
    after_completion iteration next s none =
        run_deterministic env tenant_id session_id message memory
    after_completion iteration next s (some c) =
        if has_calls c.tool_calls
        then (do
          outcome ← run_calls iteration c.tool_calls (note_completion c s)
          after_calls iteration next outcome)
        else finish_text iteration c s

    -- the loop, with the iterations that are left
    unfoldable pub llm_loop : LlmClient → (left iteration : ℕ) → LoopState → Action AgentResult
    llm_loop client zero iteration s =
        cap_hit_path env tenant_id session_id "iteration" iteration s.cumulative_tokens s.used_tools
          s.citations
    llm_loop client (suc left) iteration s =
        after_completion (suc iteration) (llm_loop client left (suc iteration)) s
          (client s.messages)

    -- `_run_llm_loop`
    unfoldable pub run_llm_loop : (World → ℕ → String) → LlmClient → Action AgentResult
    run_llm_loop system_prompt client = do
      prompt ← gets (λ w. system_prompt w tenant_id)
      llm_loop client max_agent_iterations 0 (record {
        messages =
            said "system" prompt ∷ map chat_of (select is_chat_role (last 6 memory))
            ++ said "user" message ∷ [];
        used_tools = [];
        citations = [];
        cumulative_tokens = 0;
        captured_lead_results = [];
      })

  abbrev pub run_turn :
      (World → ℕ → String)
      → Option LlmClient
      → (message : String) → List MemoryMessage
      → Action AgentResult
  run_turn system_prompt none message memory =
      run_deterministic env tenant_id session_id message memory
  run_turn system_prompt (some client) message memory =
      run_llm_loop message memory system_prompt client

  unfoldable pub run_agent :
      (World → ℕ → String)
      → Option LlmClient
      → (message : String) → List MemoryMessage
      → (route_reason : String) → Action AgentResult
  run_agent system_prompt client message memory route_reason = do
    let safe_reason = if str_eq route_reason "" then "" else redact_text regex (some route_reason)
    emit_audit_safe has_session tenant_id "agent.turn_started"
        (("session_id", text session_id) ∷ ("route_reason", text safe_reason) ∷ [])
    if str_eq (strip message) ""
        then cap_hit_path env tenant_id session_id "empty_message" 0 0 [] []
        else run_turn system_prompt client (strip message) memory
