-- ===== src/Agent/Deterministic.antt =====
-- app/agent/agent.py: `_run_deterministic`, the turn without a model, with `_call_tool`.
use multi_tenant_ai_chatbot.Prelude.{
  ℕ, suc, min, String, Bool, false, not, List, [], ◌∷◌, ◌++◌, any, select, length, ltb, leb, ◌+◌,
  str_eq, if◌then◌else◌,
}
use Prim.Native.String.{◌++◌ as concat}
use multi_tenant_ai_chatbot.Prelude.Text.{strip}
use multi_tenant_ai_chatbot.Db.Rows.{number, text, texts}
use multi_tenant_ai_chatbot.World.{MemoryMessage, Action, pure, ◌>>=◌, ◌>>◌}
use multi_tenant_ai_chatbot.Prelude.Words.{join}
use multi_tenant_ai_chatbot.Tools.Answer.{Chunk}
use multi_tenant_ai_chatbot.Tools.{
  Env, ToolResult, invalid_args, rate_limited, found, captured, escalated, tool_not_allowed,
  emit_audit_safe, rag_search, capture_lead, escalate, extract_lead_fields,
}
use multi_tenant_ai_chatbot.Agent.Plan.{plan_tools, rough_token_count, memory_token_count}
use multi_tenant_ai_chatbot.Agent.{
  AgentResult, max_agent_iterations, max_agent_tokens_per_turn, allowed_tools, is_escalated,
  cap_hit_path,
}

-- the variables of the loop over the plan
pub record PlanState : Type 0 where
  pub used_tools : List String
  pub citations : List Chunk
  pub answer_parts : List String
  pub escalated : Bool

pub data PlanOutcome : Type 0 where
  planned : PlanState → PlanOutcome
  -- a tool outside of the allowed ones ended the turn
  capped : AgentResult → PlanOutcome

-- `result.get("status")` of `capture_lead`, as the answer shows it
abbrev pub status_text : ToolResult → String
status_text invalid_args = "invalid_args"
status_text rate_limited = "rate_limited"
status_text (found answer chunks top_k) = "ok"
status_text (captured lead_id has_contact) = "captured"
status_text (escalated ticket_id reason deduplicated) = "escalated"
status_text (tool_not_allowed tool_name) = "tool_not_allowed"

abbrev pub capture_answer : ToolResult → String
capture_answer rate_limited =
    "I've already captured your details — the team will reach out shortly."
capture_answer (captured lead_id false) =
    "I can help arrange follow-up. Please share an email or phone number so the team can contact you."
capture_answer result =
    concat (concat "I captured this as a follow-up request. Lead status: " (status_text result)) "."

-- `result.get("answer", "")` and `result.get("chunks", [])`
abbrev pub answer_of : ToolResult → String
answer_of (found answer chunks top_k) = answer
answer_of _ = ""

abbrev pub chunks_of : ToolResult → List Chunk
chunks_of (found answer chunks top_k) = chunks
chunks_of _ = []

unfoldable pub note_planned : String → ToolResult → PlanState → PlanState
note_planned tool_name result s =
    let used_tools = s.used_tools ++ tool_name ∷ [] in
    if str_eq tool_name "rag_search"
    then record s {
      used_tools = used_tools;
      citations = s.citations ++ chunks_of result;
      answer_parts = s.answer_parts ++ answer_of result ∷ [];
    }
    else if str_eq tool_name "capture_lead"
    then record s {
      used_tools = used_tools;
      answer_parts = s.answer_parts ++ capture_answer result ∷ [];
    }
    else record s {
      used_tools = used_tools;
      escalated = is_escalated result;
      answer_parts =
          s.answer_parts
          ++ "I escalated this conversation to a human so the team can follow up." ∷ [];
    }

module _ (env : Env) (tenant_id : ℕ) (session_id : String) where
  open env use {regex, has_session}

  -- `_call_tool`, at a tool of the allowed ones
  unfoldable pub call_tool : String → (message reason : String) → Action ToolResult
  call_tool tool_name message reason =
      let (name, contact) = extract_lead_fields regex message in
      if str_eq tool_name "rag_search"
      then rag_search env tenant_id message 5
      else if str_eq tool_name "capture_lead"
      then capture_lead env tenant_id session_id name contact message
      else escalate env tenant_id session_id reason

  unfoldable pub run_plan :
      (message reason : String) (budget iteration : ℕ)
      → List String
      → PlanState
      → Action PlanOutcome
  run_plan message reason budget iteration [] s = pure (planned s)
  run_plan message reason budget iteration (tool_name ∷ tools) s =
      if ltb max_agent_iterations iteration
      then pure (planned s)
      else if not (any (str_eq tool_name) allowed_tools)
      then (do
        result ←
            cap_hit_path env tenant_id session_id "iteration" iteration budget s.used_tools
              s.citations
        pure (capped result))
      else (do
        result ← call_tool tool_name message reason
        emit_audit_safe has_session tenant_id "agent.tool_called" (
            ("session_id", text session_id)
            ∷ ("tool_name", text tool_name)
            ∷ ("iteration", number iteration)
            ∷ [])
        if str_eq tool_name "escalate"
            then pure (planned (note_planned tool_name result s))
            else run_plan message reason budget (suc iteration) tools
                (note_planned tool_name result s))

  -- the turn after its plan
  unfoldable pub finish_plan : (budget : ℕ) → PlanOutcome → Action AgentResult
  finish_plan budget (capped result) = pure result
  finish_plan budget (planned s) = do
    emit_audit_safe has_session tenant_id "agent.turn_completed" (
        ("session_id", text session_id)
        ∷ ("iterations", number (min (length s.used_tools) max_agent_iterations))
        ∷ ("token_total", number budget)
        ∷ ("used_tools", texts s.used_tools)
        ∷ ("exit", text "deterministic_fallback")
        ∷ [])
    if leb (length s.answer_parts) 0
        then cap_hit_path env tenant_id session_id "iteration" (length s.used_tools) budget
            s.used_tools s.citations
        else pure (record {
          answer = join "\n\n" (select (λ part. not (str_eq (strip part) "")) s.answer_parts);
          used_tools = s.used_tools;
          citations = s.citations;
          escalated = s.escalated;
        })

  unfoldable pub run_deterministic : (message : String) → List MemoryMessage → Action AgentResult
  run_deterministic message memory =
      let budget_used = rough_token_count message + memory_token_count memory in
      let plan = plan_tools message in
      if leb max_agent_tokens_per_turn budget_used
      then cap_hit_path env tenant_id session_id "token" 0 budget_used [] []
      else (do
        outcome ←
            run_plan message plan.reason budget_used 1 plan.tools
              (record { used_tools = []; citations = []; answer_parts = []; escalated = false })
        finish_plan budget_used outcome)
