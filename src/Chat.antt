-- ===== src/Chat.antt =====
-- app/services/chat_service.py: `ChatService`, one visitor turn: memory, router, workflow path or
-- agent, memory again. The classifier behind the router, the model, and the system prompt are
-- parameters, as everything of `Deps`.
pub mod Isolation
pub mod Memoryless
pub mod Rejections
use Prim.Native.String.{◌++◌ as concat}
use multi_tenant_ai_chatbot.Prelude.{
  ℕ, String, Bool, true, false, Option, none, some, List, [], ◌∷◌, ◌++◌, any, if◌then◌else◌,
}
use multi_tenant_ai_chatbot.Prelude.Dict.{SessionKey, same_session}
use multi_tenant_ai_chatbot.Db.Rows.{text}
use multi_tenant_ai_chatbot.Redaction.{redact_text}
use multi_tenant_ai_chatbot.World.{
  World, MemoryMessage, Result, ok, err, Action, memory_unavailable, key_error, pure, raise, gets,
  modify, ◌>>=◌, ◌>>◌,
}
use multi_tenant_ai_chatbot.Router.{
  Route, blocked, rag_search, capture_lead, escalate, agent, RouteDecision, Classifier,
  route_message_decision,
}
use multi_tenant_ai_chatbot.Memory.{MemoryConfig, append_message, get_messages}
use multi_tenant_ai_chatbot.Tools as Tools
use multi_tenant_ai_chatbot.Tools.{
  Env, ToolResult, found, rate_limited, emit_audit_safe, extract_lead_fields,
}
use multi_tenant_ai_chatbot.Agent.{AgentResult, is_escalated}
use multi_tenant_ai_chatbot.Agent.Deterministic.{status_text}
use multi_tenant_ai_chatbot.Agent.Loop.{LlmClient, run_agent}

pub record Deps : Type 0 where
  pub env : Env
  pub memory_config : MemoryConfig
  pub threshold : ℕ
  -- what the model server says of a message, if there is one
  pub classify : String → Classifier
  pub system_prompt : World → ℕ → String
  pub client : Option LlmClient

-- `_TurnResult`, and `ChatResponse`
pub record TurnResult : Type 0 where
  pub answer : String
  pub route : String
  pub used_tools : List String

-- `try: … except MemoryUnavailableError:`
abbrev pub or_handle : {A : Type 0} → Result A → Action A → Action A
or_handle (ok a) handler = pure a
or_handle (err memory_unavailable) handler = handler
or_handle (err e) handler = raise e

unfoldable pub except_memory : {A : Type 0} → Action A → Action A → Action A
except_memory m handler w = let (r, w') = m w in or_handle r handler w'

-- a route of the workflow, with its answer
abbrev workflow : String → String → TurnResult
workflow tool answer = record { answer = answer; route = "workflow"; used_tools = tool ∷ [] }

-- `str(result["answer"])`: only a result with status "ok" has an answer
unfoldable pub answer_search : ToolResult → Action TurnResult
answer_search (found answer chunks top_k) = pure (workflow "rag_search" answer)
answer_search _ = raise key_error

abbrev pub lead_answer : Option String → ToolResult → String
lead_answer contact rate_limited =
    "I've already captured your details — the team will reach out shortly."
lead_answer none result =
    "I can pass this to the team. Please share an email or phone number so they can contact you."
lead_answer (some contact) result =
    concat (concat "Thanks — I captured your request. Lead status: " (status_text result)) "."

abbrev pub escalation_turn : ToolResult → TurnResult
escalation_turn result = record {
  answer = "I escalated this conversation to a human so the team can follow up.";
  route = "escalate";
  used_tools = if is_escalated result then "escalate" ∷ [] else [];
}

abbrev pub agent_turn : AgentResult → TurnResult
agent_turn result = record {
  answer = result.answer;
  route = "agent";
  used_tools = result.used_tools;
}

module _ (deps : Deps) (tenant_id : ℕ) (session_id : String) where
  open deps use {env, memory_config}
  open env use {regex, has_session}

  -- `_record_memory_unavailable`: one entry for a session, while the process runs
  unfoldable pub record_first : Bool → Action (Unit {0})
  record_first true = pure tt
  record_first false = do
    modify (λ w. record w { seen_unavailable = (tenant_id, session_id) ∷ w.seen_unavailable })
    emit_audit_safe has_session tenant_id "memory.unavailable"
        (("session_id", text session_id) ∷ [])

  unfoldable pub record_memory_unavailable : Action (Unit {0})
  record_memory_unavailable = do
    seen ← gets (λ w. any (same_session (tenant_id, session_id)) w.seen_unavailable)
    record_first seen

  unfoldable pub safe_append_memory : (role content : String) → Action (Unit {0})
  safe_append_memory role content =
      except_memory (append_message regex memory_config tenant_id session_id role content)
        record_memory_unavailable

  unfoldable pub safe_get_memory : Action (List MemoryMessage)
  safe_get_memory =
      except_memory (get_messages tenant_id session_id) (do record_memory_unavailable; pure [])

  -- the branches of `_execute_decision`
  unfoldable pub execute_route :
      (message reason : String) → List MemoryMessage → Route → Action TurnResult
  execute_route message reason recent_memory blocked =
      pure
        (record { answer = "I can’t help with that request."; route = "blocked"; used_tools = [] })
  execute_route message reason recent_memory rag_search = do
    result ← Tools.rag_search env tenant_id message 5
    answer_search result
  execute_route message reason recent_memory capture_lead =
      let (name, contact) = extract_lead_fields regex message in
      (do
        result ← Tools.capture_lead env tenant_id session_id name contact message
        pure (workflow "capture_lead" (lead_answer contact result)))
  execute_route message reason recent_memory escalate = do
    result ← Tools.escalate env tenant_id session_id reason
    pure (escalation_turn result)
  execute_route message reason recent_memory agent = do
    result ←
        run_agent env tenant_id session_id deps.system_prompt deps.client message recent_memory
          reason
    pure (agent_turn result)

  unfoldable pub execute_decision :
      (message : String) → RouteDecision → List MemoryMessage → Action TurnResult
  unfolding execute_route
  execute_decision message decision recent_memory =
      execute_route message decision.reason recent_memory decision.route

  unfoldable pub handle_message : (message : String) → Action TurnResult
  handle_message message = do
    safe_append_memory "user" (redact_text regex (some message))
    recent_memory ← safe_get_memory
    let decision = route_message_decision deps.threshold (deps.classify message) message
    turn ← execute_decision message decision recent_memory
    safe_append_memory "assistant" (redact_text regex (some turn.answer))
    pure turn
