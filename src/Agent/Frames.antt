-- ===== src/Agent/Frames.antt =====
-- Tenant isolation of the agent of app/agent/agent.py, for every model.
use multi_tenant_ai_chatbot.Prelude.{ℕ, zero, suc, String, ◌≢◌, Option, none, some, List, [], ◌∷◌}
use multi_tenant_ai_chatbot.World.{World, MemoryMessage, Action}
use multi_tenant_ai_chatbot.World.Stays.{Stays, stays_rules}
use multi_tenant_ai_chatbot.World.Isolation.{Untouched, Untouched-frame}
use multi_tenant_ai_chatbot.Tools.Args.Calls.{ArgValue, Arguments, malformed, not_object, object}
use multi_tenant_ai_chatbot.Tools.Answer.{Chunk}
use multi_tenant_ai_chatbot.Tools.{Env}
use multi_tenant_ai_chatbot.Tools.Frames.{
  emit_audit_safe-Untouched, rag_search-Untouched, capture_lead-Untouched, escalate-Untouched,
}
use multi_tenant_ai_chatbot.Agent.{
  AgentResult, cap_hit_path, search_with, capture_with, escalate_with, execute_on, execute_tool,
}
use multi_tenant_ai_chatbot.Agent.Deterministic.{
  PlanState, PlanOutcome, planned, capped, call_tool, run_plan, finish_plan, run_deterministic,
}
use multi_tenant_ai_chatbot.Agent.Loop.{
  ToolCall, LlmClient, Completion, LoopState, CallsOutcome, continued, escalated_by_model,
  run_calls, after_calls, finish_text, after_completion, llm_loop, run_llm_loop, run_turn,
  run_agent,
}

module _ (u t : ℕ) (other : t ≢ u) (env : Env) where
  cap_hit_path-Untouched :
      (s kind : String) (i n : ℕ) (used : List String) (citations : List Chunk)
      → Stays (Untouched u) (cap_hit_path env t s kind i n used citations)
  unfolding cap_hit_path
  cap_hit_path-Untouched s kind i n used citations =
      search (stays_rules, escalate-Untouched, emit_audit_safe-Untouched) depth 8

  search_with-Untouched : (o : Option (String × ℕ)) → Stays (Untouched u) (search_with env t o)
  search_with-Untouched none = search stays_rules
  search_with-Untouched (some (q, k)) = search rag_search-Untouched

  capture_with-Untouched :
      (s : String) (o : Option (Option String × (Option String × String)))
      → Stays (Untouched u) (capture_with env t s o)
  capture_with-Untouched s none = search stays_rules
  capture_with-Untouched s (some (name, (contact, intent))) = search capture_lead-Untouched

  escalate_with-Untouched :
      (s : String) (o : Option String) → Stays (Untouched u) (escalate_with env t s o)
  escalate_with-Untouched s none = search stays_rules
  escalate_with-Untouched s (some reason) = search escalate-Untouched

  execute_on-Untouched :
      (s name : String) (items : List (String × ArgValue))
      → Stays (Untouched u) (execute_on env t s name items)
  unfolding execute_on
  execute_on-Untouched s name items =
      search (stays_rules, search_with-Untouched, capture_with-Untouched, escalate_with-Untouched)
        depth 8

  execute_tool-Untouched :
      (s name : String) (arguments : Arguments)
      → Stays (Untouched u) (execute_tool env t s name arguments)
  unfolding execute_tool
  execute_tool-Untouched s name malformed = execute_on-Untouched s name []
  execute_tool-Untouched s name (object items) = execute_on-Untouched s name items
  execute_tool-Untouched s name not_object = search stays_rules

  module _ (s : String) where
    call_tool-Untouched :
        (name message reason : String) → Stays (Untouched u) (call_tool env t s name message reason)
    unfolding call_tool
    call_tool-Untouched name message reason =
        search (stays_rules, rag_search-Untouched, capture_lead-Untouched, escalate-Untouched) depth
          8

    run_plan-Untouched :
        (message reason : String) (budget i : ℕ) (tools : List String) (state : PlanState)
        → Stays (Untouched u) (run_plan env t s message reason budget i tools state)
    unfolding run_plan
    run_plan-Untouched message reason budget i [] state = search stays_rules
    run_plan-Untouched message reason budget i (tool ∷ tools) state =
        search
          (
            stays_rules,
            cap_hit_path-Untouched,
            call_tool-Untouched,
            emit_audit_safe-Untouched,
            λ (j : ℕ) (state : PlanState). run_plan-Untouched message reason budget j tools state,
          )
          depth 12

    finish_plan-Untouched :
        (budget : ℕ) (o : PlanOutcome) → Stays (Untouched u) (finish_plan env t s budget o)
    unfolding finish_plan
    finish_plan-Untouched budget (capped r) = search stays_rules
    finish_plan-Untouched budget (planned state) =
        search (stays_rules, cap_hit_path-Untouched, emit_audit_safe-Untouched) depth 8

    pub run_deterministic-Untouched :
        (message : String) (memory : List MemoryMessage)
        → Stays (Untouched u) (run_deterministic env t s message memory)
    unfolding run_deterministic
    run_deterministic-Untouched message memory =
        search (stays_rules, cap_hit_path-Untouched, run_plan-Untouched, finish_plan-Untouched)
          depth 8

    run_calls-Untouched :
        (i : ℕ) (calls : List ToolCall) (state : LoopState)
        → Stays (Untouched u) (run_calls env t s i calls state)
    unfolding run_calls
    run_calls-Untouched i [] state = search stays_rules
    run_calls-Untouched i (call ∷ later) state =
        search
          (
            stays_rules,
            execute_tool-Untouched,
            emit_audit_safe-Untouched,
            λ (state : LoopState). run_calls-Untouched i later state,
          )
          depth 12

    after_calls-Untouched :
        (i : ℕ) (next : LoopState → Action AgentResult) (o : CallsOutcome)
        → ((state : LoopState) → Stays (Untouched u) (next state))
        → Stays (Untouched u) (after_calls env t s i next o)
    unfolding after_calls
    after_calls-Untouched i next (escalated_by_model r) k = search stays_rules
    after_calls-Untouched i next (continued state) k =
        search (stays_rules, cap_hit_path-Untouched, k) depth 8

    finish_text-Untouched :
        (i : ℕ) (c : Completion) (state : LoopState)
        → Stays (Untouched u) (finish_text env t s i c state)
    unfolding finish_text
    finish_text-Untouched i c state = search (stays_rules, emit_audit_safe-Untouched)

    module _ (message : String) (memory : List MemoryMessage) where
      after_completion-Untouched :
          (i : ℕ) (next : LoopState → Action AgentResult) (state : LoopState)
          (o : Option Completion)
          → ((later : LoopState) → Stays (Untouched u) (next later))
          → Stays (Untouched u) (after_completion env t s message memory i next state o)
      unfolding after_completion
      after_completion-Untouched i next state none k = search run_deterministic-Untouched
      after_completion-Untouched i next state (some c) k =
          search
            (
              stays_rules,
              run_calls-Untouched,
              λ (o : CallsOutcome). after_calls-Untouched i next o k,
              finish_text-Untouched,
            )
            depth 8

      llm_loop-Untouched :
          (client : LlmClient) (left i : ℕ) (state : LoopState)
          → Stays (Untouched u) (llm_loop env t s message memory client left i state)
      unfolding llm_loop
      llm_loop-Untouched client zero i state = search cap_hit_path-Untouched
      llm_loop-Untouched client (suc left) i state =
          after_completion-Untouched (suc i) _ state (client state.messages)
            (λ later. llm_loop-Untouched client left (suc i) later)

      run_llm_loop-Untouched :
          (prompt : World → ℕ → String) (client : LlmClient)
          → Stays (Untouched u) (run_llm_loop env t s message memory prompt client)
      unfolding run_llm_loop
      run_llm_loop-Untouched prompt client = search (stays_rules, llm_loop-Untouched)

    run_turn-Untouched :
        (prompt : World → ℕ → String) (client : Option LlmClient) (message : String)
        (memory : List MemoryMessage)
        → Stays (Untouched u) (run_turn env t s prompt client message memory)
    run_turn-Untouched prompt none message memory = search run_deterministic-Untouched
    run_turn-Untouched prompt (some client) message memory = search run_llm_loop-Untouched

    -- A turn of the agent for one tenant leaves every other tenant alone, its rows, memory and lead
    -- windows, for any model and whatever it answers and calls, and also where the turn raises.
    pub run_agent-Untouched :
        (prompt : World → ℕ → String) (client : Option LlmClient) (message : String)
        (memory : List MemoryMessage) (route_reason : String)
        → Stays (Untouched u) (run_agent env t s prompt client message memory route_reason)
    unfolding run_agent
    run_agent-Untouched prompt client message memory route_reason =
        search (stays_rules, emit_audit_safe-Untouched, cap_hit_path-Untouched, run_turn-Untouched)
          depth 8
