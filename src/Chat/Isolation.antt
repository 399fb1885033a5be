-- ===== src/Chat/Isolation.antt =====
-- Tenant isolation of a chat turn of app/services/chat_service.py.
use multi_tenant_ai_chatbot.Prelude.{ℕ, String, ◌≢◌, refl, Bool, true, false, List, ◌∷◌}
use multi_tenant_ai_chatbot.World.{
  World, MemoryMessage, Result, ok, err, memory_unavailable, Action, modify,
}
use multi_tenant_ai_chatbot.World.Stays.{Frame, Stays, stays_rules}
use multi_tenant_ai_chatbot.World.Isolation.{Untouched, Untouched-frame}
use multi_tenant_ai_chatbot.Router.{Route, blocked, rag_search, capture_lead, escalate, agent}
use multi_tenant_ai_chatbot.Memory.Recall.{append_message-Untouched, get_messages-Untouched}
use multi_tenant_ai_chatbot.Tools.{
  ToolResult, found, invalid_args, rate_limited, captured, escalated, tool_not_allowed,
}
use multi_tenant_ai_chatbot.Tools.Frames.{
  emit_audit_safe-Untouched, rag_search-Untouched, capture_lead-Untouched, escalate-Untouched,
}
use multi_tenant_ai_chatbot.Agent.Frames.{run_agent-Untouched}
use multi_tenant_ai_chatbot.Chat.{
  Deps, or_handle, except_memory, answer_search, record_first, record_memory_unavailable,
  safe_append_memory, safe_get_memory, execute_route, execute_decision, handle_message,
}

module _ {R : World → World → Type 0} ⦃f : Frame R⦄ where
  Stays-or_handle :
      {A : Type 0} (r : Result A) (handler : Action A)
      → Stays R handler
      → Stays R (or_handle r handler)
  Stays-or_handle (ok a) handler h = search stays_rules
  Stays-or_handle (err e) handler h = elim e as (λ e. Stays R (or_handle (err e) handler)) [
    | memory_unavailable ↦ h
    | _ ↦ search stays_rules
  ]

  Stays-except_memory :
      {A : Type 0} (m handler : Action A)
      → Stays R m
      → Stays R handler
      → Stays R (except_memory m handler)
  unfolding except_memory
  Stays-except_memory m handler h k = record {
    at = λ w.
        let (r, v) = m w in
        f.then_to w v (or_handle r handler v).1 (h.at w) ((Stays-or_handle r handler k).at v);
  }

answer_search-Untouched : (u : ℕ) (r : ToolResult) → Stays (Untouched u) (answer_search r)
unfolding answer_search
answer_search-Untouched u (found answer chunks top_k) = search stays_rules
answer_search-Untouched u invalid_args = search stays_rules
answer_search-Untouched u rate_limited = search stays_rules
answer_search-Untouched u (captured id c) = search stays_rules
answer_search-Untouched u (escalated id reason d) = search stays_rules
answer_search-Untouched u (tool_not_allowed name) = search stays_rules

module _ (u t : ℕ) (other : t ≢ u) (deps : Deps) (s : String) where
  mark_seen :
      Stays
        (Untouched u)
        (modify (λ w. record w { seen_unavailable = (t, s) ∷ w.seen_unavailable }))
  unfolding modify
  mark_seen = record {
    at = λ w. record {
      tenants = refl;
      admin_users = refl;
      admin_invites = refl;
      cms_pages = refl;
      leads = refl;
      conversations = refl;
      audit_logs = refl;
      tenant_usage = refl;
      rate_limits = refl;
      erasure_jobs = refl;
      settings = refl;
      agent_configs = refl;
      rag_chunks = refl;
      escalation_tickets = refl;
      memory = λ r. refl;
      lead_windows = λ r. refl;
    };
  }

  record_first-Untouched : (b : Bool) → Stays (Untouched u) (record_first deps t s b)
  unfolding record_first
  record_first-Untouched true = search stays_rules
  record_first-Untouched false = search (stays_rules, mark_seen, emit_audit_safe-Untouched)

  record_memory_unavailable-Untouched : Stays (Untouched u) (record_memory_unavailable deps t s)
  unfolding record_memory_unavailable
  record_memory_unavailable-Untouched = search (stays_rules, record_first-Untouched)

  safe_append_memory-Untouched :
      (role content : String) → Stays (Untouched u) (safe_append_memory deps t s role content)
  unfolding safe_append_memory
  safe_append_memory-Untouched role content =
      search (Stays-except_memory, append_message-Untouched, record_memory_unavailable-Untouched)

  safe_get_memory-Untouched : Stays (Untouched u) (safe_get_memory deps t s)
  unfolding safe_get_memory
  safe_get_memory-Untouched = search (
    stays_rules, Stays-except_memory, get_messages-Untouched, record_memory_unavailable-Untouched,
  )

  execute_route-Untouched :
      (message reason : String) (memory : List MemoryMessage) (route : Route)
      → Stays (Untouched u) (execute_route deps t s message reason memory route)
  unfolding execute_route
  execute_route-Untouched message reason memory blocked = search stays_rules
  execute_route-Untouched message reason memory rag_search =
      search (stays_rules, rag_search-Untouched, answer_search-Untouched)
  execute_route-Untouched message reason memory capture_lead =
      search (stays_rules, capture_lead-Untouched)
  execute_route-Untouched message reason memory escalate = search (stays_rules, escalate-Untouched)
  execute_route-Untouched message reason memory agent = search (stays_rules, run_agent-Untouched)

  -- A visitor's turn for one tenant leaves every other tenant alone: its rows in every table, its
  -- sessions' memory and its lead windows, whatever the message, the classifier, the model and its
  -- tool calls, with Redis up or down, and also where the turn raises.
  pub handle_message-Untouched :
      (message : String) → Stays (Untouched u) (handle_message deps t s message)
  unfolding handle_message execute_decision
  handle_message-Untouched message =
      search
        (
          stays_rules, safe_append_memory-Untouched, safe_get_memory-Untouched,
          execute_route-Untouched,
        )
        depth 8
