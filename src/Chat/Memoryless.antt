-- ===== src/Chat/Memoryless.antt =====
-- A chat turn of app/services/chat_service.py without Redis: it is answered as if the session had no
-- memory, and the loss is on record once.
use multi_tenant_ai_chatbot.Prelude.{
  ℕ, String, ◌≡◌, refl, ◌∙◌, ap, true, false, some, [], any, Bool-cases, inl, inr,
}
use multi_tenant_ai_chatbot.Prelude.Dict.{SessionKey, same_session, session_key, same_self}
use multi_tenant_ai_chatbot.Redaction.{redact_text}
use multi_tenant_ai_chatbot.World.{
  World, Result, ok, err, attempt, uuid4, continue, pure, ◌>>=◌, ◌>>◌,
}
use multi_tenant_ai_chatbot.Tenants.Repository.{add_audit_log}
use multi_tenant_ai_chatbot.Router.{route_message_decision}
use multi_tenant_ai_chatbot.Memory.{append_message}
use multi_tenant_ai_chatbot.Memory.Recall.{memory-unavailable}
use multi_tenant_ai_chatbot.Tools.{emit_audit_safe}
use multi_tenant_ai_chatbot.Chat.{
  Deps, TurnResult, except_memory, record_first, record_memory_unavailable, safe_append_memory,
  safe_get_memory, execute_decision, handle_message,
}

module _ (deps : Deps) (t : ℕ) (s : String) where
  abbrev pub IsSeen : World → Type 0
  IsSeen w = any (same_session (t, s)) w.seen_unavailable ≡ true

  -- Recording the loss of a session's memory succeeds, and a second time changes nothing.
  pub record_memory_unavailable-once :
      (w : World)
      → let (r, v) = record_memory_unavailable deps t s w in
        (r ≡ ok tt)
        × IsSeen v
        × (v.redis_up ≡ w.redis_up)
        × (record_memory_unavailable deps t s v ≡ (ok tt, v))
  unfolding record_memory_unavailable record_first emit_audit_safe attempt add_audit_log uuid4 ◌>>=◌
  record_memory_unavailable-once w =
      elim (Bool-cases (any (same_session (t, s)) w.seen_unavailable)) [
        | inl seen ↦ rw seen (refl, seen, refl, rw seen refl)
        | inr new ↦
            let self = same_self {K = SessionKey} (t, s) in
            elim (Bool-cases deps.env.has_session) [
              | inl b ↦ rw (new, b) (rw self (refl, refl, refl, refl))
              | inr b ↦ rw (new, b) (rw self (refl, refl, refl, refl))
            ]
      ]

  abbrev noted : World → World
  noted w = (record_memory_unavailable deps t s w).1

  append_down :
      (role content : String) (w : World)
      → w.redis_up ≡ false
      → safe_append_memory deps t s role content w ≡ (ok tt, noted w)
  unfolding safe_append_memory except_memory
  append_down role content w down =
      rw ((memory-unavailable deps.env.regex deps.memory_config t s role content w down).0)
        (ap (λ r. (r, noted w)) (record_memory_unavailable-once w).0)

  get_down :
      (w : World) → w.redis_up ≡ false → safe_get_memory deps t s (noted w) ≡ (ok [], noted w)
  unfolding safe_get_memory except_memory ◌>>=◌
  get_down w down =
      let once = record_memory_unavailable-once w in
      rw
        (
          (memory-unavailable deps.env.regex deps.memory_config t s "" "" (noted w)
              (once.2 ∙ down)).1,
          once.3,
        )
        refl

  append_ok :
      (role content : String) (w : World) → (safe_append_memory deps t s role content w).0 ≡ ok tt
  unfolding safe_append_memory except_memory append_message ◌>>=◌
  append_ok role content w = elim (Bool-cases w.redis_up) [
    | inl up ↦ rw up refl
    | inr down ↦ ap (λ (p : Result (Unit {0}) × World). p.0) (append_down role content w down)
  ]

  answered :
      (r : Result TurnResult) (v : World)
      → (continue r
          (λ turn.
            safe_append_memory deps t s "assistant" (redact_text deps.env.regex (some turn.answer))
            >> pure turn)
          v).0
        ≡ r
  unfolding ◌>>=◌
  answered (ok turn) v =
      rw (append_ok "assistant" (redact_text deps.env.regex (some turn.answer)) v) refl
  answered (err e) v = refl

  -- With Redis down, a turn has the result of its routed decision without any memory, an answer or
  -- an error, in the world where the loss of the memory is on record; Redis itself never fails it.
  pub handle_message-memoryless :
      (message : String) (w : World)
      → w.redis_up ≡ false
      → (handle_message deps t s message w).0
        ≡ (execute_decision deps t s message
            (route_message_decision deps.threshold (deps.classify message) message)
            []
            (record_memory_unavailable deps t s w).1).0
  unfolding handle_message ◌>>=◌
  handle_message-memoryless message w down =
      rw (append_down "user" (redact_text deps.env.regex (some message)) w down, get_down w down)
        (answered _ _)
