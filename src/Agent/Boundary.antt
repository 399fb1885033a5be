-- ===== src/Agent/Boundary.antt =====
-- app/agent/agent.py: what `_execute_tool` lets through of a model's tool call.
use multi_tenant_ai_chatbot.Prelude.{
  ℕ, String, ◌≡◌, refl, ◌⊎◌, inl, inr, false, some, List, [], ◌∷◌, any, str_eq, arith, Bool-cases,
}
use multi_tenant_ai_chatbot.Prelude.Dict.{lookup, text_key}
use multi_tenant_ai_chatbot.World
use multi_tenant_ai_chatbot.World.{World, ok}
use multi_tenant_ai_chatbot.Tools.Args.Calls.{
  ArgValue, object, only_fields-unknown, rag_search_args, capture_lead_args, escalate_args,
}
use multi_tenant_ai_chatbot.Tools.{Env, invalid_args, tool_not_allowed}
use multi_tenant_ai_chatbot.Agent.{allowed_tools, execute_on, execute_tool}

-- the names that no schema has: all but the fields of the three
abbrev pub IsForeign : String → Type 0
IsForeign key =
    any (str_eq key) ("query" ∷ "top_k" ∷ "name" ∷ "contact" ∷ "intent" ∷ "reason" ∷ []) ≡ false

-- A tool call whose arguments have a key that is no field of a schema, such as `tenant_id`,
-- `session_id` or `actor_id`, runs no tool: nothing is changed, and the model is told that the
-- arguments are invalid, or that the tool is not allowed.
pub execute_tool-foreign :
    (env : Env) (t : ℕ) (s name key : String) (value : ArgValue) (items : List (String × ArgValue))
    (w : World)
    → IsForeign key
    → lookup key items ≡ some value
    → (execute_tool env t s name (object items) w ≡ (ok invalid_args, w))
      ⊎ (execute_tool env t s name (object items) w ≡ (ok (tool_not_allowed name), w))
unfolding execute_tool execute_on rag_search_args capture_lead_args escalate_args World.pure
execute_tool-foreign env t s name key value items w foreign has =
    let a = only_fields-unknown ("query" ∷ "top_k" ∷ []) key value items (ground arith) has in
    let b =
      only_fields-unknown ("name" ∷ "contact" ∷ "intent" ∷ []) key value items (ground arith) has in
    let c = only_fields-unknown ("reason" ∷ []) key value items (ground arith) has in
    elim (Bool-cases (str_eq name "rag_search")) [
      | inl e ↦ inl (rw (e, a) refl)
      | inr e ↦ elim (Bool-cases (str_eq name "capture_lead")) [
        | inl f ↦ inl (rw (e, f, b) refl)
        | inr f ↦ elim (Bool-cases (str_eq name "escalate")) [
          | inl g ↦ inl (rw (e, f, g, c) refl)
          | inr g ↦ inr (rw (e, f, g) refl)
        ]
      ]
    ]

-- A tool outside of the three runs nothing, whatever its arguments.
pub execute_tool-unknown :
    (env : Env) (t : ℕ) (s name : String) (items : List (String × ArgValue)) (w : World)
    → any (str_eq name) allowed_tools ≡ false
    → execute_tool env t s name (object items) w ≡ (ok (tool_not_allowed name), w)
unfolding execute_tool execute_on World.pure
execute_tool-unknown env t s name items w h =
    let e : str_eq name "rag_search" ≡ false = ground arith in
    let f : str_eq name "capture_lead" ≡ false = ground arith in
    let g : str_eq name "escalate" ≡ false = ground arith in rw (e, f, g) refl
