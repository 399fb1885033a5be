-- ===== src/Tests/Turns.antt =====
-- Tests of a chat turn and of the agent.
use multi_tenant_ai_chatbot.Prelude.{◌≡◌, refl, ◌⊎◌, false, some, [], arith}
use multi_tenant_ai_chatbot.World.{ok}
use multi_tenant_ai_chatbot.World.Stays.{Stays}
use multi_tenant_ai_chatbot.World.Isolation.{Untouched}
use multi_tenant_ai_chatbot.Router.{route_message_decision}
use multi_tenant_ai_chatbot.Tools.Args.Calls.{number, object}
use multi_tenant_ai_chatbot.Tools.{invalid_args, tool_not_allowed}
use multi_tenant_ai_chatbot.Agent.{execute_tool}
use multi_tenant_ai_chatbot.Agent.Boundary.{execute_tool-foreign}
use multi_tenant_ai_chatbot.Agent.Loop.{LlmClient}
use multi_tenant_ai_chatbot.Chat.{execute_decision, handle_message, record_memory_unavailable}
use multi_tenant_ai_chatbot.Chat.Isolation.{handle_message-Untouched}
use multi_tenant_ai_chatbot.Chat.Memoryless.{handle_message-memoryless}
use multi_tenant_ai_chatbot.World.Returns.{Returns}
use multi_tenant_ai_chatbot.Tests.{request_lead, world, env, deps, smuggled}

handle_message-Untouched_example :
    Stays (Untouched 2) (handle_message deps 1 "s1" "Call me about pricing")
handle_message-Untouched_example =
    handle_message-Untouched 2 1 (omega arith) deps "s1" "Call me about pricing"

execute_tool-foreign_example :
    (execute_tool env 1 "s1" "capture_lead" (object smuggled) world ≡ (ok invalid_args, world))
    ⊎ (execute_tool env 1 "s1" "capture_lead" (object smuggled) world
        ≡ (ok (tool_not_allowed "capture_lead"), world))
execute_tool-foreign_example =
    execute_tool-foreign env 1 "s1" "capture_lead" "tenant_id" (number 2) smuggled world refl refl

handle_message-memoryless_example :
    let down = record world { redis_up = false } in
    (handle_message deps 1 "s1" "Call me" down).0
    ≡ (execute_decision deps 1 "s1" "Call me"
        (route_message_decision deps.threshold (deps.classify "Call me") "Call me")
        []
        (record_memory_unavailable deps 1 "s1" down).1).0
handle_message-memoryless_example =
    handle_message-memoryless deps 1 "s1" "Call me" (record world { redis_up = false }) refl

-- two completions cost the cap
abbrev costly : LlmClient
costly messages = some (record request_lead { total_tokens = 2000 })
