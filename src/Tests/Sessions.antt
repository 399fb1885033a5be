-- ===== src/Tests/Sessions.antt =====
-- Tests of the tools and of the session memory.
use multi_tenant_ai_chatbot.Prelude.{List, length, ◌-◌, ◌≤◌, ◌+◌}
use multi_tenant_ai_chatbot.Prelude.{
  ℕ, ◌+◌, ◌≡◌, refl, Bool, true, none, some, [], ◌∷◌, ◌++◌, arith,
}
use multi_tenant_ai_chatbot.Prelude.Text.{strip, prefix}
use multi_tenant_ai_chatbot.Redaction.{redact_text}
use multi_tenant_ai_chatbot.World.{ok}
use multi_tenant_ai_chatbot.Db.{session_fits}
use multi_tenant_ai_chatbot.Tools.Args.{valid_escalate, has_length}
use multi_tenant_ai_chatbot.Tools.{escalated, escalate, capture_lead}
use multi_tenant_ai_chatbot.Tools.Escalate.{clean_reason, escalate-once}
use multi_tenant_ai_chatbot.Tools.Leads.{Explains, capture_lead-Explains}
use multi_tenant_ai_chatbot.Memory.{append_message, get_messages, trim}
use multi_tenant_ai_chatbot.Memory.Recall.{recalled, get_messages-append_message}
use multi_tenant_ai_chatbot.Tools.Cap.{Capture, capture_all, capture_all-le_cap}
use multi_tenant_ai_chatbot.Tests.{world, env, regex, deps}

abbrev demand : ℕ → Capture
demand now = record { now = now; name = none; contact = some "ann@acme.io"; intent = "demo" }

abbrev demands : List Capture
demands = demand 1000 ∷ demand 1010 ∷ demand 1020 ∷ demand 1030 ∷ demand 1040 ∷ demand 1050 ∷ []

capture_all-le_cap_example : length (capture_all env 1 "s1" demands world).leads ≤ 1 + (5 - 0)
capture_all-le_cap_example = capture_all-le_cap env 1 "s1" 1000 demands world refl tt (
  omega arith,
  omega arith,
  (
    omega arith,
    omega arith,
    (
      omega arith,
      omega arith,
      (omega arith, omega arith, (omega arith, omega arith, (omega arith, omega arith, tt))),
    ),
  ),
)

escalate-once_example :
    let later = (escalate env 1 "s1" "I want a person" world).1 in
    (id : ℕ) × ((found : Bool) × ((escalate env 1 "s1" "I want a person" world).0
        ≡ ok (escalated id (redact_text regex (some (clean_reason "I want a person"))) found))
      × (escalate env 1 "s1" "Now!" later
          ≡ (ok (escalated id (redact_text regex (some (clean_reason "Now!"))) true), later)))
unfolding valid_escalate has_length prefix strip session_fits
escalate-once_example =
    escalate-once env 1 "s1" "I want a person" "Now!" world
      (escalate env 1 "s1" "I want a person" world).1 refl refl refl refl refl refl

capture_lead-Explains_example :
    let (r, v) = capture_lead env 1 "s1" none (some "+961 1 234567") "A demo, please" world in
    Explains env 1 "s1" none (some "+961 1 234567") "A demo, please" world v r
capture_lead-Explains_example =
    capture_lead-Explains env 1 "s1" none (some "+961 1 234567") "A demo, please" world refl

get_messages-append_message_example :
    let (r, v) = append_message regex deps.memory_config 1 "s1" "user" "ann@acme.io" world in
    (r ≡ ok tt)
    × ((get_messages 1 "s1" (record v { clock = 1000 + 60 })).0
        ≡ ok (
            trim 12 (
              recalled 1 "s1" 1000 world
              ++ record {
                role = "user";
                content = redact_text regex (some "ann@acme.io");
                created_at = 1000;
              }
                ∷ [])))
get_messages-append_message_example =
    get_messages-append_message regex deps.memory_config 1 "s1" "user" "ann@acme.io" world refl 60
      (omega arith)
