-- ===== src/Guardrails/Verdicts.antt =====
-- guardrails/main.py: whom the sidecar answers, and what it blocks.
use Prim.Native.String.{◌++◌}
use multi_tenant_ai_chatbot.Prelude.{
  String, ◌≡◌, ◌≢◌, ◌↔◌, true, some, List, [], ◌∷◌, any, eq_iff, arith,
}
use multi_tenant_ai_chatbot.Prelude.Text.{lower}
use multi_tenant_ai_chatbot.World.{ok, err, unauthorized}
use multi_tenant_ai_chatbot.Guardrails.{
  block, platform_block_patterns, violates, first_rule, verdict, evaluate_platform_rails,
  check_guardrails,
}

verdict-first_rule :
    (normalized : String) (rules : List (String × List String))
    → ((verdict (first_rule normalized rules)).decision ≡ block)
      ↔ (any (violates normalized) rules ≡ true)
verdict-first_rule normalized [] = ground arith
verdict-first_rule normalized ((rule_name, patterns) ∷ rules) =
    ground (arith, verdict-first_rule normalized rules)

-- With a service token configured, a call that carries it is answered, and its message is blocked
-- exactly if its lower-case form contains a pattern of some rule; any other call that carries a header is refused.
pub check_guardrails-blocks :
    (service_token message authorization : String)
    → service_token ≢ ""
    → authorization ≢ ""
    → ((authorization ≡ "Bearer " ++ service_token)
        → check_guardrails (some service_token) message (some authorization)
          ≡ ok (evaluate_platform_rails message))
      × ((authorization ≢ "Bearer " ++ service_token)
          → check_guardrails (some service_token) message (some authorization) ≡ err unauthorized)
      × (((evaluate_platform_rails message).decision ≡ block)
          ↔ (any (violates (lower message)) platform_block_patterns ≡ true))
unfolding check_guardrails evaluate_platform_rails
check_guardrails-blocks service_token message authorization configured given = (
  λ same. ground (
    arith,
    same,
    configured,
    given,
    eq_iff service_token "",
    eq_iff authorization "",
    eq_iff authorization ("Bearer " ++ service_token),
  ),
  λ other. ground (
    arith,
    other,
    configured,
    given,
    eq_iff service_token "",
    eq_iff authorization "",
    eq_iff authorization ("Bearer " ++ service_token),
  ),
  verdict-first_rule (lower message) platform_block_patterns,
)
