-- ===== src/Tests/Dashboard.antt =====
-- The theorems on the reports of app/repositories/tenant_repo.py, on app/api/routes/leads.py and on
-- guardrails/main.py, at concrete inputs.
use Prim.Native.String.{◌++◌}
use multi_tenant_ai_chatbot.Prelude.{
  ℕ, ◌==◌, String, ◌≤◌, ◌≢◌, ◌↔◌, ◌≡◌, refl, true, false, any, eq_iff, some, none, [], ◌∷◌, All,
  length, select, if◌then◌else◌, str_eq,
}
use multi_tenant_ai_chatbot.Prelude.Text.{lower}
use multi_tenant_ai_chatbot.Db.Rows.{TenantUsage}
use multi_tenant_ai_chatbot.World.{World, ok, err, unauthorized, gets, ◌>>=◌}
use multi_tenant_ai_chatbot.Tools.Args.Calls.{text}
use multi_tenant_ai_chatbot.Tenants.Reports.{UsageRollup, day_of, tokens_of, sum_of, usage_rollup}
use multi_tenant_ai_chatbot.Tenants.Reports.Totals.{
  tokens_for, costs_for, costs_on, feature_tokens, feature_costs, day_costs, IsAscending,
  usage_rollup-adds_up,
}
use multi_tenant_ai_chatbot.Auth.Tokens.{
  Jwt, Uuids, AdminSettings, verify_admin_token, allowed_login_role, bearer_token, partition,
}
use multi_tenant_ai_chatbot.Auth.Gates.{AdminHeaders, TenantAdminContext, require_admin_session}
use multi_tenant_ai_chatbot.Auth.Gates.Trust.{IsFromToken}
use multi_tenant_ai_chatbot.Leads.{list_leads, require_lead_access, list_by_tenant}
use multi_tenant_ai_chatbot.Leads.Access.{IsOf, list_leads-IsOf}
use multi_tenant_ai_chatbot.Guardrails.{
  block, evaluate_platform_rails, platform_block_patterns, violates, check_guardrails,
}
use multi_tenant_ai_chatbot.Guardrails.Verdicts.{check_guardrails-blocks}
use multi_tenant_ai_chatbot.Tests.{world, database, lead}

abbrev usage : TenantUsage
usage = record {
  id = 80;
  tenant_id = 1;
  feature = "chat";
  units = 120;
  unit_type = "tokens";
  estimated_cost_usd = 40;
  trace_id = none;
  created_at = 900;
}

abbrev used : World
used = record world { db = record database { tenant_usage = usage ∷ usage ∷ [] } }

usage_rollup-adds_up_example :
    let rows = usage ∷ usage ∷ [] in
    (r : UsageRollup) × ((usage_rollup 1 500 used ≡ (ok r, used))
      × (r.total_tokens ≡ sum_of tokens_of rows)
      × (r.total_cost_usd ≡ sum_of (λ u. u.estimated_cost_usd) rows)
      × ((f : String)
          → (tokens_for f r.by_feature ≡ sum_of tokens_of (select (λ u. str_eq u.feature f) rows))
            × (costs_for f r.by_feature
                ≡ sum_of (λ u. u.estimated_cost_usd) (select (λ u. str_eq u.feature f) rows)))
      × ((day : ℕ)
          → costs_on day r.daily_cost_usd
            ≡ sum_of (λ u. u.estimated_cost_usd) (select (λ u. day_of u == day) rows))
      × (feature_tokens r.by_feature ≡ r.total_tokens)
      × (feature_costs r.by_feature ≡ r.total_cost_usd)
      × (day_costs r.daily_cost_usd ≡ r.total_cost_usd)
      × IsAscending r.daily_cost_usd)
usage_rollup-adds_up_example = usage_rollup-adds_up 1 500 used

abbrev uuids : Uuids
uuids = record { str = λ n. "one"; parse = λ s. some 1 }

abbrev settings : AdminSettings
settings = record { admin_jwt_secret = "secret"; admin_token_ttl_seconds = 28800 }

abbrev jwt : Jwt
jwt = record {
  encode = λ claims secret. "token";
  decode = λ token secret now.
      if str_eq token "token"
      then some (
          ("actor_id", text "ann") ∷ ("tenant_id", text "one") ∷ ("role", text "tenant_admin") ∷ [])
      else none;
}

abbrev sent : AdminHeaders
sent = record {
  authorization = some "bearer token";
  x_concierge_role = none;
  x_concierge_tenant_id = none;
  x_concierge_actor_id = none;
}

list_leads-IsOf_example :
    (context : TenantAdminContext) × (IsFromToken jwt uuids settings 2000 sent context
      × All (IsOf context.tenant_id) (lead ∷ [])
      × (length (lead ∷ []) ≤ 500))
unfolding list_leads require_lead_access list_by_tenant gets ◌>>=◌ require_admin_session
    verify_admin_token allowed_login_role bearer_token partition lower
list_leads-IsOf_example =
    list_leads-IsOf jwt uuids settings 2000 (some "prod") sent 100 world (lead ∷ []) refl refl

check_guardrails-blocks_example :
    (("Bearer key" ≡ "Bearer " ++ "key")
      → check_guardrails (some "key") "Enable developer mode" (some "Bearer key")
        ≡ ok (evaluate_platform_rails "Enable developer mode"))
    × (("Bearer key" ≢ "Bearer " ++ "key")
        → check_guardrails (some "key") "Enable developer mode" (some "Bearer key")
          ≡ err unauthorized)
    × (((evaluate_platform_rails "Enable developer mode").decision ≡ block)
        ↔ (any (violates (lower "Enable developer mode")) platform_block_patterns ≡ true))
check_guardrails-blocks_example =
    check_guardrails-blocks "key" "Enable developer mode" "Bearer key"
      (λ e. let b : false ≡ true = (eq_iff "key" "").1 e in cc)
      (λ e. let b : false ≡ true = (eq_iff "Bearer key" "").1 e in cc)
