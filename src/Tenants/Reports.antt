-- ===== src/Tenants/Reports.antt =====
-- The reports of app/repositories/tenant_repo.py. A cost is in millionths of a dollar, and a day is
-- counted from time zero. Rows of one time are listed in the reverse order of their insertion.
pub mod Totals
use mathlib.Core.List.{reverse}
use multi_tenant_ai_chatbot.Prelude.{
  ℕ, ◌+◌, ◌/◌, String, Bool, ◌&&◌, Option, List, [], ◌∷◌, select, find_row, ltb, leb, ◌==◌, str_eq,
  if◌then◌else◌,
}
use multi_tenant_ai_chatbot.Db.Rows.{Tenant, AuditLog, TenantUsage}
use multi_tenant_ai_chatbot.World.{World, Action, gets}

unfoldable pub get_by_name : String → Action (Option Tenant)
get_by_name name = gets (λ w. find_row (λ t. str_eq t.name name) w.tenants)

unfoldable pub list_audit_logs : (tenant_id : ℕ) → Action (List AuditLog)
list_audit_logs tenant_id =
    gets (λ w. reverse (select (λ a. a.tenant_id == tenant_id) w.audit_logs))

-- `list_all`, and its alias `list_for_manager`
unfoldable pub list_all : Action (List Tenant)
list_all = gets (λ w. reverse w.tenants)

-- the rows that the three queries of `usage_rollup` read
abbrev pub is_used_since : (tenant_id since : ℕ) → TenantUsage → Bool
is_used_since tenant_id since u = u.tenant_id == tenant_id && leb since u.created_at

-- `CASE WHEN unit_type = 'tokens' THEN units ELSE 0 END`
abbrev pub tokens_of : TenantUsage → ℕ
tokens_of u = if str_eq u.unit_type "tokens" then u.units else 0

abbrev pub sum_of : (TenantUsage → ℕ) → List TenantUsage → ℕ
sum_of f [] = 0
sum_of f (u ∷ rows) = f u + sum_of f rows

pub record FeatureUsage : Type 0 where
  pub feature : String
  pub tokens : ℕ
  pub cost_usd : ℕ

-- a row added to the group of its feature
abbrev pub add_feature : TenantUsage → List FeatureUsage → List FeatureUsage
add_feature u [] =
    record { feature = u.feature; tokens = tokens_of u; cost_usd = u.estimated_cost_usd } ∷ []
add_feature u (g ∷ groups) =
    if str_eq g.feature u.feature
    then record g { tokens = g.tokens + tokens_of u; cost_usd = g.cost_usd + u.estimated_cost_usd }
      ∷ groups
    else g ∷ add_feature u groups

-- `GROUP BY feature`
abbrev pub by_feature : List TenantUsage → List FeatureUsage
by_feature [] = []
by_feature (u ∷ rows) = add_feature u (by_feature rows)

pub record DailyCost : Type 0 where
  pub day : ℕ
  pub cost_usd : ℕ

-- `CAST(created_at AS DATE)`
abbrev pub day_of : TenantUsage → ℕ
day_of u = u.created_at / 86400

-- a row added to the group of its day, the groups in the order of the days
abbrev pub add_day : TenantUsage → List DailyCost → List DailyCost
add_day u [] = record { day = day_of u; cost_usd = u.estimated_cost_usd } ∷ []
add_day u (d ∷ days) =
    if d.day == day_of u
    then record d { cost_usd = d.cost_usd + u.estimated_cost_usd } ∷ days
    else if ltb (day_of u) d.day
    then record { day = day_of u; cost_usd = u.estimated_cost_usd } ∷ d ∷ days
    else d ∷ add_day u days

-- `GROUP BY day ORDER BY day`
abbrev pub daily_costs : List TenantUsage → List DailyCost
daily_costs [] = []
daily_costs (u ∷ rows) = add_day u (daily_costs rows)

pub record UsageRollup : Type 0 where
  pub total_tokens : ℕ
  pub total_cost_usd : ℕ
  pub by_feature : List FeatureUsage
  pub daily_cost_usd : List DailyCost

abbrev pub rollup : List TenantUsage → UsageRollup
rollup rows = record {
  total_tokens = sum_of tokens_of rows;
  total_cost_usd = sum_of (λ u. u.estimated_cost_usd) rows;
  by_feature = by_feature rows;
  daily_cost_usd = daily_costs rows;
}

unfoldable pub usage_rollup : (tenant_id since : ℕ) → Action UsageRollup
usage_rollup tenant_id since =
    gets (λ w. rollup (select (is_used_since tenant_id since) w.tenant_usage))
