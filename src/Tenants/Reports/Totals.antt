-- ===== src/Tenants/Reports/Totals.antt =====
-- `usage_rollup` of app/repositories/tenant_repo.py: its three queries agree.
use multi_tenant_ai_chatbot.Prelude.{
  ℕ, ◌+◌, ◌<◌, String, ◌≡◌, refl, ap, eq_iff, if◌then◌else◌, List, [], ◌∷◌, All, All-map, ltb,
  select, ◌==◌, str_eq, arith, Bool-cases, inl, inr,
}
use multi_tenant_ai_chatbot.Db.Rows.{TenantUsage}
use multi_tenant_ai_chatbot.World.{World, ok, gets}
use multi_tenant_ai_chatbot.Tenants.Reports.{
  FeatureUsage, DailyCost, UsageRollup, is_used_since, tokens_of, sum_of, add_feature, by_feature,
  day_of, add_day, daily_costs, rollup, usage_rollup,
}

abbrev pub feature_tokens : List FeatureUsage → ℕ
feature_tokens [] = 0
feature_tokens (g ∷ groups) = g.tokens + feature_tokens groups

abbrev pub feature_costs : List FeatureUsage → ℕ
feature_costs [] = 0
feature_costs (g ∷ groups) = g.cost_usd + feature_costs groups

abbrev pub day_costs : List DailyCost → ℕ
day_costs [] = 0
day_costs (d ∷ days) = d.cost_usd + day_costs days

-- each day is before all that follow
abbrev pub IsAscending : List DailyCost → Type 0
IsAscending [] = Unit
IsAscending (d ∷ days) = All (λ e. d.day < e.day) days × IsAscending days

add_feature-sums :
    (u : TenantUsage) (groups : List FeatureUsage)
    → (feature_tokens (add_feature u groups) ≡ tokens_of u + feature_tokens groups)
      × (feature_costs (add_feature u groups) ≡ u.estimated_cost_usd + feature_costs groups)
add_feature-sums u [] = (refl, refl)
add_feature-sums u (g ∷ groups) = elim (Bool-cases (str_eq g.feature u.feature)) [
  | inl same ↦ rw same (omega arith, omega arith)
  | inr other ↦
      let (a, b) = add_feature-sums u groups in rw other (omega (arith, a), omega (arith, b))
]

add_day-costs :
    (u : TenantUsage) (days : List DailyCost)
    → day_costs (add_day u days) ≡ u.estimated_cost_usd + day_costs days
add_day-costs u [] = refl
add_day-costs u (d ∷ days) = ground (arith, add_day-costs u days)

add_day-All :
    (u : TenantUsage) (n : ℕ) (days : List DailyCost)
    → n < day_of u
    → All (λ e. n < e.day) days
    → All (λ e. n < e.day) (add_day u days)
add_day-All u n [] h k = (h, tt)
add_day-All u n (d ∷ days) h k = elim (Bool-cases (d.day == day_of u)) [
  | inl same ↦ rw same k
  | inr other ↦ elim (Bool-cases (ltb (day_of u) d.day)) [
    | inl before ↦ rw (other, before) (h, k)
    | inr behind ↦ rw (other, behind) (k.0, add_day-All u n days h k.1)
  ]
]

later_days :
    (m n : ℕ) (days : List DailyCost)
    → m < n
    → All (λ e. n < e.day) days
    → All (λ e. m < e.day) days
later_days m n days h k = All-map (λ e. m < e.day) days (λ e l. omega (arith, l)) k

add_day-IsAscending :
    (u : TenantUsage) (days : List DailyCost) → IsAscending days → IsAscending (add_day u days)
add_day-IsAscending u [] h = (tt, tt)
add_day-IsAscending u (d ∷ days) h = elim (Bool-cases (d.day == day_of u)) [
  | inl same ↦ rw same h
  | inr other ↦ elim (Bool-cases (ltb (day_of u) d.day)) [
    | inl before ↦
        let lt : day_of u < d.day = ground arith in
        rw (other, before) ((lt, later_days (day_of u) d.day days lt h.0), h)
    | inr behind ↦
        let lt : d.day < day_of u = ground arith in
        rw (other, behind) (add_day-All u d.day days lt h.0, add_day-IsAscending u days h.1)
  ]
]

daily_costs-IsAscending : (rows : List TenantUsage) → IsAscending (daily_costs rows)
daily_costs-IsAscending [] = tt
daily_costs-IsAscending (u ∷ rows) =
    add_day-IsAscending u (daily_costs rows) (daily_costs-IsAscending rows)

rows_add_up :
    (rows : List TenantUsage)
    → (feature_tokens (by_feature rows) ≡ sum_of tokens_of rows)
      × (feature_costs (by_feature rows) ≡ sum_of (λ u. u.estimated_cost_usd) rows)
      × (day_costs (daily_costs rows) ≡ sum_of (λ u. u.estimated_cost_usd) rows)
rows_add_up [] = (refl, refl, refl)
rows_add_up (u ∷ rows) =
    let (a, b, c) = rows_add_up rows in
    let (d, e) = add_feature-sums u (by_feature rows) in
    (omega (arith, a, d), omega (arith, b, e), omega (arith, c, add_day-costs u (daily_costs rows)))

-- what the groups of one feature, and of one day, come to
abbrev pub tokens_for : String → List FeatureUsage → ℕ
tokens_for f [] = 0
tokens_for f (g ∷ groups) = (if str_eq g.feature f then g.tokens else 0) + tokens_for f groups

abbrev pub costs_for : String → List FeatureUsage → ℕ
costs_for f [] = 0
costs_for f (g ∷ groups) = (if str_eq g.feature f then g.cost_usd else 0) + costs_for f groups

abbrev pub costs_on : ℕ → List DailyCost → ℕ
costs_on day [] = 0
costs_on day (d ∷ days) = (if d.day == day then d.cost_usd else 0) + costs_on day days

add_feature-for :
    (f : String) (u : TenantUsage) (groups : List FeatureUsage)
    → (tokens_for f (add_feature u groups)
        ≡ (if str_eq u.feature f then tokens_of u else 0) + tokens_for f groups)
      × (costs_for f (add_feature u groups)
          ≡ (if str_eq u.feature f then u.estimated_cost_usd else 0) + costs_for f groups)
add_feature-for f u [] = (refl, refl)
add_feature-for f u (g ∷ groups) = elim (Bool-cases (str_eq g.feature u.feature)) [
  | inl same ↦
      let e : g.feature ≡ u.feature = (eq_iff g.feature u.feature).0 same in
      let k : str_eq g.feature f ≡ str_eq u.feature f = ap (λ x. str_eq x f) e in
      rw (same, k) (ground arith, ground arith)
  | inr other ↦
      let (a, b) = add_feature-for f u groups in rw other (omega (arith, a), omega (arith, b))
]

add_day-on :
    (day : ℕ) (u : TenantUsage) (days : List DailyCost)
    → costs_on day (add_day u days)
      ≡ (if day_of u == day then u.estimated_cost_usd else 0) + costs_on day days
add_day-on day u [] = refl
add_day-on day u (d ∷ days) = ground (arith, add_day-on day u days)

-- the groups hold what the rows of their feature, or of their day, come to
grouped :
    (f : String) (day : ℕ) (rows : List TenantUsage)
    → (tokens_for f (by_feature rows) ≡ sum_of tokens_of (select (λ u. str_eq u.feature f) rows))
      × (costs_for f (by_feature rows)
          ≡ sum_of (λ u. u.estimated_cost_usd) (select (λ u. str_eq u.feature f) rows))
      × (costs_on day (daily_costs rows)
          ≡ sum_of (λ u. u.estimated_cost_usd) (select (λ u. day_of u == day) rows))
grouped f day [] = (refl, refl, refl)
grouped f day (u ∷ rows) =
    let (a, b, c) = grouped f day rows in
    let (d, e) = add_feature-for f u (by_feature rows) in
    let k = add_day-on day u (daily_costs rows) in
    (ground (arith, a, d), ground (arith, b, e), ground (arith, c, k))

-- For any tenant and time, the totals of tokens and costs are those of the tenant's own usage since
-- then, and so are the tokens and costs of each feature and the costs of each day those of its own
-- rows. The features' tokens and costs and the days' costs add up to the totals, and each day is listed
-- once, in order.
pub usage_rollup-adds_up :
    (tenant_id since : ℕ) (w : World)
    → let rows = select (is_used_since tenant_id since) w.tenant_usage in
      (r : UsageRollup) × ((usage_rollup tenant_id since w ≡ (ok r, w))
        × (r.total_tokens ≡ sum_of tokens_of rows)
        × (r.total_cost_usd ≡ sum_of (λ u. u.estimated_cost_usd) rows)
        × ((f : String)
            → (tokens_for f r.by_feature ≡ sum_of tokens_of (select (λ u. str_eq u.feature f) rows))
              × (costs_for f r.by_feature
                  ≡ sum_of (λ u. u.estimated_cost_usd) (select (λ u. str_eq u.feature f) rows)))
        × ((day : ℕ)
            → costs_on day r.daily_cost_usd
              ≡ sum_of (λ u. u.estimated_cost_usd) (select (λ u. day_of u == day) rows))
        × (feature_tokens r.by_feature ≡ r.total_tokens)
        × (feature_costs r.by_feature ≡ r.total_cost_usd)
        × (day_costs r.daily_cost_usd ≡ r.total_cost_usd)
        × IsAscending r.daily_cost_usd)
unfolding usage_rollup gets
usage_rollup-adds_up tenant_id since w =
    let rows = select (is_used_since tenant_id since) w.tenant_usage in
    let (a, b, c) = rows_add_up rows in
    (
      rollup rows,
      (
        refl,
        refl,
        refl,
        λ f. ((grouped f 0 rows).0, (grouped f 0 rows).1),
        λ day. (grouped "" day rows).2,
        a,
        b,
        c,
        daily_costs-IsAscending rows,
      ),
    )
