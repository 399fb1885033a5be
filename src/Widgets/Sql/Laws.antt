-- ===== src/Widgets/Sql/Laws.antt =====
-- app/repositories/widget_repo.py: `SqlWidgetRepository` keeps the laws of the interface.
use multi_tenant_ai_chatbot.Prelude.{
  ℕ, String, ◌≡◌, ◌≢◌, refl, ap, ◌∙◌, true, Option, none, some, List, [], ◌∷◌, find_row,
  update_where, any, or_else, ◌==◌, str_eq, eq_iff, arith, Bool-cases, Option-cases, inl, inr,
}
use multi_tenant_ai_chatbot.Db.Rows.{TenantStatus, Tenant}
use multi_tenant_ai_chatbot.Widgets.Store.{
  Theme, WidgetConfigDomain, WidgetValues, with_values, IsPlain, Laws,
}
use multi_tenant_ai_chatbot.Widgets.Sql.{
  WidgetConfig, theme_or_none, text_or_none, to_domain, first_joined, write, sql_repository,
}

theme_back : (theme : Option Theme) → theme ≢ some [] → theme_or_none (or_else theme []) ≡ theme
theme_back none h = refl
theme_back (some []) h = absurd (h refl)
theme_back (some (entry ∷ theme)) h = refl

greeting_back :
    (greeting : Option String) → greeting ≢ some "" → text_or_none (or_else greeting "") ≡ greeting
greeting_back none h = refl
greeting_back (some s) h = elim (Bool-cases (str_eq s "")) [
  | inl b ↦ absurd (h (rw ((eq_iff s "").0 b) refl))
  | inr b ↦ rw b refl
]

to_domain-write :
    (values : WidgetValues) (row : WidgetConfig) (status : TenantStatus)
    → IsPlain values
    → to_domain (write values row) status ≡ with_values values (to_domain row status)
to_domain-write values row status plain =
    rw (theme_back values.theme_json plain.0, greeting_back values.greeting plain.1) refl

module _ (t : ℕ) (values : WidgetValues) (tenants : List Tenant) where
  written :
      (rows : List WidgetConfig) (config : WidgetConfigDomain)
      → IsPlain values
      → first_joined (λ row. row.tenant_id == t) tenants rows ≡ some config
      → first_joined
          (λ row. row.tenant_id == t)
          tenants
          (update_where (λ row. row.tenant_id == t) (write values) rows)
        ≡ some (with_values values config)
  written [] config plain h = cc
  written (row ∷ rows) config plain h = elim (Bool-cases (row.tenant_id == t)) [
    | inl own ↦ elim (Option-cases (find_row (λ (x : Tenant). x.id == row.tenant_id) tenants)) [
      | inl missing ↦
          let rest : first_joined (λ row. row.tenant_id == t) tenants rows ≡ some config =
            rw (own, missing) at h in
          rw (own, missing) (rw own (written rows config plain rest))
      | inr (tenant, found) ↦
          let here : some (to_domain row tenant.status) ≡ some config = rw (own, found) at h in
          let e : to_domain row tenant.status ≡ config = cc in
          rw (own, found)
            (rw own (
              ap (λ c. some c)
                (to_domain-write values row tenant.status plain ∙ ap (with_values values) e)))
    ]
    | inr other ↦
        let rest : first_joined (λ row. row.tenant_id == t) tenants rows ≡ some config =
          rw other at h in
        rw other (rw other (written rows config plain rest))
  ]

  still_missing :
      (rows : List WidgetConfig)
      → first_joined (λ row. row.tenant_id == t) tenants rows ≡ none
      → first_joined
          (λ row. row.tenant_id == t)
          tenants
          (update_where (λ row. row.tenant_id == t) (write values) rows)
        ≡ none
  still_missing [] h = refl
  still_missing (row ∷ rows) h = elim (Bool-cases (row.tenant_id == t)) [
    | inl own ↦ elim (Option-cases (find_row (λ (x : Tenant). x.id == row.tenant_id) tenants)) [
      | inl missing ↦
          let rest : first_joined (λ row. row.tenant_id == t) tenants rows ≡ none =
            rw (own, missing) at h in
          rw (own, missing) (rw own (still_missing rows rest))
      | inr (tenant, found) ↦
          let here : some (to_domain row tenant.status) ≡ none = rw (own, found) at h in absurd cc
    ]
    | inr other ↦
        let rest : first_joined (λ row. row.tenant_id == t) tenants rows ≡ none = rw other at h in
        rw other (rw other (still_missing rows rest))
  ]

  others :
      (u : ℕ) (rows : List WidgetConfig)
      → t ≢ u
      → first_joined
          (λ row. row.tenant_id == u)
          tenants
          (update_where (λ row. row.tenant_id == t) (write values) rows)
        ≡ first_joined (λ row. row.tenant_id == u) tenants rows
  others u [] h = refl
  others u (row ∷ rows) h = ground (arith, others u rows h)

  there :
      (rows : List WidgetConfig) (config : WidgetConfigDomain)
      → first_joined (λ row. row.tenant_id == t) tenants rows ≡ some config
      → any (λ row. row.tenant_id == t) rows ≡ true
  there [] config h = cc
  there (row ∷ rows) config h = ground (arith, there rows config)

-- The SQL store reads back what was written, for the tenant that wrote it, and for no other.
pub sql_repository-Laws : Laws sql_repository (λ tables. Unit)
unfolding sql_repository
sql_repository-Laws = record {
  update_none = λ t values s h.
      elim (Bool-cases (any (λ row. row.tenant_id == t) s.widget_configs)) [
        | inl b ↦ rw b (still_missing t values s.tenants s.widget_configs h)
        | inr b ↦ rw b refl
      ];
  update_some = λ t values s config valid plain h.
      rw (there t values s.tenants s.widget_configs config h)
        (rw (written t values s.tenants s.widget_configs config plain h) (refl, (refl, tt)));
  update_other = λ t u values s valid ne.
      elim (Bool-cases (any (λ row. row.tenant_id == t) s.widget_configs)) [
        | inl b ↦ rw b (others t values s.tenants u s.widget_configs ne)
        | inr b ↦ rw b refl
      ];
}
