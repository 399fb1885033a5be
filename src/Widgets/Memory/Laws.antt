-- ===== src/Widgets/Memory/Laws.antt =====
-- app/repositories/widget_repo.py: `InMemoryWidgetRepository` keeps the laws of the interface, where
-- its dict has every row under the row's own widget.
use multi_tenant_ai_chatbot.Prelude.{
  ℕ, ◌≡◌, refl, ap, ◌∙◌, sym, false, Option, none, some, [], ◌∷◌, ◌==◌, ==-refl, ==-ne, eq_of_==,
  arith, Bool-cases, Option-cases, inl, inr,
}
use multi_tenant_ai_chatbot.Widgets.Store.{WidgetConfigDomain, with_values, Laws}
use multi_tenant_ai_chatbot.Widgets.Sql.{WidgetTables, sql_repository}
use multi_tenant_ai_chatbot.Widgets.Sql.Laws.{sql_repository-Laws}
use multi_tenant_ai_chatbot.Widgets.Memory.{
  Rows, row_of_widget, put, row_of_tenant, memory_repository,
}

abbrev pub HasOwnKeys : Rows → Type 0
HasOwnKeys [] = Unit
HasOwnKeys ((k, row) ∷ rows) = (k ≡ row.widget_id) × (row_of_widget k rows ≡ none) × HasOwnKeys rows

abbrev no_row : Option WidgetConfigDomain
no_row = none

-- the first row of a tenant is found under its widget
own_widget :
    (t : ℕ) (rows : Rows) (row : WidgetConfigDomain)
    → HasOwnKeys rows
    → row_of_tenant t rows ≡ some row
    → row_of_widget row.widget_id rows ≡ some row
own_widget t [] row valid h = cc
own_widget t ((k, first) ∷ rows) row (own, new, valid) h =
    elim (Bool-cases (first.tenant_id == t)) [
      | inl mine ↦
          let e : some first ≡ some row = rw mine at h in
          let f : first ≡ row = cc in
          let g : k ≡ row.widget_id = own ∙ ap (λ r. r.widget_id) f in
          rw (g, ==-refl row.widget_id) (ap (λ r. some r) f)
      | inr other ↦
          let rest : row_of_tenant t rows ≡ some row = rw other at h in
          let found = own_widget t rows row valid rest in
          elim (Bool-cases (k == row.widget_id)) [
            | inl same ↦
                let g : k ≡ row.widget_id = eq_of_== k row.widget_id same in
                let gone : row_of_widget row.widget_id rows ≡ none = rw g at new in
                absurd (let k : no_row ≡ some row = sym gone ∙ found in cc)
            | inr apart ↦ rw apart found
          ]
    ]

put-new :
    (k key : ℕ) (row : WidgetConfigDomain) (rows : Rows)
    → (key == k) ≡ false
    → row_of_widget k rows ≡ none
    → row_of_widget k (put key row rows) ≡ none
put-new k key row [] ne h = rw ne refl
put-new k key row ((j, old) ∷ rows) ne h = ground (arith, put-new k key row rows ne)

put-HasOwnKeys :
    (row old : WidgetConfigDomain) (rows : Rows)
    → HasOwnKeys rows
    → row_of_widget row.widget_id rows ≡ some old
    → HasOwnKeys (put row.widget_id row rows)
put-HasOwnKeys row old [] valid h = cc
put-HasOwnKeys row old ((k, first) ∷ rows) (own, new, valid) h =
    elim (Bool-cases (k == row.widget_id)) [
      | inl same ↦ rw same (eq_of_== k row.widget_id same, new, valid)
      | inr apart ↦
          let rest : row_of_widget row.widget_id rows ≡ some old = rw apart at h in
          let apart' : (row.widget_id == k) ≡ false = ground arith in
          rw apart (
            own,
            put-new k row.widget_id row rows apart' new,
            put-HasOwnKeys row old rows valid rest,
          )
    ]

put-reads_back :
    (t : ℕ) (row old : WidgetConfigDomain) (rows : Rows)
    → HasOwnKeys rows
    → row.tenant_id ≡ t
    → row.widget_id ≡ old.widget_id
    → row_of_tenant t rows ≡ some old
    → row_of_tenant t (put row.widget_id row rows) ≡ some row
put-reads_back t row old [] valid mine keeps h = cc
put-reads_back t row old ((k, first) ∷ rows) (own, new, valid) mine keeps h =
    elim (Bool-cases (k == row.widget_id)) [
      | inl same ↦ rw same (rw (mine, ==-refl t) refl)
      | inr apart ↦ elim (Bool-cases (first.tenant_id == t)) [
        | inl first_mine ↦
            let e : some first ≡ some old = rw first_mine at h in
            let f : first ≡ old = cc in
            let g : k ≡ row.widget_id = own ∙ ap (λ r. r.widget_id) f ∙ sym keeps in
            absurd (ground (arith, g))
        | inr other ↦
            let rest : row_of_tenant t rows ≡ some old = rw other at h in
            rw apart (rw other (put-reads_back t row old rows valid mine keeps rest))
      ]
    ]

put-others :
    (u : ℕ) (row old : WidgetConfigDomain) (rows : Rows)
    → (row.tenant_id == u) ≡ false
    → (old.tenant_id == u) ≡ false
    → row_of_widget row.widget_id rows ≡ some old
    → row_of_tenant u (put row.widget_id row rows) ≡ row_of_tenant u rows
put-others u row old [] ne me h = cc
put-others u row old ((k, first) ∷ rows) ne me h = elim (Bool-cases (k == row.widget_id)) [
  | inl same ↦
      let e : some first ≡ some old = rw same at h in
      let f : first ≡ old = cc in
      let g : (first.tenant_id == u) ≡ false = ap (λ r. r.tenant_id == u) f ∙ me in
      rw same (rw (ne, g) refl)
  | inr apart ↦
      let rest : row_of_widget row.widget_id rows ≡ some old = rw apart at h in
      rw apart (ground (arith, put-others u row old rows ne me rest))
]

tenant_of :
    (t : ℕ) (rows : Rows) (row : WidgetConfigDomain)
    → row_of_tenant t rows ≡ some row
    → row.tenant_id ≡ t
tenant_of t [] row h = cc
tenant_of t ((k, first) ∷ rows) row h = ground (arith, tenant_of t rows row)

-- The in-memory store reads back what was written, for the tenant that wrote it, and for no other.
pub memory_repository-Laws : Laws memory_repository HasOwnKeys
unfolding memory_repository
memory_repository-Laws = record {
  update_none = λ t values rows h. rw h refl;
  update_some = λ t values rows config valid plain h.
      let found = own_widget t rows config valid h in
      rw h (
        refl,
        (
          put-reads_back t (with_values values config) config rows valid (tenant_of t rows config h)
              refl h,
          put-HasOwnKeys (with_values values config) config rows valid found,
        ),
      );
  update_other = λ t u values rows valid ne. elim (Option-cases (row_of_tenant t rows)) [
    | inl missing ↦ rw missing refl
    | inr (config, h) ↦
        let apart : (config.tenant_id == u) ≡ false =
          rw (tenant_of t rows config h) (==-ne t u ne) in
        rw h (
          put-others u (with_values values config) config rows apart apart
            (own_widget t rows config valid h))
  ];
}

-- Both stores keep what the widget services rely on: a config whose theme and greeting are absent or not
-- empty reads back as it was written, a missing one is not made, and whatever is written the configs of
-- other tenants stay as they are. For the dict this holds where its rows are under their own widgets,
-- which writing such a config keeps; for the tables, in any state.
pub stores-Laws :
    Laws memory_repository HasOwnKeys × Laws sql_repository (λ (tables : WidgetTables). Unit)
stores-Laws = (memory_repository-Laws, sql_repository-Laws)
