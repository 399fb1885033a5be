-- ===== src/Widgets/Memory.antt =====
-- app/repositories/widget_repo.py: `InMemoryWidgetRepository`, whose rows are a dict by widget.
pub mod Laws
use multi_tenant_ai_chatbot.Prelude.{
  ℕ, Bool, Option, none, some, List, [], ◌∷◌, ◌==◌, if◌then◌else◌,
}
use multi_tenant_ai_chatbot.Widgets.Store.{
  WidgetConfigDomain, WidgetValues, WidgetRepository, with_values,
}

-- `_rows`
abbrev pub Rows : Type 0
Rows = List (ℕ × WidgetConfigDomain)

abbrev pub row_of_widget : ℕ → Rows → Option WidgetConfigDomain
row_of_widget key [] = none
row_of_widget key ((k, row) ∷ rows) = if k == key then some row else row_of_widget key rows

abbrev pub put : ℕ → WidgetConfigDomain → Rows → Rows
put key row [] = (key, row) ∷ []
put key row ((k, old) ∷ rows) = if k == key then (k, row) ∷ rows else (k, old) ∷ put key row rows

abbrev pub row_of_tenant : ℕ → Rows → Option WidgetConfigDomain
row_of_tenant tenant_id [] = none
row_of_tenant tenant_id ((k, row) ∷ rows) =
    if row.tenant_id == tenant_id then some row else row_of_tenant tenant_id rows

abbrev update_existing :
    WidgetValues → Rows → Option WidgetConfigDomain → Option WidgetConfigDomain × Rows
update_existing values rows none = (none, rows)
update_existing values rows (some existing) =
    let updated = with_values values existing in (some updated, put existing.widget_id updated rows)

unfoldable pub memory_repository : WidgetRepository Rows
memory_repository = record {
  get_by_widget_id = row_of_widget;
  get_by_tenant_id = row_of_tenant;
  update_by_tenant_id =
      λ tenant_id values rows. update_existing values rows (row_of_tenant tenant_id rows);
}
