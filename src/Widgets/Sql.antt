-- ===== src/Widgets/Sql.antt =====
-- app/repositories/widget_repo.py: `SqlWidgetRepository`, on the tables `widget_configs` and `tenants`.
pub mod Laws
use multi_tenant_ai_chatbot.Prelude.{
  ℕ, String, Bool, Option, none, some, List, [], ◌∷◌, find_row, update_where, any, or_else, ◌==◌,
  str_eq, if◌then◌else◌,
}
use multi_tenant_ai_chatbot.Db.Rows.{TenantStatus, Tenant}
use multi_tenant_ai_chatbot.Widgets.Store.{
  Theme, WidgetConfigDomain, WidgetValues, WidgetRepository,
}

-- `WidgetConfig` of app/db/models.py
pub record WidgetConfig : Type 0 where
  pub id : ℕ
  pub tenant_id : ℕ
  pub widget_id : ℕ
  pub allowed_origins_json : List String
  pub theme_json : Theme
  pub greeting : String
  pub enabled : Bool

-- the two tables
pub record WidgetTables : Type 0 where
  pub tenants : List Tenant
  pub widget_configs : List WidgetConfig

-- `row.theme_json if row.theme_json else None`
abbrev pub theme_or_none : Theme → Option Theme
theme_or_none [] = none
theme_or_none (entry ∷ theme) = some (entry ∷ theme)

abbrev pub text_or_none : String → Option String
text_or_none s = if str_eq s "" then none else some s

-- `_to_domain`
abbrev pub to_domain : WidgetConfig → TenantStatus → WidgetConfigDomain
to_domain row tenant_status = record {
  id = row.id;
  tenant_id = row.tenant_id;
  widget_id = row.widget_id;
  allowed_origins = row.allowed_origins_json;
  enabled = row.enabled;
  tenant_status = tenant_status;
  theme_json = theme_or_none row.theme_json;
  greeting = text_or_none row.greeting;
}

-- the first row of the join that passes a test
abbrev pub joined :
    Option Tenant → WidgetConfig → Option WidgetConfigDomain → Option WidgetConfigDomain
joined none row rest = rest
joined (some tenant) row rest = some (to_domain row tenant.status)

abbrev pub first_joined :
    (WidgetConfig → Bool) → List Tenant → List WidgetConfig → Option WidgetConfigDomain
first_joined test tenants [] = none
first_joined test tenants (row ∷ rows) =
    let rest = first_joined test tenants rows in
    if test row then joined (find_row (λ t. t.id == row.tenant_id) tenants) row rest else rest

abbrev pub write : WidgetValues → WidgetConfig → WidgetConfig
write values row = record row {
  allowed_origins_json = values.allowed_origins;
  enabled = values.enabled;
  theme_json = or_else values.theme_json [];
  greeting = or_else values.greeting "";
}

abbrev pub config_of_tenant : ℕ → WidgetTables → Option WidgetConfigDomain
config_of_tenant tenant_id tables =
    first_joined (λ row. row.tenant_id == tenant_id) tables.tenants tables.widget_configs

abbrev pub updated : ℕ → WidgetValues → WidgetTables → WidgetTables
updated tenant_id values tables = record tables {
  widget_configs =
      update_where (λ row. row.tenant_id == tenant_id) (write values) tables.widget_configs;
}

unfoldable pub sql_repository : WidgetRepository WidgetTables
sql_repository = record {
  get_by_widget_id = λ widget_id tables.
      first_joined (λ row. row.widget_id == widget_id) tables.tenants tables.widget_configs;
  get_by_tenant_id = config_of_tenant;
  update_by_tenant_id = λ tenant_id values tables.
      if any (λ row. row.tenant_id == tenant_id) tables.widget_configs
      then (
        config_of_tenant tenant_id (updated tenant_id values tables),
        updated tenant_id values tables,
      )
      else (none, tables);
}
