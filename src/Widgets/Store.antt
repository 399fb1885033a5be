-- ===== src/Widgets/Store.antt =====
-- The interface `WidgetRepository` of app/repositories/widget_repo.py, over any state, with the laws
-- that the services rely on, and `WidgetConfigDomain` of app/domain/widget.py.
use multi_tenant_ai_chatbot.Prelude.{ℕ, String, Bool, Option, none, some, List, ◌≡◌, ◌≢◌, []}
use multi_tenant_ai_chatbot.Db.Rows.{TenantStatus}
use multi_tenant_ai_chatbot.Tools.Args.Calls.{ArgValue}

abbrev pub Theme : Type 0
Theme = List (String × ArgValue)

pub record WidgetConfigDomain : Type 0 where
  pub id : ℕ
  pub tenant_id : ℕ
  pub widget_id : ℕ
  pub allowed_origins : List String
  pub enabled : Bool
  pub tenant_status : TenantStatus
  pub theme_json : Option Theme
  pub greeting : Option String

-- the values that `update_by_tenant_id` writes
pub record WidgetValues : Type 0 where
  pub allowed_origins : List String
  pub enabled : Bool
  pub theme_json : Option Theme
  pub greeting : Option String

pub record WidgetRepository (S : Type 0) : Type 0 where
  pub get_by_widget_id : (widget_id : ℕ) → S → Option WidgetConfigDomain
  pub get_by_tenant_id : (tenant_id : ℕ) → S → Option WidgetConfigDomain
  pub update_by_tenant_id : (tenant_id : ℕ) → WidgetValues → S → Option WidgetConfigDomain × S

abbrev pub with_values : WidgetValues → WidgetConfigDomain → WidgetConfigDomain
with_values values config = record config {
  allowed_origins = values.allowed_origins;
  enabled = values.enabled;
  theme_json = values.theme_json;
  greeting = values.greeting;
}

abbrev pub values_of : WidgetConfigDomain → WidgetValues
values_of config = record {
  allowed_origins = config.allowed_origins;
  enabled = config.enabled;
  theme_json = config.theme_json;
  greeting = config.greeting;
}

-- an absent theme or greeting is `None`, never an empty one
abbrev pub IsPlain : WidgetValues → Type 0
IsPlain values = (values.theme_json ≢ some []) × (values.greeting ≢ some "")

-- What a service relies on: a row that is read back after an update has the values that were written,
-- what is missing stays missing, and the rows of other tenants stay as they are.
pub record Laws {S : Type 0} (repo : WidgetRepository S) (IsValid : S → Type 0) : Type 0 where
  pub update_none :
      (t : ℕ) (values : WidgetValues) (s : S)
      → repo.get_by_tenant_id t s ≡ none
      → (repo.update_by_tenant_id t values s).0 ≡ none
  pub update_some :
      (t : ℕ) (values : WidgetValues) (s : S) (config : WidgetConfigDomain)
      → IsValid s
      → IsPlain values
      → repo.get_by_tenant_id t s ≡ some config
      → let (returned, s') = repo.update_by_tenant_id t values s in
        (returned ≡ some (with_values values config))
        × ((repo.get_by_tenant_id t s' ≡ some (with_values values config)) × IsValid s')
  pub update_other :
      (t u : ℕ) (values : WidgetValues) (s : S)
      → IsValid s
      → t ≢ u
      → repo.get_by_tenant_id u (repo.update_by_tenant_id t values s).1 ≡ repo.get_by_tenant_id u s
