-- ===== src/Settings.antt =====
-- app/services/tenant_settings.py and app/repositories/tenant_settings_repo.py. Pydantic's reading of an
-- integer is the parameter `read_int`.
pub mod Bounds
use multi_tenant_ai_chatbot.Prelude.{
  ℕ, ◌*◌, String, Bool, ◌&&◌, not, Option, none, some, List, [], ◌∷◌, ◌++◌, find_row, update_where,
  leb, ◌==◌, str_eq, if◌then◌else◌,
}
use multi_tenant_ai_chatbot.Prelude.Dict.{lookup, text_key}
use multi_tenant_ai_chatbot.Db.Rows.{Json, number, TenantSettings}
use multi_tenant_ai_chatbot.World.{
  World, Action, settings_forbidden, settings_invalid, pure, gets, modify_db, or_raise, raise_if,
  uuid4, ◌>>=◌, ◌>>◌,
}
use multi_tenant_ai_chatbot.Tenants.Repository.{add_audit_log}
use multi_tenant_ai_chatbot.Tools.Args.Calls.{ArgValue, only_fields}

abbrev pub ttl_min : ℕ
ttl_min = 3600

abbrev pub ttl_max : ℕ
ttl_max = 30 * 24 * 3600

abbrev pub rate_min : ℕ
rate_min = 1

abbrev pub rate_max : ℕ
rate_max = 1000

-- `TenantSettingsBody`, validated
pub record TenantSettingsBody : Type 0 where
  pub default_invite_ttl_seconds : ℕ
  pub rate_limit_chat_per_minute : ℕ
  pub rate_limit_token_per_minute : ℕ

abbrev in_range : (low high : ℕ) → Option ℕ → Option ℕ
in_range low high none = none
in_range low high (some n) = if leb low n && leb n high then some n else none

abbrev int_field : (ArgValue → Option ℕ) → (low high : ℕ) → Option ArgValue → Option ℕ
int_field read_int low high none = none
int_field read_int low high (some v) = in_range low high (read_int v)

abbrev settings_body : Option ℕ → Option ℕ → Option ℕ → Option TenantSettingsBody
settings_body (some ttl) (some chat) (some token) = some (record {
  default_invite_ttl_seconds = ttl;
  rate_limit_chat_per_minute = chat;
  rate_limit_token_per_minute = token;
})
settings_body _ _ _ = none

-- `TenantSettingsBody.model_validate`
unfoldable pub validated_settings :
    (ArgValue → Option ℕ) → List (String × ArgValue) → Option TenantSettingsBody
validated_settings read_int body =
    let fields =
      "default_invite_ttl_seconds" ∷ "rate_limit_chat_per_minute" ∷ "rate_limit_token_per_minute"
      ∷ [] in
    if only_fields fields body
    then settings_body
        (int_field read_int ttl_min ttl_max (lookup "default_invite_ttl_seconds" body))
        (int_field read_int rate_min rate_max (lookup "rate_limit_chat_per_minute" body))
        (int_field read_int rate_min rate_max (lookup "rate_limit_token_per_minute" body))
    else none

-- the column defaults
abbrev pub default_settings : (id tenant_id : ℕ) → TenantSettings
default_settings id tenant_id = record {
  id = id;
  tenant_id = tenant_id;
  default_invite_ttl_seconds = 604800;
  rate_limit_chat_per_minute = 30;
  rate_limit_token_per_minute = 60;
  rate_limit_lead_per_session = 5;
}

unfoldable pub create_if_absent : (tenant_id : ℕ) → Option TenantSettings → Action TenantSettings
create_if_absent tenant_id none = do
  id ← uuid4
  let row = default_settings id tenant_id
  modify_db (λ db. record db { settings = db.settings ++ row ∷ [] })
  pure row
create_if_absent tenant_id (some row) = pure row

unfoldable pub get_or_create : (tenant_id : ℕ) → Action TenantSettings
unfolding create_if_absent
get_or_create tenant_id = do
  found ← gets (λ w. find_row (λ s. s.tenant_id == tenant_id) w.settings)
  create_if_absent tenant_id found

abbrev pub with_body : TenantSettingsBody → TenantSettings → TenantSettings
with_body body row = record row {
  default_invite_ttl_seconds = body.default_invite_ttl_seconds;
  rate_limit_chat_per_minute = body.rate_limit_chat_per_minute;
  rate_limit_token_per_minute = body.rate_limit_token_per_minute;
}

-- `TenantSettingsRepository.update`, whose body has all three fields
unfoldable pub update_settings : (tenant_id : ℕ) → TenantSettingsBody → Action TenantSettings
unfolding get_or_create
update_settings tenant_id body = do
  row ← get_or_create tenant_id
  modify_db (λ db. record db {
    settings = update_where (λ s. s.id == row.id) (with_body body) db.settings;
  })
  pure (with_body body row)

pub record TenantSettingsActor : Type 0 where
  pub tenant_id : ℕ
  pub actor_id : String
  pub role : String

pub record SettingsPayload : Type 0 where
  pub tenant_id : ℕ
  pub default_invite_ttl_seconds : ℕ
  pub rate_limit_chat_per_minute : ℕ
  pub rate_limit_token_per_minute : ℕ

-- `_to_payload`
abbrev pub settings_payload : TenantSettings → SettingsPayload
settings_payload row = record {
  tenant_id = row.tenant_id;
  default_invite_ttl_seconds = row.default_invite_ttl_seconds;
  rate_limit_chat_per_minute = row.rate_limit_chat_per_minute;
  rate_limit_token_per_minute = row.rate_limit_token_per_minute;
}

unfoldable pub get_settings : (tenant_id : ℕ) → Action SettingsPayload
unfolding get_or_create
get_settings tenant_id = do row ← get_or_create tenant_id; pure (settings_payload row)

unfoldable pub put_settings :
    (ArgValue → Option ℕ)
    → (tenant_id : ℕ) → List (String × ArgValue)
    → TenantSettingsActor
    → Action SettingsPayload
unfolding update_settings
put_settings read_int tenant_id body actor = do
  raise_if (not (str_eq actor.role "tenant_manager")) settings_forbidden
  validated ← or_raise (validated_settings read_int body) settings_invalid
  row ← update_settings tenant_id validated
  add_audit_log tenant_id (record {
    actor_id = some actor.actor_id;
    actor_role = actor.role;
    action = "tenant_settings_updated";
    metadata =
        ("default_invite_ttl_seconds", number row.default_invite_ttl_seconds)
        ∷ ("rate_limit_chat_per_minute", number row.rate_limit_chat_per_minute)
        ∷ ("rate_limit_token_per_minute", number row.rate_limit_token_per_minute)
        ∷ [];
  })
  pure (settings_payload row)
