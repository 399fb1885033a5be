-- ===== src/Tests/Configs.antt =====
-- The theorems on the configurations of a tenant, at concrete inputs: app/services/widget_service.py,
-- app/services/tenant_settings.py and app/services/agent_config.py.
use multi_tenant_ai_chatbot.Prelude.{
  ℕ, zero, suc, or_else, ap, eq_iff, ◌≢◌, String, ◌≡◌, refl, Bool, true, false, some, none, List,
  [], ◌∷◌, All,
}
use multi_tenant_ai_chatbot.Prelude.Text.{strip}
use multi_tenant_ai_chatbot.World.{ok}
use multi_tenant_ai_chatbot.Db.Rows.{active}
use multi_tenant_ai_chatbot.Tenants.Repository.{AuditEntry}
use multi_tenant_ai_chatbot.Tools.Args.Calls.{ArgValue, number}
use multi_tenant_ai_chatbot.Settings.{TenantSettingsActor, put_settings}
use multi_tenant_ai_chatbot.Settings.Bounds.{IsInBounds, put_settings-IsInBounds}
use multi_tenant_ai_chatbot.AgentConfig.{
  AgentConfigBody, AgentConfigActor, acceptable, cleaned, default_payload, get_config, put_config,
  snapshot,
}
use multi_tenant_ai_chatbot.AgentConfig.Readback.{put_config-reads_back}
use multi_tenant_ai_chatbot.Widgets.Store.{WidgetConfigDomain, WidgetValues, with_values}
use multi_tenant_ai_chatbot.Widgets.Memory.{Rows, memory_repository}
use multi_tenant_ai_chatbot.Widgets.Memory.Laws.{HasOwnKeys, memory_repository-Laws}
use multi_tenant_ai_chatbot.Widgets.Config.{
  AuditLogger, saved, audit_failed, origin_entries, log_all, update_widget_config,
}
use multi_tenant_ai_chatbot.Widgets.Config.Update.{
  update_widget_config-saves, update_widget_config-restores,
}
use multi_tenant_ai_chatbot.Tests.{world, int_of}

abbrev config : WidgetConfigDomain
config = record {
  id = 90;
  tenant_id = 1;
  widget_id = 91;
  allowed_origins = "https://acme.io" ∷ [];
  enabled = true;
  tenant_status = active;
  theme_json = none;
  greeting = none;
}

abbrev rows : Rows
rows = (91, config) ∷ []

abbrev request : WidgetValues
request = record {
  allowed_origins = "https://www.acme.io" ∷ [];
  enabled = true;
  theme_json = none;
  greeting = some "Hello";
}

-- a log that takes `room` entries more, and then raises
abbrev add_entry : ℕ → List AuditEntry × ℕ → AuditEntry → Bool × (List AuditEntry × ℕ)
add_entry tenant_id (entries, zero) entry = (false, (entries, zero))
add_entry tenant_id (entries, suc room) entry = (true, (entry ∷ entries, room))

abbrev logger : AuditLogger (List AuditEntry × ℕ)
logger = record { add_audit_log = λ tenant_id entry log. add_entry tenant_id log entry }

not_empty : request.greeting ≢ some ""
not_empty e = let b : false ≡ true = (eq_iff "Hello" "").1 (ap (λ g. or_else g "") e) in cc

update_widget_config-saves_example :
    let (r, (s, l)) = update_widget_config memory_repository logger 1 request none rows ([], 5) in
    (r ≡ saved (with_values request config))
    × (memory_repository.get_by_tenant_id 1 s ≡ some (with_values request config))
    × (l
        ≡ (log_all memory_repository logger 1
            (origin_entries none 91 ("https://acme.io" ∷ []) ("https://www.acme.io" ∷ []))
            ([], 5)).1)
    × ((u : ℕ)
        → 1 ≢ u
        → memory_repository.get_by_tenant_id u s ≡ memory_repository.get_by_tenant_id u rows)
unfolding memory_repository log_all origin_entries
update_widget_config-saves_example =
    update_widget_config-saves memory_repository logger HasOwnKeys memory_repository-Laws 1 request
      none rows ([], 5) config (refl, refl, tt) refl ((λ e. cc), not_empty) refl

update_widget_config-restores_example :
    let (r, (s, l)) = update_widget_config memory_repository logger 1 request none rows ([], 1) in
    (r ≡ audit_failed)
    × (memory_repository.get_by_tenant_id 1 s ≡ some config)
    × ((u : ℕ)
        → 1 ≢ u
        → memory_repository.get_by_tenant_id u s ≡ memory_repository.get_by_tenant_id u rows)
unfolding memory_repository log_all origin_entries
update_widget_config-restores_example =
    update_widget_config-restores memory_repository logger HasOwnKeys memory_repository-Laws 1
      request none rows ([], 1) config (refl, refl, tt) refl ((λ e. cc), not_empty)
      ((λ e. cc), (λ e. cc)) refl

abbrev manager : TenantSettingsActor
manager = record { tenant_id = 1; actor_id = "boss"; role = "tenant_manager" }

abbrev settings_values : List (String × ArgValue)
settings_values =
    ("default_invite_ttl_seconds", number 7200)
    ∷ ("rate_limit_chat_per_minute", number 100)
    ∷ ("rate_limit_token_per_minute", number 1000)
    ∷ []

put_settings-IsInBounds_example :
    All IsInBounds (put_settings int_of 1 settings_values manager world).1.settings
put_settings-IsInBounds_example = put_settings-IsInBounds 1 world tt int_of settings_values manager

abbrev admin : AgentConfigActor
admin = record { tenant_id = 1; actor_id = "ann"; role = "tenant_admin" }

abbrev persona : AgentConfigBody
persona = record default_payload {
  persona_name = "Acme helper";
  chips = " Pricing " ∷ [];
  tenant_blocked_topics = "politics" ∷ "  " ∷ [];
}

put_config-reads_back_example :
    let (r, v) = put_config 1 persona admin world in
    (r ≡ ok (cleaned persona))
    × (get_config 1 v ≡ (ok (cleaned persona), v))
    × (snapshot 1 v ≡ (
      ok (record {
        tenant_blocked_topics = (cleaned persona).tenant_blocked_topics;
        tenant_refusal_tone = "polite";
      }),
      v,
    ))
unfolding acceptable strip
put_config-reads_back_example = put_config-reads_back 1 persona admin world refl
