-- ===== src/AgentConfig.antt =====
-- app/services/agent_config.py, app/repositories/agent_config_repo.py, and the view of the rails in
-- app/services/platform_guardrails.py.
pub mod Readback
use multi_tenant_ai_chatbot.Prelude.{
  ℕ, String, Bool, ◌&&◌, not, Option, none, some, List, [], ◌∷◌, ◌++◌, map, select, length,
  find_row, update_where, or_else, or_option, leb, ◌==◌, str_eq, if◌then◌else◌,
}
use multi_tenant_ai_chatbot.Prelude.Text.{strip, text_length}
use multi_tenant_ai_chatbot.Db.Rows.{Json, number, text, Rails, TenantAgentConfig}
use multi_tenant_ai_chatbot.World.{
  World, Action, agent_config_invalid, pure, gets, modify_db, or_raise, raise_if, uuid4, ◌>>=◌,
  ◌>>◌,
}
use multi_tenant_ai_chatbot.Tenants.Repository.{add_audit_log}

abbrev pub default_chips : List String
default_chips = "Pricing" ∷ "Hours" ∷ "Talk to a human" ∷ "Get a quote" ∷ []

abbrev pub default_greeting : String
default_greeting = "Hi! How can I help?"

abbrev pub default_tone : String
default_tone = "professional"

abbrev pub default_language : String
default_language = "en"

abbrev pub default_refusal_tone : String
default_refusal_tone = "polite"

-- `AgentConfigBody`, of fields that have the declared types; a missing one has its default
pub record AgentConfigBody : Type 0 where
  pub persona_name : String
  pub greeting : String
  pub tone : String
  pub language : String
  pub business_rules : String
  pub chips : List String
  pub tenant_blocked_topics : List String
  pub tenant_refusal_tone : String

abbrev fits : ℕ → String → Bool
fits n s = leb (text_length s) n

abbrev pub chip_fits : String → Bool
chip_fits chip = leb 1 (text_length (strip chip)) && leb (text_length (strip chip)) 40

abbrev pub every : (String → Bool) → List String → Bool
every p [] = Bool.true
every p (x ∷ xs) = p x && every p xs

-- what the validators and the length limits of the fields accept
unfoldable pub acceptable : AgentConfigBody → Bool
acceptable body =
    fits 255 body.persona_name
    && fits 2000 body.greeting
    && fits 50 body.tone
    && fits 20 body.language
    && fits 4000 body.business_rules
    && leb (length body.chips) 6
    && every chip_fits body.chips
    && leb (length body.tenant_blocked_topics) 50
    && fits 50 body.tenant_refusal_tone

abbrev pub stripped : List String → List String
stripped texts = map strip texts

-- the values that `_validate_chips` and `_validate_topics` return
abbrev pub cleaned : AgentConfigBody → AgentConfigBody
cleaned body = record body {
  chips = stripped body.chips;
  tenant_blocked_topics =
      stripped (select (λ t. not (str_eq (strip t) "")) body.tenant_blocked_topics);
}

-- `AgentConfigBody.model_validate`
unfoldable pub validated_config : AgentConfigBody → Option AgentConfigBody
unfolding acceptable
validated_config body = if acceptable body then some (cleaned body) else none

-- the wire shape is that of the body
abbrev pub default_payload : AgentConfigBody
default_payload = record {
  persona_name = "";
  greeting = default_greeting;
  tone = default_tone;
  language = default_language;
  business_rules = "";
  chips = default_chips;
  tenant_blocked_topics = [];
  tenant_refusal_tone = default_refusal_tone;
}

abbrev pub is_config_of : ℕ → TenantAgentConfig → Bool
is_config_of tenant_id c = c.tenant_id == tenant_id

unfoldable pub get_by_tenant : (tenant_id : ℕ) → Action (Option TenantAgentConfig)
get_by_tenant tenant_id = gets (λ w. find_row (is_config_of tenant_id) w.agent_configs)

abbrev pub config_payload : Option TenantAgentConfig → AgentConfigBody
config_payload none = default_payload
config_payload (some row) =
    let rails = row.tenant_rails_json in
    record {
      persona_name = row.persona;
      greeting = or_else rails.greeting default_greeting;
      tone = or_else rails.tone default_tone;
      language = or_else rails.language default_language;
      business_rules = or_else rails.business_rules "";
      chips = or_else rails.chips default_chips;
      tenant_blocked_topics = or_else rails.tenant_blocked_topics [];
      tenant_refusal_tone = or_else rails.tenant_refusal_tone default_refusal_tone;
    }

unfoldable pub get_config : (tenant_id : ℕ) → Action AgentConfigBody
unfolding get_by_tenant
get_config tenant_id = do found ← get_by_tenant tenant_id; pure (config_payload found)

abbrev pub rails_of : AgentConfigBody → Rails
rails_of body = record {
  greeting = some body.greeting;
  tone = some body.tone;
  language = some body.language;
  business_rules = some body.business_rules;
  chips = some body.chips;
  tenant_blocked_topics = some body.tenant_blocked_topics;
  tenant_refusal_tone = some body.tenant_refusal_tone;
}

abbrev pub new_config : (id tenant_id : ℕ) (persona : String) → Rails → TenantAgentConfig
new_config id tenant_id persona rails = record {
  id = id;
  tenant_id = tenant_id;
  persona = persona;
  enabled_tools_json = "rag_search" ∷ "capture_lead" ∷ "escalate" ∷ [];
  tenant_rails_json = rails;
}

abbrev pub with_rails : (persona : String) → Rails → TenantAgentConfig → TenantAgentConfig
with_rails persona rails row = record row { persona = persona; tenant_rails_json = rails }

unfoldable pub upsert_config :
    (tenant_id : ℕ) (persona : String) → Rails → Option TenantAgentConfig → Action (Unit {0})
upsert_config tenant_id persona rails none = do
  id ← uuid4
  modify_db (λ db. record db {
    agent_configs = db.agent_configs ++ new_config id tenant_id persona rails ∷ [];
  })
upsert_config tenant_id persona rails (some row) = modify_db (λ db. record db {
  agent_configs = update_where (λ c. c.id == row.id) (with_rails persona rails) db.agent_configs;
})

unfoldable pub upsert : (tenant_id : ℕ) (persona : String) → Rails → Action (Unit {0})
unfolding get_by_tenant upsert_config
upsert tenant_id persona rails = do
  found ← get_by_tenant tenant_id
  upsert_config tenant_id persona rails found

pub record AgentConfigActor : Type 0 where
  pub tenant_id : ℕ
  pub actor_id : String
  pub role : String

unfoldable pub put_config :
    (tenant_id : ℕ) → AgentConfigBody → AgentConfigActor → Action AgentConfigBody
unfolding validated_config upsert get_config
put_config tenant_id body actor = do
  validated ← or_raise (validated_config body) agent_config_invalid
  upsert tenant_id validated.persona_name (rails_of validated)
  add_audit_log tenant_id (record {
    actor_id = some actor.actor_id;
    actor_role = actor.role;
    action = "tenant.agent_config_updated";
    metadata =
        ("chip_count", number (length validated.chips))
        ∷ ("tone", text validated.tone)
        ∷ ("language", text validated.language)
        ∷ [];
  })
  get_config tenant_id

-- the tenant's part of the snapshot of app/services/platform_guardrails.py; the platform's rules are
-- constant texts
pub record TenantRails : Type 0 where
  pub tenant_blocked_topics : List String
  pub tenant_refusal_tone : String

abbrev pub rails_view : Option TenantAgentConfig → TenantRails
rails_view none = record { tenant_blocked_topics = []; tenant_refusal_tone = default_refusal_tone }
rails_view (some row) = record {
  tenant_blocked_topics = or_else row.tenant_rails_json.tenant_blocked_topics [];
  tenant_refusal_tone = or_else row.tenant_rails_json.tenant_refusal_tone default_refusal_tone;
}

unfoldable pub snapshot : (tenant_id : ℕ) → Action TenantRails
unfolding get_by_tenant
snapshot tenant_id = do found ← get_by_tenant tenant_id; pure (rails_view found)
