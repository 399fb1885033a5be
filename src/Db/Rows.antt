-- ===== src/Db/Rows.antt =====
-- app/db/models.py: the rows of the tables, and the enumerations of app/domain/tenant.py.
use multi_tenant_ai_chatbot.Prelude.{ℕ, String, Option, List}

-- `TenantStatus` of app/domain/tenant.py
pub data TenantStatus : Type 0 where
  active suspended erasing erased : TenantStatus

-- the values of a metadata dict; `uuid` is the text of a UUID
pub data Json : Type 0 where
  null : Json
  number : ℕ → Json
  uuid : ℕ → Json
  text : String → Json
  texts : List String → Json
  counts : List (String × ℕ) → Json

pub record Tenant : Type 0 where
  pub id : ℕ
  pub name : String
  pub slug : String
  pub status : TenantStatus
  pub plan : String

pub record AdminUser : Type 0 where
  pub id : ℕ
  pub tenant_id : ℕ
  pub email : String
  pub full_name : Option String
  pub password_hash : String
  pub role : String
  pub status : String

pub record AdminInvite : Type 0 where
  pub id : ℕ
  pub token : ℕ
  pub tenant_id : ℕ
  pub email : String
  pub role : String
  pub invited_by : String
  pub expires_at : ℕ
  pub used_at : Option ℕ
  pub revoked_at : Option ℕ

pub record CmsPage : Type 0 where
  pub id : ℕ
  pub tenant_id : ℕ
  pub title : String
  pub slug : String
  pub body : String
  pub source_url : Option String
  pub status : String
  pub created_by : Option String

-- `conversation_id` and `quality_score`, which no code sets, are left out
pub record Lead : Type 0 where
  pub id : ℕ
  pub tenant_id : ℕ
  pub name : Option String
  pub contact : Option String
  pub intent : String
  pub status : String

pub record Conversation : Type 0 where
  pub id : ℕ
  pub tenant_id : ℕ
  pub session_id : String
  pub status : String

pub record AuditLog : Type 0 where
  pub id : ℕ
  pub tenant_id : ℕ
  pub actor_id : Option String
  pub actor_role : String
  pub action : String
  pub metadata : List (String × Json)

-- the cost is in millionths of a dollar, the scale of its column
pub record TenantUsage : Type 0 where
  pub id : ℕ
  pub tenant_id : ℕ
  pub feature : String
  pub units : ℕ
  pub unit_type : String
  pub estimated_cost_usd : ℕ
  pub trace_id : Option String
  pub created_at : ℕ

pub record TenantRateLimit : Type 0 where
  pub id : ℕ
  pub tenant_id : ℕ
  pub action : String
  pub limit_count : ℕ
  pub window_seconds : ℕ

pub record ErasureJob : Type 0 where
  pub id : ℕ
  pub tenant_id : ℕ
  pub requested_by : String
  pub status : String
  pub deleted_counts : List (String × ℕ)
  pub started_at : ℕ
  pub completed_at : ℕ

pub record TenantSettings : Type 0 where
  pub id : ℕ
  pub tenant_id : ℕ
  pub default_invite_ttl_seconds : ℕ
  pub rate_limit_chat_per_minute : ℕ
  pub rate_limit_token_per_minute : ℕ
  pub rate_limit_lead_per_session : ℕ

-- `tenant_rails_json`, whose keys may be missing
pub record Rails : Type 0 where
  pub greeting : Option String
  pub tone : Option String
  pub language : Option String
  pub business_rules : Option String
  pub chips : Option (List String)
  pub tenant_blocked_topics : Option (List String)
  pub tenant_refusal_tone : Option String

pub record TenantAgentConfig : Type 0 where
  pub id : ℕ
  pub tenant_id : ℕ
  pub persona : String
  pub enabled_tools_json : List String
  pub tenant_rails_json : Rails

-- the keys of `metadata_json` that the code writes are fields; the embedding is left out
pub record RagChunk : Type 0 where
  pub id : ℕ
  pub tenant_id : ℕ
  pub page_id : ℕ
  pub chunk_index : ℕ
  pub text : String
  pub source_title : String
  pub source_type : String
  pub source_url : Option String
  pub content_sha256 : String

pub record EscalationTicket : Type 0 where
  pub id : ℕ
  pub tenant_id : ℕ
  pub conversation_id : ℕ
  pub reason : String
  pub status : String
  pub assigned_to : Option String
