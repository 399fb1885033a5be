-- ===== src/Tests.antt =====
-- Concrete data for the tests: two tenants, their rows, and the parameters of the model as
-- functions.
mod Turns
mod Sessions
mod Admin
mod Limits
mod Tickets
mod Retrieval
mod Pages
mod Logins
mod Tokens
mod Configs
mod Dashboard
use multi_tenant_ai_chatbot.Prelude.{
  ℕ, String, Bool, true, false, Option, none, some, List, [], ◌∷◌, str_eq, if◌then◌else◌,
}
use multi_tenant_ai_chatbot.Db.{Db}
use multi_tenant_ai_chatbot.Db.Rows.{
  TenantStatus, active, Tenant, AdminInvite, CmsPage, Lead, Conversation, TenantRateLimit,
  EscalationTicket,
}
use multi_tenant_ai_chatbot.RateLimit.LeadWindow.{new_limiter}
use multi_tenant_ai_chatbot.Redaction.{Regex, Pattern, email, contact}
use multi_tenant_ai_chatbot.Router.{Classifier, no_client, predicted, ambiguous}
use multi_tenant_ai_chatbot.World.{World}
use multi_tenant_ai_chatbot.Tools.Args.Calls.{ArgValue, number, object, text}
use multi_tenant_ai_chatbot.Tools.{Env}
use multi_tenant_ai_chatbot.Agent.Loop.{LlmClient, Completion}
use multi_tenant_ai_chatbot.Chat.{Deps}

abbrev pub acme : Tenant
acme = record { id = 1; name = "Acme"; slug = "acme"; status = active; plan = "pro" }

abbrev pub globex : Tenant
globex = record { id = 2; name = "Globex"; slug = "globex"; status = active; plan = "pro" }

abbrev pub invite : AdminInvite
invite = record {
  id = 30;
  token = 31;
  tenant_id = 1;
  email = "ann@acme.io";
  role = "tenant_admin";
  invited_by = "boss";
  expires_at = 5000;
  used_at = none;
  revoked_at = none;
}

abbrev pub conversation : Conversation
conversation = record { id = 40; tenant_id = 1; session_id = "s1"; status = "open" }

abbrev pub ticket : EscalationTicket
ticket = record {
  id = 41;
  tenant_id = 1;
  conversation_id = 40;
  reason = "help";
  status = "open";
  assigned_to = none;
}

abbrev pub limit : TenantRateLimit
limit = record { id = 50; tenant_id = 1; action = "chat"; limit_count = 3; window_seconds = 60 }

abbrev pub lead : Lead
lead = record {
  id = 60;
  tenant_id = 1;
  name = none;
  contact = none;
  intent = "demo";
  status = "captured";
}

abbrev pub database : Db
database = record {
  tenants = acme ∷ globex ∷ [];
  admin_users = [];
  admin_invites = invite ∷ [];
  cms_pages = [];
  leads = lead ∷ [];
  conversations = conversation ∷ [];
  audit_logs = [];
  tenant_usage = [];
  rate_limits = limit ∷ [];
  erasure_jobs = [];
  settings = [];
  agent_configs = [];
  rag_chunks = [];
  escalation_tickets = [];
  next_id = 100;
}

abbrev pub world : World
world = record {
  db = database;
  clock = 1000;
  lead_limiter = new_limiter;
  redis_up = true;
  takes_aware_times = true;
  index_deletes = true;
  memory = [];
  seen_unavailable = [];
}

-- a conversation with a ticket
abbrev pub ticketed : World
ticketed = record world { db = record database { escalation_tickets = ticket ∷ [] } }

abbrev pub page : CmsPage
page = record {
  id = 70;
  tenant_id = 1;
  title = "Opening hours";
  slug = "hours";
  body = "Open daily\n from nine";
  source_url = none;
  status = "published";
  created_by = none;
}

abbrev pub with_pages : List CmsPage → World
with_pages pages = record world { db = record database { cms_pages = pages } }

-- one secret, and contacts as they come
abbrev replace_secret : Pattern → String → String → String
replace_secret email replacement s = if str_eq s "ann@acme.io" then replacement else s
replace_secret p replacement s = s

abbrev search_any : Pattern → String → Option String
search_any contact s = some s
search_any p s = none

abbrev pub regex : Regex
regex = record { sub = replace_secret; search_for = search_any }

abbrev int_of : ArgValue → Option ℕ
int_of (number n) = some n
int_of v = none

abbrev pub env : Env
env = record {
  regex = regex;
  retrieve_chunks = λ w t q k. [];
  read_int = int_of;
  has_session = true;
}

abbrev pub smuggled : List (String × ArgValue)
smuggled = ("tenant_id", number 2) ∷ ("intent", text "demo") ∷ []

-- a model that asks for a lead, and smuggles a tenant into it
abbrev pub request_lead : Completion
request_lead = record {
  total_tokens = 100;
  content = "";
  tool_calls = record { id = "call-1"; name = "capture_lead"; arguments = object smuggled } ∷ [];
}

abbrev pub smuggler : LlmClient
smuggler messages = some request_lead

abbrev pub deps : Deps
deps = record {
  env = env;
  memory_config = record { ttl_seconds = 1800; max_messages = 12 };
  threshold = 700000;
  classify = λ message. predicted ambiguous 500000;
  system_prompt = λ w t. "You are Concierge.";
  client = some smuggler;
}
