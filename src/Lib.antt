-- ===== src/Lib.antt =====
-- A verification of Concierge, a multi-tenant chatbot: tenants are rows of one database, visitors
-- chat with a tenant's widget, and every operation must stay inside its tenant.
--
-- The program's core is in app/. A visitor's turn goes through `ChatService`
-- (app/services/chat_service.py), which keeps a short memory in Redis (app/infra/cache.py), asks the
-- router (app/agent/router.py) for a route, and runs one tool (app/agent/tools.py) or the bounded
-- agent (app/agent/agent.py), which lets a language model call the same tools. Tenants
-- (app/services/tenant_service.py) and the invites of their administrators
-- (app/services/admin_invite.py) are managed over repositories (app/repositories) on the tables of
-- app/db/models.py, and limiters (app/services/rate_limiter.py) bound what a session may do. The
-- administrators log in (app/services/admin_auth.py), edit the pages of their tenant
-- (app/services/cms_pages.py), which are cut into an index (app/rag/ingest.py), and the answers to
-- visitors are looked up there (app/rag/retriever.py). A visitor's widget gets a token for its
-- tenant (app/services/widget_service.py).
--
-- The files:
--   Prelude      tests, lists, dicts and Python's string operations
--   Db           app/db/models.py: the rows and the constraints on them
--   World        what a call acts on, calls as actions that return or raise, frames and isolation
--   RateLimit    app/services/rate_limiter.py
--   Redaction    app/infra/redaction.py
--   Router       app/agent/router.py
--   Tenants      app/services/tenant_service.py and app/repositories/tenant_repo.py
--   Invites      app/services/admin_invite.py, app/repositories/admin_invite_repo.py and
--                app/repositories/admin_user_repo.py
--   Escalations  app/services/escalation.py and app/repositories/escalation_repo.py
--   Cms          app/services/cms_pages.py and app/repositories/cms_repo.py
--   Rag          app/rag/ingest.py and app/rag/retriever.py
--   Auth         app/services/admin_auth.py, app/infra/password.py and app/api/deps.py
--   Widgets      app/services/widget_service.py and app/repositories/widget_repo.py
--   Leads        app/api/routes/leads.py and the dashboard's part of app/repositories/lead_repo.py
--   Guardrails   guardrails/main.py and app/infra/service_auth.py
--   Settings     app/services/tenant_settings.py and app/repositories/tenant_settings_repo.py
--   AgentConfig  app/services/agent_config.py, app/repositories/agent_config_repo.py and
--                app/services/platform_guardrails.py
--   Tools        app/agent/tools.py and app/repositories/lead_repo.py
--   Agent        app/agent/agent.py
--   Memory       app/infra/cache.py
--   Chat         app/services/chat_service.py
--   Tests        concrete data, and the theorems applied to it
--
-- State is one record, `World`: the tables, the clock, the lead limiter of the process, Redis and
-- the sessions whose loss of memory is on record. It also says what the surroundings do: whether
-- Redis is reachable, whether the database driver takes a time with a zone for a column without one
-- (asyncpg does not), and whether rows of the index can be deleted at the time. An operation keeps the source's name and is a
-- function from the world to a result, a value or an exception, and the world after it; what was
-- written before an exception stays until `request` rolls the database back. A UUID is a number and
-- `uuid4` a counter; times and durations are whole numbers, money and confidences whole millionths.
-- The clock stands still during one call. A SELECT is a search or a selection of the rows in the
-- order of their insertion.
--
-- The parameters are what the source takes from elsewhere: Python's `re` and Pydantic's reading of
-- an integer, `urlsplit`, bcrypt, PyJWT, SHA-256 and `uuid5`, the model server's prediction, the language model,
-- as any function of the chat so far, and the system prompt. The retrieval of chunks is a parameter
-- of the tools, of the type that `retrieve_chunks` of Rag.Retriever has.
--
-- The loop of the agent recurses on the iterations left of the code's own bound of five, so it needs
-- no other fuel. The loop of `chunk_text` has one round for each character of the text, and one more:
-- enough, since each round begins further on. All other loops recurse on their list or text.
--
-- Not modelled: the other HTTP routes, the clients of other services, migrations, the user
-- interfaces and evaluation, which are input and output; the model server, which is a trained
-- classifier; the embeddings, which are written and never read. Interleavings of two requests are
-- left out: an operation runs to its end.
pub mod Prelude
pub mod Agent
pub mod AgentConfig
pub mod Auth
pub mod Chat
pub mod Cms
pub mod Db
pub mod Escalations
pub mod Guardrails
pub mod Invites
pub mod Leads
pub mod Memory
pub mod Rag
pub mod RateLimit
pub mod Redaction
pub mod Router
pub mod Settings
pub mod Tenants
pub mod Tests
pub mod Tools
pub mod Widgets
pub mod World
