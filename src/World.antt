-- ===== src/World.antt =====
-- What the code acts on: the database (app/db), the process-wide `capture_lead` limiter
-- (app/services/rate_limiter.py), the session memory in Redis (app/infra/cache.py) and the set of
-- sessions whose loss of memory is on record (app/services/chat_service.py). A call is an `Action`:
-- it returns or raises, and the world comes back either way, since what was written before a raise
-- stays written until the session is rolled back.
pub mod Stays
pub mod Returns
pub mod Isolation
use multi_tenant_ai_chatbot.Prelude.{
  ℕ, ◌+◌, String, Bool, true, false, not, Option, none, some, List, if◌then◌else◌,
}
use multi_tenant_ai_chatbot.Prelude.Dict.{SessionKey}
use multi_tenant_ai_chatbot.Db.{Db}
use multi_tenant_ai_chatbot.RateLimit.LeadWindow.{LeadLimiter}

-- `MemoryMessage` of app/infra/cache.py
pub record MemoryMessage : Type 0 where
  pub role : String
  pub content : String
  pub created_at : ℕ

-- a Redis list with its expiry
pub record MemoryList : Type 0 where
  pub messages : List MemoryMessage
  pub expires_at : ℕ

pub record World : Type 0 where
  pub db : Db
  pub open db use *
  pub clock : ℕ
  pub lead_limiter : LeadLimiter
  pub redis_up : Bool
  -- the driver takes a time with a zone for a column without one, which asyncpg does not
  pub takes_aware_times : Bool
  -- the statements that delete rows of the index succeed
  pub index_deletes : Bool
  pub memory : List (SessionKey × MemoryList)
  pub seen_unavailable : List SessionKey

-- the exceptions that the modelled code raises; `db_error` is SQLAlchemy's `IntegrityError` or
-- `DataError` from a flush
pub data Error : Type 0 where
  db_error validation_error : Error
  tenant_permission tenant_not_found : Error
  invite_unavailable invite_forbidden invite_conflict weak_password : Error
  escalation_invalid escalation_not_found escalation_forbidden : Error
  settings_forbidden settings_invalid : Error
  agent_config_invalid cms_not_found cms_invalid : Error
  invalid_credentials unauthorized unsupported_role : Error
  http_forbidden http_not_found service_not_configured : Error
  memory_unavailable assertion_error type_error key_error : Error

pub data Result {ℓ} (A : Type ℓ) : Type ℓ where
  ok : A → Result A
  err : Error → Result A

abbrev pub Action : Type 0 → Type 0
Action A = World → Result A × World

unfoldable pub modify : (World → World) → Action (Unit {0})
modify f w = (ok tt, f w)

unfoldable pub modify_db : (Db → Db) → Action (Unit {0})
modify_db f w = (ok tt, record w { db = f w.db })

module _ {A : Type 0} where
  unfoldable pub pure : A → Action A
  pure a w = (ok a, w)

  unfoldable pub raise : Error → Action A
  raise e w = (err e, w)

  unfoldable pub gets : (World → A) → Action A
  gets f w = (ok (f w), w)

  -- `if value is None: raise`
  abbrev pub or_raise : Option A → Error → Action A
  or_raise none e = raise e
  or_raise (some a) e = pure a

abbrev pub continue : {A B : Type 0} → Result A → (A → Action B) → Action B
continue (ok a) f w = f a w
continue (err e) f w = (err e, w)

infixl 10 ◌>>=◌ ◌>>◌
-- opening this opens the ways to build an action too
unfoldable pub ◌>>=◌ : {A B : Type 0} → Action A → (A → Action B) → Action B
unfolding pure raise gets modify modify_db
◌>>=◌ m f w = let (r, w') = m w in continue r f w'

abbrev pub ◌>>◌ : {A B : Type 0} → Action A → Action B → Action B
m >> n = m >>= λ _. n

abbrev pub raise_if : Bool → Error → Action (Unit {0})
raise_if c e = if c then raise e else pure tt

-- a time with a zone is sent for a column without one
abbrev pub send_aware_time : Action (Unit {0})
send_aware_time = gets (λ w. w.takes_aware_times) >>= λ takes. raise_if (not takes) db_error

abbrev pub drop_error : {A : Type 0} → Result A → Action (Option A)
drop_error (ok a) w = (ok (some a), w)
drop_error (err e) w = (ok none, w)

-- `try: … except Exception: log`
unfoldable pub attempt : {A : Type 0} → Action A → Action (Option A)
attempt m w = let (r, w') = m w in drop_error r w'

-- `uuid4()`
unfoldable pub uuid4 : Action ℕ
uuid4 w = (ok w.next_id, record w { db = record w.db { next_id = w.next_id + 1 } })

-- `get_session` of app/db/session.py: the request's writes are committed, or rolled back at an
-- exception; the state of the process is no part of the session
unfoldable pub request : {A : Type 0} → Action A → Action A
request m w =
    let (r, w') = m w in elim r [ ok a ↦ (ok a, w') | err e ↦ (err e, record w' { db = w.db }) ]
