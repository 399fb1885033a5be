-- ===== src/Memory.antt =====
-- app/infra/cache.py: `SessionMemory`. Redis is the `memory` of the world, a list with an expiry for
-- each key, and is reachable or not (`redis_up`).
pub mod Keys
pub mod Recall
use multi_tenant_ai_chatbot.Prelude.{
  ℕ, ◌+◌, ◌-◌, String, Bool, true, false, not, ◌&&◌, ◌||◌, Option, none, some, List, [], ◌∷◌, ◌++◌,
  drop, length, leb, ltb, ◌==◌, str_eq, if◌then◌else◌,
}
use multi_tenant_ai_chatbot.Prelude.Dict.{SessionKey, session_key, lookup, insert}
use multi_tenant_ai_chatbot.Redaction.{Regex, redact_text}
use Keys.{key_for}
use multi_tenant_ai_chatbot.World.{
  World, MemoryMessage, MemoryList, Action, memory_unavailable, pure, gets, modify, raise_if, ◌>>=◌,
  ◌>>◌,
}

-- `SessionMemory`'s own settings
pub record MemoryConfig : Type 0 where
  pub ttl_seconds : ℕ
  pub max_messages : ℕ

-- LRANGE: nothing is left of a list that expired
abbrev pub live : ℕ → Option MemoryList → List MemoryMessage
live now none = []
live now (some l) = if ltb now l.expires_at then l.messages else []

-- LTRIM key -n -1: -0 is the first index, and everything is kept
unfoldable pub trim {ℓ} : {A : Type ℓ} → ℕ → List A → List A
trim n xs = if n == 0 then xs else drop (length xs - n) xs

abbrev pub store_list : SessionKey → MemoryList → World → World
store_list key l w = record w { memory = insert key l w.memory }

-- RPUSH, LTRIM and EXPIRE
unfoldable pub push : MemoryConfig → SessionKey → MemoryMessage → World → World
unfolding trim
push config key message w =
    store_list key
      (record {
        messages = trim config.max_messages (live w.clock (lookup key w.memory) ++ message ∷ []);
        expires_at = w.clock + config.ttl_seconds;
      })
      w

unfoldable pub append_message :
    Regex → MemoryConfig → (tenant_id : ℕ) (session_id role content : String) → Action (Unit {0})
append_message regex config tenant_id session_id role content = do
  now ← gets (λ w. w.clock)
  up ← gets (λ w. w.redis_up)
  let message : MemoryMessage = record {
    role = role;
    content = redact_text regex (some content);
    created_at = now;
  }
  raise_if (not up) memory_unavailable
  modify (push config (key_for tenant_id session_id) message)

unfoldable pub get_messages : (tenant_id : ℕ) (session_id : String) → Action (List MemoryMessage)
get_messages tenant_id session_id = do
  up ← gets (λ w. w.redis_up)
  raise_if (not up) memory_unavailable
  gets (λ w. live w.clock (lookup (key_for tenant_id session_id) w.memory))
