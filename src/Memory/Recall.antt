-- ===== src/Memory/Recall.antt =====
-- `SessionMemory` of app/infra/cache.py: what is read back, and what one append leaves alone.
use multi_tenant_ai_chatbot.Prelude.{
  ℕ, zero, suc, ◌+◌, ◌-◌, ◌≤◌, ◌<◌, String, ◌≡◌, ◌≢◌, refl, true, false, some, List, [], ◌∷◌, ◌++◌,
  drop, length, ltb, ==-ne, arith,
}
use multi_tenant_ai_chatbot.Prelude.Dict.{session_key, lookup, lookup-insert, same_self}
use multi_tenant_ai_chatbot.Redaction.{Regex, redact_text}
use multi_tenant_ai_chatbot.World.{World, MemoryMessage, ok, err, memory_unavailable, modify, ◌>>=◌}
use multi_tenant_ai_chatbot.World.Stays.{Stays, stays_rules}
use multi_tenant_ai_chatbot.World.Isolation.{Untouched, Untouched-frame}
use multi_tenant_ai_chatbot.Memory.Keys.{key_for}
use multi_tenant_ai_chatbot.Memory.{MemoryConfig, live, trim, push, append_message, get_messages}

length-drop : {A : Type 0} (n : ℕ) (xs : List A) → length (drop n xs) ≡ length xs - n
length-drop zero xs = omega arith
length-drop (suc n) [] = omega arith
length-drop (suc n) (x ∷ xs) = omega (arith, length-drop n xs)

pub length-trim-le : {A : Type 0} (n : ℕ) (xs : List A) → 1 ≤ n → length (trim n xs) ≤ n
unfolding trim
length-trim-le n xs h = ground (arith, length-drop (length xs - n) xs)

-- a session's memory, as a read at the time `now` would find it
abbrev pub recalled : (t : ℕ) (s : String) (now : ℕ) → World → List MemoryMessage
recalled t s now w = live now (lookup (key_for t s) w.memory)

module _ (regex : Regex) (config : MemoryConfig) (t : ℕ) (s role content : String) (w : World)
    (up : w.redis_up ≡ true) where
  -- With Redis up, an append succeeds. Until the memory expires, a read returns the messages that
  -- the session had and the redacted new one, cut down to the newest
  -- `max_messages`, which at 0 cuts nothing.
  pub get_messages-append_message :
      (elapsed : ℕ)
      → elapsed < config.ttl_seconds
      → let (r, v) = append_message regex config t s role content w in
        let message : MemoryMessage = record {
          role = role;
          content = redact_text regex (some content);
          created_at = w.clock;
        } in
        (r ≡ ok tt)
        × ((get_messages t s (record v { clock = w.clock + elapsed })).0
            ≡ ok (trim config.max_messages (recalled t s w.clock w ++ message ∷ [])))
  unfolding append_message get_messages push ◌>>=◌
  get_messages-append_message elapsed h =
      let fresh : ltb (w.clock + elapsed) (w.clock + config.ttl_seconds) ≡ true = ground arith in
      rw (up, lookup-insert, same_self (key_for t s), fresh) (refl, refl)

-- With Redis down, a read and an append raise `MemoryUnavailableError` and change nothing.
pub memory-unavailable :
    (regex : Regex) (config : MemoryConfig) (t : ℕ) (s role content : String) (w : World)
    → w.redis_up ≡ false
    → (append_message regex config t s role content w ≡ (err memory_unavailable, w))
      × (get_messages t s w ≡ (err memory_unavailable, w))
unfolding append_message get_messages ◌>>=◌
memory-unavailable regex config t s role content w down = rw down (refl, refl)

module _ (u t : ℕ) (other : t ≢ u) where
  push-Untouched :
      (config : MemoryConfig) (s : String) (m : MemoryMessage)
      → Stays (Untouched u) (modify (push config (key_for t s) m))
  unfolding push modify key_for
  push-Untouched config s m = record {
    at = λ w. record {
      tenants = refl;
      admin_users = refl;
      admin_invites = refl;
      cms_pages = refl;
      leads = refl;
      conversations = refl;
      audit_logs = refl;
      tenant_usage = refl;
      rate_limits = refl;
      erasure_jobs = refl;
      settings = refl;
      agent_configs = refl;
      rag_chunks = refl;
      escalation_tickets = refl;
      lead_windows = λ s. refl;
      memory = λ r. rw (lookup-insert, ==-ne t u other);
    };
  }

  pub append_message-Untouched :
      (regex : Regex) (config : MemoryConfig) (s role content : String)
      → Stays (Untouched u) (append_message regex config t s role content)
  unfolding append_message
  append_message-Untouched regex config s role content =
      search (stays_rules, push-Untouched) depth 8

  pub get_messages-Untouched : (s : String) → Stays (Untouched u) (get_messages t s)
  unfolding get_messages
  get_messages-Untouched s = search stays_rules depth 8
