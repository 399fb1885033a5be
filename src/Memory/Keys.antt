-- ===== src/Memory/Keys.antt =====
-- app/infra/cache.py: the keys of `SessionMemory`. The key text `session:{tenant_id}:{session}` is
-- the pair of the two: a UUID's text has no colon.
use Prim.Native.Char.{Char, code}
use Prim.Native.String.{String, [], ◌∷◌, char_at}
use multi_tenant_ai_chatbot.Prelude.{ℕ, Bool, ◌&&◌, ◌||◌, leb, ◌==◌, str_eq, if◌then◌else◌}
use multi_tenant_ai_chatbot.Prelude.Text.{strip}
use multi_tenant_ai_chatbot.Prelude.Dict.{SessionKey}

-- the characters of `[a-zA-Z0-9_.:-]`
unfoldable pub is_safe : Char → Bool
is_safe c =
    let n = code c in
    (leb b'a' n && leb n b'z')
    || (leb b'A' n && leb n b'Z')
    || (leb b'0' n && leb n b'9')
    || n == b'_'
    || n == b'.'
    || n == b':'
    || n == b'-'

unfoldable pub replace_unsafe : String → String
unfolding is_safe
replace_unsafe [] = []
replace_unsafe (c ∷ s) = (if is_safe c then c else char_at "_" 0) ∷ replace_unsafe s

-- `_safe_key_part`
unfoldable pub safe_key_part : String → String
unfolding replace_unsafe
safe_key_part value = if str_eq (strip value) "" then "anonymous" else replace_unsafe (strip value)

unfoldable pub key_for : ℕ → String → SessionKey
key_for tenant_id session_id = (tenant_id, safe_key_part session_id)
