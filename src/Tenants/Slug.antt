-- ===== src/Tenants/Slug.antt =====
-- The slug that `TenantRepository.create` of app/repositories/tenant_repo.py derives from a name.
use Prim.Native.Char.{code}
use Prim.Native.String as Native
use multi_tenant_ai_chatbot.Prelude.{
  ℕ, String, Bool, true, false, ◌&&◌, ◌||◌, leb, ◌==◌, str_eq, if◌then◌else◌,
}
use multi_tenant_ai_chatbot.Prelude.Text.{lower}

is_alphanumeric : ℕ → Bool
is_alphanumeric n =
    (leb b'a' n && leb n b'z') || (leb b'A' n && leb n b'Z') || (leb b'0' n && leb n b'9')

-- `re.sub(r"[^a-zA-Z0-9]+", "-", name)`; the flag says that the text before ends in a replaced run
dash_runs : Bool → String → String
dash_runs inside Native.[] = Native.[]
dash_runs inside (Native.◌∷◌ c s) =
    let kept = dash_runs false s in
    let dropped = dash_runs true s in
    if is_alphanumeric (code c)
    then Native.◌∷◌ c kept
    else if inside
    then dropped
    else Native.◌∷◌ (Native.char_at "-" 0) dropped

strip_dashes_left : String → String
strip_dashes_left Native.[] = Native.[]
strip_dashes_left (Native.◌∷◌ c s) =
    let rest = strip_dashes_left s in if code c == b'-' then rest else Native.◌∷◌ c s

strip_dashes_right : String → String
strip_dashes_right Native.[] = Native.[]
strip_dashes_right (Native.◌∷◌ c s) =
    let r = strip_dashes_right s in
    if str_eq r "" && code c == b'-' then Native.[] else Native.◌∷◌ c r

unfoldable pub slug_of : String → String
unfolding is_alphanumeric dash_runs strip_dashes_left strip_dashes_right lower
slug_of name = strip_dashes_right (strip_dashes_left (lower (dash_runs false name)))
