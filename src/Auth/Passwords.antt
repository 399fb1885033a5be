-- ===== src/Auth/Passwords.antt =====
-- app/infra/password.py: passwords cut to 72 bytes of UTF-8, for bcrypt (`Bcrypt`, a parameter; the
-- salt that `gensalt` draws is part of it).
use Prim.Native.Char.{code}
use Prim.Native.String as Native
use multi_tenant_ai_chatbot.Prelude.{
  ℕ, ◌+◌, ◌/◌, ◌%◌, String, Bool, true, false, Option, none, some, List, [], ◌∷◌, ◌++◌, take, ltb,
  if◌then◌else◌, ◌≡◌, refl,
}

-- `bcrypt.hashpw`, and `bcrypt.checkpw`, where `none` is a `ValueError` or a `TypeError`
pub record Bcrypt : Type 0 where
  pub hashpw : List ℕ → String
  pub checkpw : List ℕ → String → Option Bool

-- the bytes of one character in UTF-8
unfoldable pub utf8_char : ℕ → List ℕ
utf8_char n =
    if ltb n 128
    then n ∷ []
    else if ltb n 2048
    then (192 + n / 64) ∷ (128 + n % 64) ∷ []
    else if ltb n 65536
    then (224 + n / 4096) ∷ (128 + n / 64 % 64) ∷ (128 + n % 64) ∷ []
    else (240 + n / 262144) ∷ (128 + n / 4096 % 64) ∷ (128 + n / 64 % 64) ∷ (128 + n % 64) ∷ []

-- `plain.encode("utf-8")`
unfoldable pub utf8 : String → List ℕ
unfolding utf8_char
utf8 Native.[] = []
utf8 (Native.◌∷◌ c s) = utf8_char (code c) ++ utf8 s

abbrev pub bcrypt_max_bytes : ℕ
bcrypt_max_bytes = 72

-- `_prep`
unfoldable pub prep : String → List ℕ
unfolding utf8
prep plain = take bcrypt_max_bytes (utf8 plain)

unfoldable pub hash_password : Bcrypt → String → String
unfolding prep
hash_password bcrypt plain = bcrypt.hashpw (prep plain)

abbrev pub checked : Option Bool → Bool
checked none = false
checked (some b) = b

unfoldable pub verify_password : Bcrypt → (plain hashed : String) → Bool
unfolding prep
verify_password bcrypt plain hashed = checked (bcrypt.checkpw (prep plain) hashed)

-- A password is verified by its own hash, where bcrypt accepts what it hashed.
pub verify_password-hash_password :
    (bcrypt : Bcrypt)
    → ((bytes : List ℕ) → bcrypt.checkpw bytes (bcrypt.hashpw bytes) ≡ some true)
    → (plain : String) → verify_password bcrypt plain (hash_password bcrypt plain) ≡ true
unfolding verify_password hash_password
verify_password-hash_password bcrypt law plain = rw (law (prep plain)) refl
