-- ===== src/Prelude/Dict.antt =====
-- A Python dict as an association list, over keys with a Boolean equality test.
use Prim.Native.Nat.{ℕ}
use Prim.Native.String.{String}
use mathlib.Core.Path.{◌≡◌, refl}
use mathlib.Core.Logic.{◌↔◌}
use mathlib.Core.Bool.{Bool, true, ◌&&◌}
use mathlib.Core.Option.{Option, none, some}
use mathlib.Core.List.{List, [], ◌∷◌}
use native.Mathlib.Omega.{arith}
use text.Mathlib.TextEquality.{eq_iff}
use multi_tenant_ai_chatbot.Prelude.Tests.{◌==◌, str_eq, if◌then◌else◌}

pub record Key {ℓ} (K : Type ℓ) : Type ℓ where
  pub same : K → K → Bool
  pub same_iff : (a b : K) → (same a b ≡ true) ↔ (a ≡ b)

-- a tenant (or user) with a session: what the code formats into one key text
abbrev pub SessionKey : Type 0
SessionKey = ℕ × String

abbrev pub same_session : SessionKey → SessionKey → Bool
same_session (t, s) (u, r) = t == u && str_eq s r

pub same_session_iff : (a b : SessionKey) → (same_session a b ≡ true) ↔ (a ≡ b)
same_session_iff (t, s) (u, r) = ground (arith, eq_iff s r)

instance abbrev pub session_key : Key SessionKey
session_key = record { same = same_session; same_iff = same_session_iff }

instance abbrev pub text_key : Key String
text_key = record { same = str_eq; same_iff = eq_iff }

module _ {ℓ κ} {K : Type ℓ} {V : Type κ} ⦃k : Key K⦄ where
  -- `d.get(key)`
  abbrev pub lookup : K → List (K × V) → Option V
  lookup j [] = none
  lookup j ((i, v) ∷ d) = if k.same i j then some v else lookup j d

  -- `d[key] = v`
  abbrev pub insert : K → V → List (K × V) → List (K × V)
  insert j v [] = (j, v) ∷ []
  insert j v ((i, w) ∷ d) = if k.same i j then (i, v) ∷ d else (i, w) ∷ insert j v d

  -- `d.pop(key, None)`
  abbrev pub erase : K → List (K × V) → List (K × V)
  erase j [] = []
  erase j ((i, w) ∷ d) = if k.same i j then erase j d else (i, w) ∷ erase j d

  pub lookup-insert :
      (j i : K) (v : V) (d : List (K × V))
      → lookup i (insert j v d) ≡ (if k.same j i then some v else lookup i d)
  lookup-insert j i v [] = refl
  lookup-insert j i v ((h, w) ∷ d) =
      ground (arith, k.same_iff j i, k.same_iff h i, k.same_iff h j, lookup-insert j i v d)

  pub lookup-erase :
      (j i : K) (d : List (K × V))
      → lookup i (erase j d) ≡ (if k.same j i then none else lookup i d)
  lookup-erase j i [] = ground arith
  lookup-erase j i ((h, w) ∷ d) =
      ground (arith, k.same_iff j i, k.same_iff h i, k.same_iff h j, lookup-erase j i d)

pub same_self {ℓ} : {K : Type ℓ} ⦃k : Key K⦄ (j : K) → k.same j j ≡ true
same_self ⦃k⦄ j = (k.same_iff j j).1 refl
