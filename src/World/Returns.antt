-- ===== src/World/Returns.antt =====
-- What an action's value satisfies where it returns: one rule for each way to build an action.
use multi_tenant_ai_chatbot.Prelude.{Bool, true, false, if◌then◌else◌}
use multi_tenant_ai_chatbot.World.{World, Result, ok, err, Action, pure, continue, ◌>>=◌}

abbrev pub IfReturned : {A : Type 0} → (A → Type 0) → Result A → Type 0
IfReturned P (ok a) = P a
IfReturned P (err e) = Unit

pub record Returns {A : Type 0} (P : A → Type 0) (m : Action A) : Type 0 where
  pub at : (w : World) → IfReturned P (m w).0

module _ {A : Type 0} (P : A → Type 0) where
  pub Returns-pure : (a : A) → P a → Returns P (pure a)
  unfolding pure
  Returns-pure a h = record { at = λ w. h }

  pub Returns-if :
      (b : Bool) (m n : Action A) → Returns P m → Returns P n → Returns P (if b then m else n)
  Returns-if true m n h k = h
  Returns-if false m n h k = k

  module _ {B : Type 0} (Q : B → Type 0) where
    IfReturned-continue :
        (r : Result B) (g : B → Action A) (w : World)
        → IfReturned Q r
        → ((b : B) → Q b → Returns P (g b))
        → IfReturned P (continue r g w).0
    IfReturned-continue (ok b) g w h k = (k b h).at w
    IfReturned-continue (err e) g w h k = tt

    pub Returns-then :
        (m : Action B) (g : B → Action A)
        → Returns Q m
        → ((b : B) → Q b → Returns P (g b))
        → Returns P (m >>= g)
    unfolding ◌>>=◌
    Returns-then m g h k = record {
      at = λ w. let (r, v) = m w in IfReturned-continue r g v (h.at w) k;
    }

  IfReturned-any : {B : Type 0} (r : Result B) → IfReturned (λ b. Unit) r
  IfReturned-any (ok b) = tt
  IfReturned-any (err e) = tt

  pub Returns-bind :
      {B : Type 0} (m : Action B) (g : B → Action A)
      → ((b : B) → Returns P (g b))
      → Returns P (m >>= g)
  Returns-bind m g k =
      Returns-then (λ b. Unit) m g (record { at = λ w. IfReturned-any (m w).0 }) (λ b any. k b)
