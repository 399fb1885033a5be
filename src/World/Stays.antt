-- ===== src/World/Stays.antt =====
-- Relations between the world before and after an action that hold whether it returns or raises:
-- one rule for each way to build an action. The relation is reflexive and transitive.
use multi_tenant_ai_chatbot.Prelude.{
  ◌≡◌, refl, Bool, true, false, Option, none, some, if◌then◌else◌,
}
use multi_tenant_ai_chatbot.World.{
  World, Error, Result, ok, err, Action, pure, raise, gets, or_raise, continue, ◌>>=◌, raise_if,
  drop_error, attempt,
}

pub record Frame (R : World → World → Type 0) : Type 0 where
  pub same : (w : World) → R w w
  pub then_to : (u v w : World) → R u v → R v w → R u w

pub record Stays {A : Type 0} (R : World → World → Type 0) (m : Action A) : Type 0 where
  pub at : (w : World) → R w (m w).1

module _ {R : World → World → Type 0} ⦃f : Frame R⦄ where
  pub Stays-pure : {A : Type 0} (a : A) → Stays R (pure a)
  unfolding pure
  Stays-pure a = record { at = f.same }

  pub Stays-raise : {A : Type 0} (e : Error) → Stays R (raise {A = A} e)
  unfolding raise
  Stays-raise e = record { at = f.same }

  pub Stays-gets : {A : Type 0} (g : World → A) → Stays R (gets g)
  unfolding gets
  Stays-gets g = record { at = f.same }

  pub Stays-or_raise : {A : Type 0} (o : Option A) (e : Error) → Stays R (or_raise o e)
  Stays-or_raise none e = Stays-raise e
  Stays-or_raise (some a) e = Stays-pure a

  pub Stays-raise_if : (b : Bool) (e : Error) → Stays R (raise_if b e)
  Stays-raise_if true e = Stays-raise e
  Stays-raise_if false e = Stays-pure tt

  Stays-continue :
      {A B : Type 0} (r : Result A) (g : A → Action B) (u v : World)
      → R u v
      → ((a : A) → Stays R (g a))
      → R u (continue r g v).1
  Stays-continue (ok a) g u v h k = f.then_to u v (g a v).1 h ((k a).at v)
  Stays-continue (err e) g u v h k = h

  pub Stays-bind :
      {A B : Type 0} (m : Action A) (g : A → Action B)
      → Stays R m
      → ((a : A) → Stays R (g a))
      → Stays R (m >>= g)
  unfolding ◌>>=◌
  Stays-bind m g h k = record { at = λ w. let (r, v) = m w in Stays-continue r g w v (h.at w) k }

Stays-drop_error :
    (R : World → World → Type 0) {A : Type 0} (w : World) (r : Result A) (v : World)
    → R w v
    → R w (drop_error r v).1
Stays-drop_error R w (ok a) v k = k
Stays-drop_error R w (err e) v k = k

pub Stays-attempt :
    {R : World → World → Type 0} {A : Type 0} (m : Action A) → Stays R m → Stays R (attempt m)
unfolding attempt
Stays-attempt {R} m h = record { at = λ w. let (r, v) = m w in Stays-drop_error R w r v (h.at w) }

pub Stays-if :
    {R : World → World → Type 0} {A : Type 0} (b : Bool) (m n : Action A)
    → (b ≡ true → Stays R m)
    → (b ≡ false → Stays R n)
    → Stays R (if b then m else n)
Stays-if true m n h k = h refl
Stays-if false m n h k = k refl

pub ruleset stays_rules = (
  Stays-pure, Stays-raise, Stays-gets, Stays-or_raise, Stays-raise_if, Stays-bind, Stays-if,
  Stays-attempt,
)
