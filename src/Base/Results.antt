-- ===== src/Base/Results.antt =====
-- What holds of the result of a computation that may fail, if there is one.
use mathlib.Core.Path.{◌≡◌, subst}
use mathlib.Core.Option.{Option, none, some}
use ep_engine.Base.Tests.{◌>>=◌, eq_of_some}

module _ {A : Type 0} where
  unfoldable pub Ensures : (A → Type 0) → Option A → Type 0
  Ensures P none = Unit {0}
  Ensures P (some a) = P a

  pub Ensures-pure : (P : A → Type 0) {a : A} → P a → Ensures P (some a)
  unfolding Ensures
  Ensures-pure P h = h

  pub Ensures-none : (P : A → Type 0) → Ensures P none
  unfolding Ensures
  Ensures-none P = tt

  pub Ensures-some : (P : A → Type 0) {o : Option A} {a : A} → Ensures P o → o ≡ some a → P a
  unfolding Ensures
  Ensures-some P {o = none} h e = absurd (cc)
  Ensures-some P {o = some b} {a = a} h e = subst P (eq_of_some e) h

  pub Ensures-map :
      (P Q : A → Type 0) (o : Option A) → ((a : A) → P a → Q a) → Ensures P o → Ensures Q o
  unfolding Ensures
  Ensures-map P Q none f h = tt
  Ensures-map P Q (some a) f h = f a h

module _ {A B : Type 0} where
  pub Ensures-bind :
      (P : A → Type 0) (Q : B → Type 0) (o : Option A) (f : A → Option B)
      → Ensures P o
      → ((a : A) → P a → Ensures Q (f a))
      → Ensures Q (o >>= f)
  unfolding Ensures
  Ensures-bind P Q none f h k = tt
  Ensures-bind P Q (some a) f h k = k a h
