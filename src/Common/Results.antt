-- ===== src/Common/Results.antt =====
-- The outcome of C++ code that throws an error `e` or reads outside what it owns (`fault`,
-- undefined behaviour in the source).
use mathlib.Core.Path.{◌≡◌, refl}

pub data Outcome {ℓ κ} (E : Type κ) (A : Type ℓ) : Type (ℓ ⊔ κ) where
  ok : A → Outcome E A
  err : E → Outcome E A
  fault : Outcome E A

module _ {κ} {E : Type κ} where
  infixl 5 ◌>>=◌
  abbrev pub ◌>>=◌ {ℓ ℓ'} :
      {A : Type ℓ} {B : Type ℓ'} → Outcome E A → (A → Outcome E B) → Outcome E B
  ok a >>= f = f a
  err e >>= f = err e
  fault >>= f = fault

  -- Inversion of a bind that succeeds.
  pub bind-eq-ok {ℓ ℓ'} :
      {A : Type ℓ} {B : Type ℓ'} (m : Outcome E A) (f : A → Outcome E B) {b : B}
      → (m >>= f) ≡ ok b
      → (a : A) × (m ≡ ok a) × (f a ≡ ok b)
  bind-eq-ok (ok a) f h = (a, refl, h)
  bind-eq-ok (err e) f h = cc
  bind-eq-ok fault f h = cc

  pub ok-injective {ℓ} : {A : Type ℓ} {a b : A} → ◌≡◌ {A = Outcome E A} (ok a) (ok b) → a ≡ b
  ok-injective h = cc
