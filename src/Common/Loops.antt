-- ===== src/Common/Loops.antt =====
-- A C++ loop with a state: its body gives the state of the next turn, or what stands behind the
-- loop. `none` is a loop that has not ended within its fuel.
use Prim.Native.Nat.{ℕ, zero, suc, ◌<◌}
use mathlib.Core.Path.{◌≡◌, refl}
use mathlib.Core.Logic.{◌⊎◌, inl, inr}
use mathlib.Core.Option.{Option, none, some}
use mathlib.Core.Bool.{Bool, true, false}
use native.Mathlib.Omega.{arith}
use proto_scala.Common.Tests.{if◌then◌else◌}

infixl 5 ◌>>=?◌
abbrev pub ◌>>=?◌ {ℓ κ} : {A : Type ℓ} {B : Type κ} → Option A → (A → Option B) → Option B
none >>=? f = none
some a >>=? f = f a

-- What an optional result holds.
pub data Gives {ℓ κ} {A : Type ℓ} (Q : A → Type κ) : Option A → Type (ℓ ⊔ κ) where
  gives : {a : A} → Q a → Gives Q (some a)

pub Gives-bind {ℓ κ ℓ' κ'} :
    {A : Type ℓ} {B : Type κ} {Q : A → Type ℓ'} {R : B → Type κ'} {m : Option A} {f : A → Option B}
    → Gives Q m
    → ((a : A) → Q a → Gives R (f a))
    → Gives R (m >>=? f)
Gives-bind (gives q) k = k _ q

pub Gives-map {ℓ ℓ' κ'} :
    {A : Type ℓ} {Q : A → Type ℓ'} {R : A → Type κ'} {m : Option A}
    → Gives Q m
    → ((a : A) → Q a → R a)
    → Gives R m
Gives-map (gives q) k = gives (k _ q)

pub Gives-some {ℓ κ} : {A : Type ℓ} {Q : A → Type κ} {a : A} → Gives Q (some a) → Q a
Gives-some (gives q) = q

module _ {ℓ κ} {S : Type ℓ} {R : Type κ} where
  unfoldable pub loop : (S → Option (S ⊎ R)) → ℕ → S → Option R
  loop body zero s = none
  loop body (suc f) s = elim (body s) [
    | none ↦ none
    | some (inl next) ↦ loop body f next
    | some (inr r) ↦ some r
  ]

  -- A turn either goes on below a bound or ends.
  pub data Turn {ι κ'} (I : S → Type ι) (m : S → ℕ) (n : ℕ) (Q : R → Type κ')
      : Option (S ⊎ R) → Type (ℓ ⊔ κ ⊔ ι ⊔ κ') where
    goes_on : {s : S} → I s → m s < n → Turn I m n Q (some (inl s))
    ends : {r : R} → Q r → Turn I m n Q (some (inr r))

  -- A loop whose every turn lowers a measure ends within that fuel, and keeps its invariant.
  pub loop-Gives {ι κ'} :
      (I : S → Type ι) (m : S → ℕ) (Q : R → Type κ') (body : S → Option (S ⊎ R))
      → ((s : S) → I s → Turn I m (m s) Q (body s))
      → (f : ℕ) (s : S) → m s < f
      → I s
      → Gives Q (loop body f s)
  unfolding loop
  loop-Gives I m Q body turn zero s lt i = ground arith
  loop-Gives I m Q body turn (suc f) s lt i =
      turn-Gives (body s) (turn s i)
        (λ next j less. loop-Gives I m Q body turn f next (ground arith) j)
    where
      turn-Gives :
          (o : Option (S ⊎ R))
          → Turn I m (m s) Q o
          → ((next : S) → I next → m next < m s → Gives Q (loop body f next))
          → Gives Q
              (elim o [ none ↦ none | some (inl next) ↦ loop body f next | some (inr r) ↦ some r ])
      turn-Gives o (goes_on j less) k = k _ j less
      turn-Gives o (ends q) k = gives q

  pub Turn-if {ι κ'} :
      {I : S → Type ι} {m : S → ℕ} {n : ℕ} {Q : R → Type κ'} (b : Bool) {x y : Option (S ⊎ R)}
      → (b ≡ true → Turn I m n Q x)
      → (b ≡ false → Turn I m n Q y)
      → Turn I m n Q (if b then x else y)
  Turn-if true f g = f refl
  Turn-if false f g = g refl

  -- A turn that runs a loop of its own.
  pub Turn-bind {ι κ' α β} :
      {I : S → Type ι} {m : S → ℕ} {n : ℕ} {Q : R → Type κ'} {A : Type α} {P : A → Type β}
      {o : Option A} {k : A → Option (S ⊎ R)}
      → Gives P o
      → ((a : A) → P a → Turn I m n Q (k a))
      → Turn I m n Q (o >>=? k)
  Turn-bind (gives p) f = f _ p

  pub loop-step :
      (body : S → Option (S ⊎ R)) (f : ℕ) (s : S) {next : S}
      → body s ≡ some (inl next)
      → loop body (suc f) s ≡ loop body f next
  unfolding loop
  loop-step body f s h = rw (h, loop) refl

  pub loop-end :
      (body : S → Option (S ⊎ R)) (f : ℕ) (s : S) {r : R}
      → body s ≡ some (inr r)
      → loop body (suc f) s ≡ some r
  unfolding loop
  loop-end body f s h = rw (h, loop) refl
