-- ===== src/Common/Sums.antt =====
-- Sums over the calls of threads, a list of stacks, and how often a number stands in a list.
use Prim.Native.Nat.{ℕ, zero, suc, ◌+◌, ◌≤◌}
use mathlib.Core.Path.{◌≡◌, refl}
use mathlib.Core.List.{List, [], ◌∷◌, ◌++◌}
use native.Mathlib.Omega.{arith}
use proto_scala.Common.Lists.{replicate}
use proto_scala.Common.Tests.{◌==◌, if◌then◌else◌}

module _ {ℓ} {A : Type ℓ} where
  abbrev pub sum_of : (A → ℕ) → List A → ℕ
  sum_of f [] = 0
  sum_of f (x ∷ xs) = f x + sum_of f xs

  abbrev pub total_of : (A → ℕ) → List (List A) → ℕ
  total_of f [] = 0
  total_of f (t ∷ ts) = sum_of f t + total_of f ts

  pub sum_of-append : (f : A → ℕ) (xs ys : List A) → sum_of f (xs ++ ys) ≡ sum_of f xs + sum_of f ys
  sum_of-append f [] ys = omega arith
  sum_of-append f (x ∷ xs) ys = omega (arith, sum_of-append f xs ys)

  total_of-append :
      (f : A → ℕ) (ts us : List (List A)) → total_of f (ts ++ us) ≡ total_of f ts + total_of f us
  total_of-append f [] us = omega arith
  total_of-append f (t ∷ ts) us = omega (arith, total_of-append f ts us)

  -- The sum over all but the top of one stack.
  abbrev pub rest_of : (A → ℕ) → List (List A) → List A → List (List A) → ℕ
  rest_of f us under ts = total_of f us + sum_of f under + total_of f ts

  pub total_of-focus :
      (f : A → ℕ) (us ts : List (List A)) (under top : List A)
      → total_of f (us ++ (top ++ under) ∷ ts) ≡ sum_of f top + rest_of f us under ts
  total_of-focus f us ts under top =
      omega (arith, total_of-append f us ((top ++ under) ∷ ts), sum_of-append f top under)

  sum_of-le : (f g : A → ℕ) (xs : List A) → ((x : A) → f x ≤ g x) → sum_of f xs ≤ sum_of g xs
  sum_of-le f g [] le = omega arith
  sum_of-le f g (x ∷ xs) le = omega (arith, le x, sum_of-le f g xs le)

  pub total_of-le :
      (f g : A → ℕ) (ts : List (List A)) → ((x : A) → f x ≤ g x) → total_of f ts ≤ total_of g ts
  total_of-le f g [] le = omega arith
  total_of-le f g (t ∷ ts) le = omega (arith, sum_of-le f g t le, total_of-le f g ts le)

  pub rest_of-le :
      (f g : A → ℕ) (us : List (List A)) (under : List A) (ts : List (List A))
      → ((x : A) → f x ≤ g x)
      → rest_of f us under ts ≤ rest_of g us under ts
  rest_of-le f g us under ts le =
      omega (arith, total_of-le f g us le, sum_of-le f g under le, total_of-le f g ts le)

  -- Where nothing is left, nothing counts.
  sum_of-empty : (f : A → ℕ) (xs : List A) → sum_of (λ x. 1) xs ≡ 0 → sum_of f xs ≡ 0
  sum_of-empty f [] h = refl
  sum_of-empty f (x ∷ xs) h = absurd (omega arith)

  pub total_of-empty :
      (f : A → ℕ) (ts : List (List A)) → total_of (λ x. 1) ts ≡ 0 → total_of f ts ≡ 0
  total_of-empty f [] h = refl
  total_of-empty f (t ∷ ts) h =
      omega (arith, sum_of-empty f t (omega arith), total_of-empty f ts (omega arith))

  pub total_of-none : (f : A → ℕ) (n : ℕ) → total_of f (replicate n []) ≡ 0
  total_of-none f zero = refl
  total_of-none f (suc n) = omega (arith, total_of-none f n)

-- How often `k` stands in a list.
abbrev pub count : ℕ → List ℕ → ℕ
count k = sum_of (λ x. if x == k then 1 else 0)

pub count-append : (k : ℕ) (us ts : List ℕ) → count k (us ++ ts) ≡ count k us + count k ts
count-append k = sum_of-append (λ x. if x == k then 1 else 0)
