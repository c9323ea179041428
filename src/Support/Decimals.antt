-- ===== src/Support/Decimals.antt =====
-- The decimal digits of a number are digits, are read back to it, and do not start with a zero.
use proto_scala.Common.{
  ℕ, zero, suc, ◌+◌, ◌-◌, ◌*◌, ◌/◌, ◌%◌, ◌<◌, ◌≡◌, refl, Bool, true, false, ltb, if◌then◌else◌, [],
  ◌∷◌, ◌++◌, Bytes, decimal_with, to_string, arith, All, All-append,
}
use proto_scala.Support.FormatSpec.{is_digit, span_digits, digits_value}

digits_value-append :
    (n : ℕ) (ds : Bytes) (c : ℕ) → digits_value n (ds ++ c ∷ []) ≡ digits_value n ds * 10 + (c - 48)
unfolding digits_value
digits_value-append n [] c = refl
digits_value-append n (d ∷ ds) c = digits_value-append (n * 10 + (d - 48)) ds c

-- What holds of one digit, and of a number with one more digit than one of which it holds, holds of the
-- digits of every number.
decimal_with-induction :
    (P : ℕ → Bytes → Type 0)
    → ((n : ℕ) → n < 10 → P n ((48 + n) ∷ []))
    → ((n : ℕ) (ds : Bytes) → 9 < n → P (n / 10) ds → P n (ds ++ (48 + n % 10) ∷ []))
    → (f n : ℕ) → n < f
    → P n (decimal_with f n)
decimal_with-induction P digit more zero n lt = ground arith
decimal_with-induction P digit more (suc f) n lt =
    by_test (ltb n 10) refl (decimal_with-induction P digit more f (n / 10))
  where
    by_test :
        (b : Bool)
        → ltb n 10 ≡ b
        → (n / 10 < f → P (n / 10) (decimal_with f (n / 10)))
        → P n (if b then (48 + n) ∷ [] else decimal_with f (n / 10) ++ (48 + n % 10) ∷ [])
    by_test true h k = digit n (ground (arith, h))
    by_test false h k = more n (decimal_with f (n / 10)) (ground (arith, h)) (k (ground (arith, h)))

pub digits_value-to_string : (n : ℕ) → digits_value 0 (to_string n) ≡ n
unfolding digits_value
digits_value-to_string n =
    decimal_with-induction (λ m ds. digits_value 0 ds ≡ m) (λ m lt. omega arith)
      (λ m ds lt e. omega (arith, digits_value-append 0 ds (48 + m % 10), e)) (suc n) n
      (omega arith)

pub to_string-AreDigits : (n : ℕ) → All (λ c. is_digit c ≡ true) (to_string n)
to_string-AreDigits n =
    decimal_with-induction (λ m ds. All (λ c. is_digit c ≡ true) ds) (λ m lt. (ground arith, tt))
      (λ m ds lt e. All-append (λ c. is_digit c ≡ true) ds _ e (ground arith, tt)) (suc n) n
      (omega arith)

-- A text that starts with a digit other than 0
abbrev pub StartsHigh : Bytes → Type 0
StartsHigh [] = 1 < 0
StartsHigh (c ∷ cs) = (48 < c) × (c < 58)

StartsHigh-append : (ds es : Bytes) → StartsHigh ds → StartsHigh (ds ++ es)
StartsHigh-append [] es h = ground (arith, h)
StartsHigh-append (d ∷ ds) es h = h

pub to_string-StartsHigh : (n : ℕ) → 0 < n → StartsHigh (to_string n)
to_string-StartsHigh n lt =
    decimal_with-induction (λ m ds. 0 < m → StartsHigh ds)
      (λ m small pos. (omega (arith, pos), omega (arith, small)))
      (λ m ds large e pos. StartsHigh-append ds _ (e (omega (arith, large)))) (suc n) n
      (omega arith) lt

-- A text whose first byte is not a digit.
abbrev pub NoDigit : Bytes → Type 0
NoDigit [] = Unit
NoDigit (c ∷ cs) = is_digit c ≡ false

span_digits-none : (rest : Bytes) → NoDigit rest → span_digits rest ≡ ([], rest)
unfolding span_digits
span_digits-none [] h = refl
span_digits-none (c ∷ cs) h = ground (arith, h)

pub span_digits-append :
    (ds rest : Bytes)
    → All (λ c. is_digit c ≡ true) ds
    → NoDigit rest
    → span_digits (ds ++ rest) ≡ (ds, rest)
unfolding span_digits
span_digits-append [] rest a h = span_digits-none rest h
span_digits-append (d ∷ ds) rest a h = rw (a.0, span_digits-append ds rest a.1 h) refl
