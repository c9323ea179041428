-- ===== src/Support/FormatLaws.antt =====
-- support/FormatSpec.cpp: a specifier that is written out is parsed back.
use proto_scala.Common.{
  ℕ, ◌^◌, ◌<◌, ◌≤◌, ◌≡◌, refl, ap, ◌∙◌, Bool, true, false, lt→ltb, ◌==◌, Option, none, some, [],
  ◌∷◌, ◌++◌, Bytes, to_string, ok, err, arith,
}
use proto_scala.Support.FormatSpec.{
  FormatSpec, default_spec, is_digit, is_flag, set_flag, read_flags, span_digits, digits_value,
  stoi, read_width, read_precision, is_conversion, read_conversion, read_behind, parse_format_spec,
  out_of_range,
}
use proto_scala.Support.Decimals.{
  digits_value-to_string, to_string-AreDigits, StartsHigh, to_string-StartsHigh, NoDigit,
  span_digits-append,
}

abbrev pub flag_text : Bool → ℕ → Bytes
flag_text true c = c ∷ []
flag_text false c = []

abbrev pub width_text : Option ℕ → Bytes
width_text none = []
width_text (some n) = to_string n

abbrev pub precision_text : Option ℕ → Bytes
precision_text none = []
precision_text (some n) = 46 ∷ to_string n

abbrev behind_flags : FormatSpec → Bytes
behind_flags s = width_text s.width ++ (precision_text s.precision ++ s.conversion ∷ [])

abbrev flag_texts : FormatSpec → Bytes → Bytes
flag_texts s rest =
    flag_text s.left_align 45
    ++ (flag_text s.plus_sign 43
        ++ (flag_text s.space_sign 32
            ++ (flag_text s.zero_pad 48
                ++ (flag_text s.grouping 44 ++ (flag_text s.alternate 35 ++ rest)))))

-- `%[flags][width][.precision]conversion`
unfoldable pub format_text : FormatSpec → Bytes
format_text s = 37 ∷ flag_texts s (behind_flags s)

-- No byte of a flag stands at the start.
abbrev NoFlag : Bytes → Type 0
NoFlag [] = Unit
NoFlag (c ∷ cs) = is_flag c ≡ false

read_flags-none : (s : FormatSpec) (rest : Bytes) → NoFlag rest → read_flags s rest ≡ (s, rest)
unfolding read_flags
read_flags-none s [] h = refl
read_flags-none s (c ∷ cs) h = rw h refl

abbrev with_flags : Bool → Bool → Bool → Bool → Bool → Bool → FormatSpec
with_flags a b c d e f = record default_spec {
  left_align = a;
  plus_sign = b;
  space_sign = c;
  zero_pad = d;
  grouping = e;
  alternate = f;
}

module _ (rest : Bytes) where
  -- The specifier before and behind one flag
  read_flags-text :
      (spec : Bool → FormatSpec) (b : Bool) (c : ℕ)
      → is_flag c ≡ true
      → set_flag c (spec false) ≡ spec true
      → read_flags (spec false) (flag_text b c ++ rest) ≡ read_flags (spec b) rest
  unfolding read_flags
  read_flags-text spec true c h e = rw (h, e) refl
  read_flags-text spec false c h e = refl

read_flags-flag_texts :
    (s : FormatSpec) (rest : Bytes)
    → NoFlag rest
    → read_flags default_spec (flag_texts s rest)
      ≡ (with_flags s.left_align s.plus_sign s.space_sign s.zero_pad s.grouping s.alternate, rest)
read_flags-flag_texts s rest h =
    by_flags s.left_align s.plus_sign s.space_sign s.zero_pad s.grouping s.alternate
  where
    by_flags :
        (a b c d e f : Bool)
        → read_flags default_spec (
            flag_text a 45
            ++ (flag_text b 43
                ++ (flag_text c 32
                    ++ (flag_text d 48 ++ (flag_text e 44 ++ (flag_text f 35 ++ rest))))))
          ≡ (with_flags a b c d e f, rest)
    by_flags a b c d e f =
        read_flags-text _ (λ x. with_flags x false false false false false) a 45 refl refl
        ∙ read_flags-text _ (λ x. with_flags a x false false false false) b 43 refl refl
        ∙ read_flags-text _ (λ x. with_flags a b x false false false) c 32 refl refl
        ∙ read_flags-text _ (λ x. with_flags a b c x false false) d 48 refl refl
        ∙ read_flags-text _ (λ x. with_flags a b c d x false) e 44 refl refl
        ∙ read_flags-text rest (λ x. with_flags a b c d e x) f 35 refl refl
        ∙ read_flags-none (with_flags a b c d e f) rest h

-- What `std::stoi` holds.
abbrev pub InRange : Option ℕ → Type 0
InRange none = Unit
InRange (some n) = n < 2 ^ 31

-- A width of 0 would be the flag 0.
abbrev pub IsPositive : Option ℕ → Type 0
IsPositive none = Unit
IsPositive (some n) = 0 < n

stoi-eq-ok : (ds : Bytes) (n : ℕ) → digits_value 0 ds ≡ n → n < 2 ^ 31 → stoi ds ≡ ok n
unfolding stoi
stoi-eq-ok ds n e lt = rw (e, lt→ltb n (2 ^ 31) lt) refl

stoi-eq-err : (ds : Bytes) (n : ℕ) → digits_value 0 ds ≡ n → 2 ^ 31 ≤ n → stoi ds ≡ err out_of_range
unfolding stoi
stoi-eq-err ds n e le = rw e (ground (arith, le))

read_width-wide :
    (ds : Bytes) (n : ℕ)
    → StartsHigh ds
    → digits_value 0 ds ≡ n
    → 2 ^ 31 ≤ n
    → read_width ds ≡ err out_of_range
unfolding read_width
read_width-wide [] n l e le = ground (arith, l)
read_width-wide (d ∷ ds) n l e le = rw (stoi-eq-err (d ∷ ds) n e le) refl

module _ (c : ℕ) (h : is_conversion c ≡ true) where
  conversion-high : 68 < c
  conversion-high = ground (arith, h)

  conversion-ne-flag : is_flag c ≡ false
  conversion-ne-flag = ground (arith, conversion-high)

  conversion-ne-digit : is_digit c ≡ false
  conversion-ne-digit = ground (arith, conversion-high)

  conversion-ne-dot : (c == 46) ≡ false
  conversion-ne-dot = ground (arith, conversion-high)

  NoFlag-high : (ds rest : Bytes) → StartsHigh ds → NoFlag (ds ++ rest)
  NoFlag-high [] rest l = ground (arith, l)
  NoFlag-high (d ∷ ds) rest l = ground (arith, l)

  NoFlag-behind :
      (w p : Option ℕ) → IsPositive w → NoFlag (width_text w ++ (precision_text p ++ c ∷ []))
  NoFlag-behind none none i = conversion-ne-flag
  NoFlag-behind none (some n) i = refl
  NoFlag-behind (some n) p i = NoFlag-high (to_string n) _ (to_string-StartsHigh n i)

  NoDigit-precision : (p : Option ℕ) → NoDigit (precision_text p ++ c ∷ [])
  NoDigit-precision none = conversion-ne-digit
  NoDigit-precision (some n) = refl

  span_digits-width :
      (w : Option ℕ) (rest : Bytes)
      → NoDigit rest
      → span_digits (width_text w ++ rest) ≡ (width_text w, rest)
  span_digits-width none rest n = span_digits-append [] rest tt n
  span_digits-width (some m) rest n =
      span_digits-append (to_string m) rest (to_string-AreDigits m) n

  read_width-high :
      (ds : Bytes) (n : ℕ)
      → StartsHigh ds
      → digits_value 0 ds ≡ n
      → n < 2 ^ 31
      → read_width ds ≡ ok (some n)
  unfolding read_width
  read_width-high [] n l e lt = ground (arith, l)
  read_width-high (d ∷ ds) n l e lt = rw (stoi-eq-ok (d ∷ ds) n e lt) refl

  read_width-text : (w : Option ℕ) → IsPositive w → InRange w → read_width (width_text w) ≡ ok w
  unfolding read_width
  read_width-text none i r = refl
  read_width-text (some n) i r =
      read_width-high (to_string n) n (to_string-StartsHigh n i) (digits_value-to_string n) r

  read_precision-text :
      (ds : Bytes) (n : ℕ) → digits_value 0 ds ≡ n → n < 2 ^ 31 → read_precision ds ≡ ok (some n)
  unfolding read_precision digits_value
  read_precision-text [] n e lt = ap (λ m. ok (some m)) e
  read_precision-text (d ∷ ds) n e lt = rw (stoi-eq-ok (d ∷ ds) n e lt) refl

  read_behind-text :
      (spec : Bytes) (s : FormatSpec) (p : Option ℕ)
      → InRange p
      → read_behind spec (record s { precision = none }) (precision_text p ++ c ∷ [])
        ≡ ok (record s { precision = p; conversion = c })
  unfolding read_behind read_conversion
  read_behind-text spec s none r = rw (conversion-ne-dot, h) refl
  read_behind-text spec s (some n) r =
      rw
        (
          span_digits-append (to_string n) (c ∷ []) (to_string-AreDigits n) conversion-ne-digit,
          read_precision-text (to_string n) n (digits_value-to_string n) r,
          h,
        )
        refl

-- A specifier with one of the conversions, a width of 1 to 2147483647 or none, and a precision of at most
-- 2147483647 or none is parsed back from its text.
pub parse_format_spec-format_text :
    (s : FormatSpec)
    → is_conversion s.conversion ≡ true
    → IsPositive s.width
    → InRange s.width
    → InRange s.precision
    → parse_format_spec (format_text s) ≡ ok s
unfolding parse_format_spec format_text
parse_format_spec-format_text s h i w p =
    rw
      (
        read_flags-flag_texts s (behind_flags s)
            (NoFlag-behind s.conversion h s.width s.precision i),
        span_digits-width s.conversion h s.width (precision_text s.precision ++ s.conversion ∷ [])
            (NoDigit-precision s.conversion h s.precision),
        read_width-text s.conversion h s.width i w,
      )
      (read_behind-text s.conversion h (format_text s)
        (record (with_flags s.left_align s.plus_sign s.space_sign s.zero_pad s.grouping
          s.alternate) { width = s.width })
        s.precision p)

-- A specifier with a width above 2147483647 is refused with `std::out_of_range`, whatever its flags, its
-- precision and its conversion are.
pub parse_format_spec-wide :
    (s : FormatSpec) (n : ℕ)
    → is_conversion s.conversion ≡ true
    → 2 ^ 31 ≤ n
    → parse_format_spec (format_text (record s { width = some n })) ≡ err out_of_range
unfolding parse_format_spec format_text
parse_format_spec-wide s n h le =
    rw
      (
        read_flags-flag_texts s (behind_flags (record s { width = some n }))
            (NoFlag-behind s.conversion h (some n) s.precision (omega (arith, le))),
        span_digits-width s.conversion h (some n) (precision_text s.precision ++ s.conversion ∷ [])
            (NoDigit-precision s.conversion h s.precision),
        read_width-wide (to_string n) n (to_string-StartsHigh n (omega (arith, le)))
            (digits_value-to_string n) le,
      )
      refl
