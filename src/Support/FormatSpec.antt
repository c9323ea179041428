-- ===== src/Support/FormatSpec.antt =====
-- support/FormatSpec.h and FormatSpec.cpp: the specifier of a conversion, and its parser.
use proto_scala.Common.{
  ℕ, ◌+◌, ◌-◌, ◌*◌, ◌^◌, Bool, true, false, ◌&&◌, ◌||◌, ltb, leb, ◌==◌, if◌then◌else◌, Option, none,
  some, [], ◌∷◌, ◌++◌, Bytes, codes, Outcome, ok, err, ◌>>=◌,
}

-- `FormatSpec`; a width or a precision of -1 is none.
pub record FormatSpec : Type 0 where
  pub conversion : ℕ
  pub left_align : Bool
  pub plus_sign : Bool
  pub space_sign : Bool
  pub zero_pad : Bool
  pub grouping : Bool
  pub alternate : Bool
  pub width : Option ℕ
  pub precision : Option ℕ

-- `%s`
abbrev pub default_spec : FormatSpec
default_spec = record {
  conversion = 115;
  left_align = false;
  plus_sign = false;
  space_sign = false;
  zero_pad = false;
  grouping = false;
  alternate = false;
  width = none;
  precision = none;
}

-- What the parser throws: `std::invalid_argument`, or `std::out_of_range` of `std::stoi`.
pub data FormatError : Type 0 where
  invalid_argument : Bytes → FormatError
  out_of_range : FormatError

abbrev pub Result : Type 0 → Type 0
Result A = Outcome FormatError A

abbrev pub is_digit : ℕ → Bool
is_digit c = leb 48 c && leb c 57

abbrev pub is_flag : ℕ → Bool
is_flag c = c == 45 || (c == 43 || (c == 32 || (c == 48 || (c == 44 || c == 35))))

abbrev pub set_flag : ℕ → FormatSpec → FormatSpec
set_flag c s =
    if c == 45
    then record s { left_align = true }
    else if c == 43
    then record s { plus_sign = true }
    else if c == 32
    then record s { space_sign = true }
    else if c == 48
    then record s { zero_pad = true }
    else if c == 44
    then record s { grouping = true }
    else record s { alternate = true }

-- The loop over the flags, which gives what stands behind them.
unfoldable pub read_flags : FormatSpec → Bytes → FormatSpec × Bytes
read_flags s [] = (s, [])
read_flags s (c ∷ cs) =
    let behind = read_flags (set_flag c s) cs in if is_flag c then behind else (s, c ∷ cs)

-- The digits that a text starts with, and what stands behind them.
unfoldable pub span_digits : Bytes → Bytes × Bytes
span_digits [] = ([], [])
span_digits (c ∷ cs) =
    let behind = span_digits cs in if is_digit c then (c ∷ behind.0, behind.1) else ([], c ∷ cs)

unfoldable pub digits_value : ℕ → Bytes → ℕ
digits_value n [] = n
digits_value n (c ∷ cs) = digits_value (n * 10 + (c - 48)) cs

-- `std::stoi` of digits
unfoldable pub stoi : Bytes → Result ℕ
unfolding digits_value
stoi ds = if ltb (digits_value 0 ds) (2 ^ 31) then ok (digits_value 0 ds) else err out_of_range

unfoldable pub read_width : Bytes → Result (Option ℕ)
unfolding stoi
read_width [] = ok none
read_width (d ∷ ds) = stoi (d ∷ ds) >>= λ n. ok (some n)

unfoldable pub read_precision : Bytes → Result (Option ℕ)
unfolding stoi
read_precision [] = ok (some 0)
read_precision (d ∷ ds) = stoi (d ∷ ds) >>= λ n. ok (some n)

abbrev pub is_conversion : ℕ → Bool
is_conversion c =
    (c == 115 || (c == 98 || (c == 99 || (c == 100 || (c == 111 || (c == 120 || c == 88))))))
    || (c == 101 || (c == 69 || (c == 102 || (c == 103 || c == 71))))

abbrev pub unsupported : Bytes → FormatError
unsupported spec = invalid_argument (codes "unsupported format specifier '" ++ (spec ++ codes "'"))

unfoldable pub read_conversion : Bytes → FormatSpec → Bytes → Result FormatSpec
read_conversion spec s [] = err (unsupported spec)
read_conversion spec s (c ∷ d ∷ cs) = err (unsupported spec)
read_conversion spec s (c ∷ []) =
    if is_conversion c then ok (record s { conversion = c }) else err (unsupported spec)

-- Behind the width
unfoldable pub read_behind : Bytes → FormatSpec → Bytes → Result FormatSpec
unfolding read_conversion read_precision span_digits
read_behind spec s [] = read_conversion spec s []
read_behind spec s (c ∷ cs) =
    let digits = span_digits cs in
    if c == 46
    then (read_precision digits.0 >>= λ p.
        read_conversion spec (record s { precision = p }) digits.1)
    else read_conversion spec s (c ∷ cs)

-- `parseFormatSpec`
unfoldable pub parse_format_spec : Bytes → Result FormatSpec
unfolding read_flags span_digits read_width read_behind
parse_format_spec [] = ok default_spec
parse_format_spec (c ∷ cs) =
    let flags = read_flags default_spec cs in
    let digits = span_digits flags.1 in
    if c == 37
    then (read_width digits.0 >>= λ w. read_behind (c ∷ cs) (record flags.0 { width = w }) digits.1)
    else err (invalid_argument (codes "a format specifier starts with '%'"))
