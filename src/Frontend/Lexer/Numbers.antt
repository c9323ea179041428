-- ===== src/Frontend/Lexer/Numbers.antt =====
-- frontend/Lexer.cpp: `lexNumber`. `strtod` of the C library is a parameter that returns the bit pattern
-- of a double; `strtoll` is written out for the digits that reach it.
use proto_scala.Common.{
  ℕ, ◌+◌, ◌-◌, ◌*◌, ◌^◌, Bool, true, false, not, ◌&&◌, ◌||◌, ltb, leb, ◌==◌, if◌then◌else◌, [], ◌∷◌,
  ◌++◌, Bytes, codes,
}
use proto_scala.Frontend.Token.{SourcePos, Token, int_lit, float_lit}
use proto_scala.Frontend.Lexer.Chars.{is_digit, is_xdigit, ident_char_length}
use proto_scala.Frontend.Lexer.Cursor.{
  Cursor, cur, peek_char, start_of, advance, advance_by, scanned, scan_while, here, Scan, fails,
  scans, ◌>>=◌, failure,
}
use proto_scala.Frontend.Lexer.State.{Lexer, make}

-- A literal while it is read: its digits, whether it is a float, and the cursor.
pub record Literal : Type 0 where
  pub base : ℕ
  pub digits : Bytes
  pub is_float : Bool
  pub cursor : Cursor

abbrev pub is_base_digit : ℕ → ℕ → Bool
is_base_digit base c =
    if base == 16 then is_xdigit c else if base == 2 then c == 48 || c == 49 else is_digit c

abbrev pub without_underscores : Bytes → Bytes
without_underscores [] = []
without_underscores (b ∷ bs) =
    let rest = without_underscores bs in if b == 95 then rest else b ∷ rest

abbrev pub ends_in_underscore : Bytes → Bool
ends_in_underscore [] = false
ends_in_underscore (b ∷ []) = b == 95
ends_in_underscore (b ∷ (d ∷ bs)) = ends_in_underscore (d ∷ bs)

-- `while (!eof() && (isBaseDigit(cur()) || cur() == '_'))`, and the test behind it; `start` is where
-- the literal begins.
unfoldable pub read_digits : SourcePos → Literal → Scan Literal
unfolding scanned
read_digits start l =
    let (run, c) = scan_while (here (λ b. is_base_digit l.base b || b == 95)) l.cursor in
    if ends_in_underscore run
    then fails (failure (codes "trailing '_' in number literal") start c)
    else scans (record l { digits = l.digits ++ without_underscores run; cursor = c })

abbrev pub literal_in : ℕ → Cursor → Literal
literal_in base c = record { base = base; digits = []; is_float = false; cursor = c }

-- The prefix of a base, or a leading zero, which is refused.
unfoldable pub read_prefix : Cursor → Scan Literal
unfolding advance_by
read_prefix c =
    if cur c == 48 && (peek_char 1 c == 120 || peek_char 1 c == 88)
    then scans (literal_in 16 (advance_by 2 c))
    else if cur c == 48 && (peek_char 1 c == 98 || peek_char 1 c == 66)
    then scans (literal_in 2 (advance_by 2 c))
    else if cur c == 48 && is_digit (peek_char 1 c)
    then fails
        (failure (codes "decimal integer literals may not have a leading zero") (start_of c) c)
    else scans (literal_in 10 c)

-- `digits += …`, with the cursor one byte on.
abbrev pub with_char : ℕ → Literal → Literal
with_char b l = record l { digits = l.digits ++ b ∷ []; is_float = true; cursor = advance l.cursor }

unfoldable pub read_fraction : SourcePos → Literal → Scan Literal
unfolding read_digits
read_fraction start l =
    if cur l.cursor == 46 && is_digit (peek_char 1 l.cursor)
    then read_digits start (with_char 46 l)
    else scans l

abbrev pub has_sign : Cursor → Bool
has_sign c = peek_char 1 c == 43 || peek_char 1 c == 45

abbrev pub with_sign : Bool → Literal → Literal
with_sign false l = l
with_sign true l = with_char (cur l.cursor) l

unfoldable pub read_exponent : SourcePos → Literal → Scan Literal
unfolding read_digits
read_exponent start l =
    let c = l.cursor in
    let candidate = if has_sign c then peek_char 2 c else peek_char 1 c in
    if (cur c == 101 || cur c == 69) && is_digit candidate
    then read_digits start (with_sign (has_sign c) (with_char 101 l))
    else scans l

-- `f`, `F`, `d` or `D`
abbrev pub read_float_suffix : Literal → Literal
read_float_suffix l =
    let b = cur l.cursor in
    if b == 102 || b == 70 || b == 100 || b == 68
    then record l { is_float = true; cursor = advance l.cursor }
    else l

abbrev pub read_float : SourcePos → Literal → Scan Literal
read_float start l = do
  fraction ← read_fraction start l
  exponent ← read_exponent start fraction
  scans (read_float_suffix exponent)

abbrev pub read_decimal : SourcePos → Literal → Scan Literal
read_decimal start l = if l.base == 10 then read_float start l else scans l

-- `l` or `L`
abbrev pub read_long_suffix : Literal → Literal
read_long_suffix l =
    let b = cur l.cursor in
    if not l.is_float && (b == 108 || b == 76) then record l { cursor = advance l.cursor } else l

abbrev pub digit_value : ℕ → ℕ
digit_value c = if leb c 57 then c - 48 else if leb c 70 then c - 55 else c - 87

unfoldable pub value_from : ℕ → ℕ → Bytes → ℕ
value_from base n [] = n
value_from base n (b ∷ bs) = value_from base (n * base + digit_value b) bs

-- `LLONG_MAX`
abbrev pub greatest_long : ℕ
greatest_long = 2 ^ 63 - 1

unfoldable pub literal_token : (Bytes → ℕ) → Lexer → SourcePos → Literal → Token
unfolding value_from make
literal_token strtod lx start l =
    let value = value_from l.base 0 l.digits in
    if l.is_float
    then record (make lx l.cursor float_lit start l.digits) { float_value = strtod l.digits }
    else record (make lx l.cursor int_lit start l.digits) {
      digits = l.digits;
      base = l.base;
      fits_long = leb value greatest_long;
      int_value = if leb value greatest_long then value else 0;
    }

-- No identifier character stands behind the literal.
abbrev pub number_end : (Bytes → ℕ) → Lexer → SourcePos → Literal → Scan (Token × Cursor)
number_end strtod lx start l =
    if ltb 0 (ident_char_length l.cursor.rest)
    then fails (failure (codes "malformed number literal") start l.cursor)
    else scans (literal_token strtod lx start l, l.cursor)

unfoldable pub lex_number : (Bytes → ℕ) → Lexer → Cursor → Scan (Token × Cursor)
unfolding read_prefix read_digits read_fraction read_exponent ident_char_length literal_token
lex_number strtod lx c = do
  prefix ← read_prefix c
  digits ← read_digits (start_of c) prefix
  decimal ← read_decimal (start_of c) digits
  number_end strtod lx (start_of c) (read_long_suffix decimal)
