-- ===== src/Frontend/Lexer/NumbersLaws.antt =====
-- frontend/Lexer.cpp: number literals are tokens of the source.
use proto_scala.Common.{
  ℕ, ◌≡◌, refl, sym, Bool, true, false, not, ◌&&◌, ◌||◌, ltb, ◌==◌, if◌then◌else◌, if-holds, ◌⊎◌,
  inl, inr, subst, Bytes, arith,
}
use proto_scala.Frontend.Token.{SourcePos, Token, int_lit, float_lit}
use proto_scala.Frontend.Lexer.Chars.{is_digit, ident_char_length}
use proto_scala.Frontend.Lexer.Cursor.{
  Cursor, eof, cur, peek_char, start_of, advance, scan_while, here,
}
use proto_scala.Frontend.Lexer.State.{Lexer}
use proto_scala.Frontend.Lexer.Numbers.{
  Literal, is_base_digit, ends_in_underscore, read_digits, literal_in, read_prefix, with_char,
  read_fraction, has_sign, with_sign, read_exponent, read_float_suffix, read_decimal,
  read_long_suffix, literal_token, number_end, lex_number,
}
use proto_scala.Frontend.Lexer.Progress.{
  Onward, stays, moved, Onward-trans, advance_by-suc-Onward, scanned-Onward, Further, moved-Further,
  advance-Further, Further-Onward, scan_while-Further, Within, failing, scanning, Within-bind,
  Within-map, scanned-stops,
}
use proto_scala.Frontend.Lexer.Lexed.{is_ordinary, Lexed, LexedScan, Lexed-with, make-Lexed}

read_digits-Onward :
    (c : Cursor) (at : SourcePos) (l : Literal)
    → Onward c l.cursor
    → Within c (λ m. Onward l.cursor m.cursor × (m.base ≡ l.base)) (read_digits at l)
unfolding read_digits
read_digits-Onward c at l o =
    let p : Bytes → Bool = here (λ b. is_base_digit l.base b || b == 95) in
    let s = scanned-Onward p l.cursor.rest l.cursor in
    if-holds (Within c (λ m. Onward l.cursor m.cursor × (m.base ≡ l.base)))
      (ends_in_underscore (scan_while p l.cursor).0) (λ e. failing (Onward-trans o s))
      (λ e. scanning (s, refl))

-- A literal that begins with a point, before its first digit.
abbrev AtPoint : Cursor → Literal → Type 0
AtPoint c l = (l.base ≡ 10) × (l.cursor ≡ c) × (cur c ≡ 46) × (is_digit (peek_char 1 c) ≡ true)

abbrev Begun : Cursor → Literal → Type 0
Begun c l = Further c l.cursor ⊎ AtPoint c l

-- Where `lexNumber` is called.
abbrev pub BeginsNumber : Cursor → Type 0
BeginsNumber c = (is_digit (cur c) ≡ true) ⊎ ((cur c ≡ 46) × (is_digit (peek_char 1 c) ≡ true))

read_prefix-Within :
    (c : Cursor)
    → eof c ≡ false
    → Within c (λ l. Further c l.cursor ⊎ (l ≡ literal_in 10 c)) (read_prefix c)
unfolding read_prefix
read_prefix-Within c h =
    let two = moved-Further c h (advance_by-suc-Onward 1 c) in
    let W = Within c (λ (l : Literal). Further c l.cursor ⊎ (l ≡ literal_in 10 c)) in
    if-holds W (cur c == 48 && (peek_char 1 c == 120 || peek_char 1 c == 88))
      (λ e. scanning (inl two))
      (λ e.
        if-holds W (cur c == 48 && (peek_char 1 c == 98 || peek_char 1 c == 66))
          (λ e'. scanning (inl two))
          (λ e'.
            if-holds W (cur c == 48 && is_digit (peek_char 1 c)) (λ z. failing stays)
              (λ z. scanning (inr refl))))

first_digits-Within :
    (c : Cursor) (at : SourcePos)
    → eof c ≡ false
    → BeginsNumber c
    → Within c (Begun c) (read_digits at (literal_in 10 c))
unfolding read_digits
first_digits-Within c at h (inl digit) =
    let p : Bytes → Bool = here (λ b. is_base_digit 10 b || b == 95) in
    let f = scan_while-Further p c h (ground arith) in
    if-holds (Within c (Begun c)) (ends_in_underscore (scan_while p c).0) (λ e. failing f.onward)
      (λ e. scanning (inl f))
first_digits-Within c at h (inr (point, digit)) =
    rw
      (
        scanned-stops (here (λ b. is_base_digit 10 b || b == 95)) c.rest c (ground arith),
        read_digits,
      )
      (scanning (inr (refl, refl, point, digit)))

Begun-Within :
    (c : Cursor) (l : Literal)
    → eof c ≡ false
    → BeginsNumber c
    → Further c l.cursor ⊎ (l ≡ literal_in 10 c)
    → Within c (Begun c) (read_digits (start_of c) l)
Begun-Within c l h b (inl f) =
    Within-map (read_digits-Onward c (start_of c) l f.onward) (λ m q. inl (Further-Onward f q.0))
Begun-Within c l h b (inr e) =
    subst (λ m. Within c (Begun c) (read_digits (start_of c) m)) (sym e)
      (first_digits-Within c (start_of c) h b)

-- The steps behind the first digits only move on.
abbrev Later : Cursor → Literal → Type 0
Later c l = Further c l.cursor

read_more :
    (c : Cursor) (at : SourcePos) (l : Literal)
    → Further c l.cursor
    → Within c (Later c) (read_digits at l)
read_more c at l f = Within-map (read_digits-Onward c at l f.onward) (λ m q. Further-Onward f q.0)

point_true :
    (c : Cursor)
    → cur c ≡ 46
    → is_digit (peek_char 1 c) ≡ true
    → (cur c == 46 && is_digit (peek_char 1 c)) ≡ true
point_true c p d = rw (p, d) refl

read_fraction-Within :
    (c : Cursor) (at : SourcePos) (l : Literal)
    → eof c ≡ false
    → Begun c l
    → Within c (Later c) (read_fraction at l)
unfolding read_fraction
read_fraction-Within c at l h (inl f) =
    if-holds (Within c (Later c)) (cur l.cursor == 46 && is_digit (peek_char 1 l.cursor))
      (λ e. read_more c at (with_char 46 l) (Further-Onward f (moved stays))) (λ e. scanning f)
read_fraction-Within c at l h (inr (base, same, point, digit)) =
    let f : Further c (advance l.cursor) =
      subst (λ d. Further c (advance d)) (sym same) (advance-Further c h) in
    if-holds (Within c (Later c)) (cur l.cursor == 46 && is_digit (peek_char 1 l.cursor))
      (λ e. read_more c at (with_char 46 l) f)
      (λ e. cc (
        subst (λ d. (cur d == 46 && is_digit (peek_char 1 d)) ≡ false) same e,
        point_true c point digit,
      ))

with_sign-Further :
    (c : Cursor) (s : Bool) (l : Literal) → Further c l.cursor → Further c (with_sign s l).cursor
with_sign-Further c false l f = f
with_sign-Further c true l f = Further-Onward f (moved stays)

read_exponent-Within :
    (c : Cursor) (at : SourcePos) (l : Literal)
    → Further c l.cursor
    → Within c (Later c) (read_exponent at l)
unfolding read_exponent
read_exponent-Within c at l f =
    if-holds (Within c (Later c))
      ((cur l.cursor == 101 || cur l.cursor == 69)
        && is_digit (if has_sign l.cursor then peek_char 2 l.cursor else peek_char 1 l.cursor))
      (λ e. read_more c at (with_sign (has_sign l.cursor) (with_char 101 l)) (
        with_sign-Further c (has_sign l.cursor) (with_char 101 l) (Further-Onward f (moved stays))))
      (λ e. scanning f)

read_float_suffix-Further :
    (c : Cursor) (l : Literal) → Further c l.cursor → Further c (read_float_suffix l).cursor
read_float_suffix-Further c l f =
    if-holds (λ (m : Literal). Further c m.cursor)
      (cur l.cursor == 102 || cur l.cursor == 70 || cur l.cursor == 100 || cur l.cursor == 68)
      (λ e. Further-Onward f (moved stays)) (λ e. f)

read_long_suffix-Further :
    (c : Cursor) (l : Literal) → Further c l.cursor → Further c (read_long_suffix l).cursor
read_long_suffix-Further c l f =
    if-holds (λ (m : Literal). Further c m.cursor)
      (not l.is_float && (cur l.cursor == 108 || cur l.cursor == 76))
      (λ e. Further-Onward f (moved stays)) (λ e. f)

read_decimal-Within :
    (c : Cursor) (at : SourcePos) (l : Literal)
    → eof c ≡ false
    → Begun c l
    → Within c (Later c) (read_decimal at l)
read_decimal-Within c at l h b =
    if-holds (Within c (Later c)) (l.base == 10)
      (λ e. Within-bind (read_fraction-Within c at l h b) (λ m f.
        Within-bind (read_exponent-Within c at m f)
          (λ n g. scanning (read_float_suffix-Further c n g))))
      (λ e. elim b [ inl f ↦ scanning f | inr (base, _, _, _) ↦ cc (rw base at e) ])

literal_token-Lexed :
    (strtod : Bytes → ℕ) (lx : Lexer) (c : Cursor) (l : Literal)
    → Further c l.cursor
    → Lexed c (literal_token strtod lx (start_of c) l, l.cursor)
unfolding literal_token is_ordinary
literal_token-Lexed strtod lx c l f =
    if-holds (λ (t : Token). Lexed c (t, l.cursor)) l.is_float
      (λ e. Lexed-with (make-Lexed lx c l.cursor float_lit l.digits f refl) refl refl refl)
      (λ e. Lexed-with (make-Lexed lx c l.cursor int_lit l.digits f refl) refl refl refl)

number_end-LexedScan :
    (strtod : Bytes → ℕ) (lx : Lexer) (c : Cursor) (l : Literal)
    → Further c l.cursor
    → LexedScan c (number_end strtod lx (start_of c) l)
number_end-LexedScan strtod lx c l f =
    if-holds (LexedScan c) (ltb 0 (ident_char_length l.cursor.rest)) (λ e. failing f.onward)
      (λ e. scanning (literal_token-Lexed strtod lx c l f))

pub lex_number-LexedScan :
    (strtod : Bytes → ℕ) (lx : Lexer) (c : Cursor)
    → eof c ≡ false
    → BeginsNumber c
    → LexedScan c (lex_number strtod lx c)
unfolding lex_number
lex_number-LexedScan strtod lx c h b = Within-bind (read_prefix-Within c h) (λ p q.
    Within-bind (Begun-Within c p h b q) (λ d g.
      Within-bind (read_decimal-Within c (start_of c) d h g) (λ e f.
        number_end-LexedScan strtod lx c (read_long_suffix e) (read_long_suffix-Further c e f))))
