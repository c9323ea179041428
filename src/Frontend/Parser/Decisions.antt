-- ===== src/Frontend/Parser/Decisions.antt =====
-- frontend/Parser.cpp: what a turn of parseInfixLoop says of the tokens, and that it goes on in them.
use proto_scala.Common.{
  ℕ, ◌<◌, ◌≤◌, ◌≡◌, refl, Bool, true, false, if◌then◌else◌, List, [], ◌∷◌, length, Bytes, arith,
}
use proto_scala.Frontend.Token.{Token, identifier, kind_eq}
use proto_scala.Frontend.Ast.Tree.{Node}
use proto_scala.Frontend.Parser.Operators.{precedence, is_right_associative}
use proto_scala.Frontend.Parser.Cursor.{
  Cursor, advance, at, skip_newline, ParseError, advance_in, Parsed, parsed, refused, Ends,
  with_value, with_error, size, ends_in_eof, IsEnded,
}
use proto_scala.Frontend.Parser.Infix.{
  Seen, differs, takes, Decision, stop, refuse, operate, decide,
}

-- What a decision says of the tokens.
pub data Decided (min : ℕ) (seen : Seen) (c : Cursor) : Decision → Type 0 where
  stops : takes min c ≡ false → Decided min seen c stop
  refuses : {x : ParseError} → Decided min seen c (refuse x)
  operates :
      takes min c ≡ true
      → differs (is_right_associative c.token.text) (seen (precedence c.token.text)) ≡ false
      → Decided min seen c (
          operate c.token.text
            (precedence c.token.text)
            (is_right_associative c.token.text)
            (skip_newline (advance c)))

pub decide-Decided : (min : ℕ) (seen : Seen) (c : Cursor) → Decided min seen c (decide min seen c)
unfolding decide
decide-Decided min seen c = by_tests _ _ _ _ _ refl refl
  where
    by_tests :
        (t d b : Bool) (x y : ParseError)
        → takes min c ≡ t
        → differs (is_right_associative c.token.text) (seen (precedence c.token.text)) ≡ d
        → Decided min seen c (
            if t
            then (if d
                then refuse x
                else if b
                then refuse y
                else operate c.token.text
                    (precedence c.token.text)
                    (is_right_associative c.token.text)
                    (skip_newline (advance c)))
            else stop)
    by_tests false d b x y h i = stops h
    by_tests true true b x y h i = refuses
    by_tests true false true x y h i = refuses
    by_tests true false false x y h i = operates h i

pub Decided-Ends :
    {min : ℕ} {seen : Seen} {c : Cursor} {x : Decision} {R : Node → Cursor → Type 0} (n : Node)
    (go : Bytes → ℕ → Bool → Cursor → Parsed Node)
    → Decided min seen c x
    → (takes min c ≡ false → R n c)
    → (takes min c ≡ true
        → differs (is_right_associative c.token.text) (seen (precedence c.token.text)) ≡ false
        → Ends R (
            go c.token.text
              (precedence c.token.text)
              (is_right_associative c.token.text)
              (skip_newline (advance c))))
    → Ends R (elim x [
      | stop ↦ parsed n c
      | refuse y ↦ refused y
      | operate op p right behind ↦ go op p right behind
    ])
Decided-Ends n go (stops h) k l = with_value (k h)
Decided-Ends n go refuses k l = with_error
Decided-Ends n go (operates h d) k l = l h d

pub takes-at : (min : ℕ) (c : Cursor) → takes min c ≡ true → at identifier c ≡ true
unfolding takes
takes-at min c h = ground arith

pub takes-le : (min : ℕ) (c : Cursor) → takes min c ≡ true → min ≤ precedence c.token.text
unfolding takes
takes-le min c h = ground arith

-- A token that one level takes, and a higher one does not, is of a level between.
pub takes-below :
    (min above : ℕ) (c : Cursor)
    → takes min c ≡ true
    → takes above c ≡ false
    → precedence c.token.text < above
unfolding takes
takes-below min above c h n = ground arith

module _ (t : Token) where
  size-advance_in :
      (ts : List Token)
      → ends_in_eof t ts ≡ true
      → kind_eq t.kind identifier ≡ true
      → size (advance_in t ts) < length ts
  unfolding ends_in_eof kind_eq
  size-advance_in [] e h = ground arith
  size-advance_in (u ∷ us) e h = omega arith

  advance_in-le : (ts : List Token) → size (advance_in t ts) ≤ length ts
  advance_in-le [] = omega arith
  advance_in-le (u ∷ us) = omega arith

  advance_in-IsEnded : (ts : List Token) → ends_in_eof t ts ≡ true → IsEnded (advance_in t ts)
  unfolding ends_in_eof
  advance_in-IsEnded [] e = e
  advance_in-IsEnded (u ∷ us) e = e

pub size-advance : (c : Cursor) → IsEnded c → at identifier c ≡ true → size (advance c) < size c
unfolding advance
size-advance c e h = size-advance_in c.token c.ahead e h

pub advance-le : (c : Cursor) → size (advance c) ≤ size c
unfolding advance
advance-le c = advance_in-le c.token c.ahead

pub advance-IsEnded : (c : Cursor) → IsEnded c → IsEnded (advance c)
unfolding advance
advance-IsEnded c e = advance_in-IsEnded c.token c.ahead e

pub skip_newline-le : (c : Cursor) → size (skip_newline c) ≤ size c
unfolding skip_newline
skip_newline-le c = ground (arith, advance-le c)

pub skip_newline-IsEnded : (c : Cursor) → IsEnded c → IsEnded (skip_newline c)
unfolding skip_newline
skip_newline-IsEnded c e = ground (arith, advance-IsEnded c e)
