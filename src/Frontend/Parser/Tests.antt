-- ===== src/Frontend/Parser/Tests.antt =====
-- Rows of names and operators.
use proto_scala.Common.{
  ◌≤◌, ◌≡◌, refl, Bool, true, false, if◌then◌else◌, none, List, [], ◌∷◌, ◌++◌, map, Bytes, codes,
  bytes_eq, arith,
}
use proto_scala.Frontend.Token.{
  Token, SourcePos, default_token, identifier, end_of_file, kind_eq, ordinal,
}
use proto_scala.Common.{suc, length, Outcome, ok}
use proto_scala.Frontend.Token.{InterpolationPart}
use proto_scala.Frontend.Parser.Interpolation.{parse_interpolation}
use proto_scala.Frontend.Parser.Weave.{weave, parts_text, parse_interpolation-weave}
use proto_scala.Frontend.Ast.Tree.{Node, node, ident, infix_op}
use proto_scala.Frontend.Parser.Cursor.{
  Cursor, advance, at, ParseError, Parsed, parsed, refused, Ends, with_value, with_error, size,
  IsEnded, fail, peek_in, ends_in_eof,
}
use proto_scala.Frontend.Parser.Infix.{parse_infix}
use proto_scala.Frontend.Parser.Chains.{IsParse}
use proto_scala.Frontend.Parser.Decisions.{advance-le, advance-IsEnded}
use proto_scala.Frontend.Parser.Grouping.{parse_infix-IsParse}

-- A parser of names alone
abbrev names_only : Cursor → Parsed Node
names_only c =
    if at identifier c
    then parsed (node c.token.pos (ident c.token.text)) (advance c)
    else refused (fail (codes "a name") c)

names_only-goes_on :
    (c : Cursor) → IsEnded c → Ends (λ n e. (size e ≤ size c) × IsEnded e) (names_only c)
names_only-goes_on c e = by_test (at identifier c) _ _
  where
    by_test :
        (b : Bool) (n : Node) (x : ParseError)
        → Ends
            (λ n e. (size e ≤ size c) × IsEnded e)
            (if b then parsed n (advance c) else refused x)
    by_test true n x = with_value (advance-le c, advance-IsEnded c e)
    by_test false n x = with_error

abbrev word : Bytes → Token
word w = record default_token { kind = identifier; text = w }

abbrev end_token : Token
end_token = record default_token { kind = end_of_file }

abbrev no_place : SourcePos
no_place = record { line = 1; column = 1 }

abbrev row : Bytes → List Bytes → Cursor
row w ws = record { token = word w; ahead = map (λ v. word v) ws ++ end_token ∷ [] }

abbrev name : Bytes → Node
name w = node no_place (ident w)

abbrev over : Bytes → Node → Node → Node
over op l r = node no_place (infix_op l op r)

abbrev at_end : Cursor
at_end = record { token = end_token; ahead = [] }

-- a + b * c - d
abbrev arithmetic : Cursor
arithmetic =
    row (codes "a") (codes "+" ∷ codes "b" ∷ codes "*" ∷ codes "c" ∷ codes "-" ∷ codes "d" ∷ [])

left_to_right :
    parse_infix names_only 17 0 none arithmetic
    ≡ parsed
        (over
          (codes "-")
          (over
            (codes "+")
            (name (codes "a"))
            (over (codes "*") (name (codes "b")) (name (codes "c"))))
          (name (codes "d")))
        at_end
unfolding parse_infix bytes_eq peek_in
left_to_right = refl

-- a :: b :: c
right_to_left :
    parse_infix names_only 12 0 none
      (row (codes "a") (codes "::" ∷ codes "b" ∷ codes "::" ∷ codes "c" ∷ []))
    ≡ parsed
        (over
          (codes "::")
          (name (codes "a"))
          (over (codes "::") (name (codes "b")) (name (codes "c"))))
        at_end
unfolding parse_infix bytes_eq
right_to_left = refl

parse_infix-IsParse_example :
    Ends (IsParse names_only 0 none arithmetic) (parse_infix names_only 17 0 none arithmetic)
unfolding ends_in_eof kind_eq ordinal
parse_infix-IsParse_example =
    parse_infix-IsParse names_only names_only-goes_on 17 0 arithmetic refl (omega arith)

-- f"a${x}%5db", with a hole standing for its text
abbrev f_parts : List InterpolationPart
f_parts =
    record { is_hole = false; text = codes "a"; pos = no_place }
    ∷ record { is_hole = true; text = codes "x"; pos = no_place }
    ∷ record { is_hole = false; text = codes "%5db"; pos = no_place }
    ∷ []

abbrev as_text : Bytes → SourcePos → Outcome Bytes Bytes
as_text w p = ok w

f_parts-parsed :
    parse_interpolation as_text true f_parts
    ≡ ok (codes "a" ∷ codes "b" ∷ [], (codes "x" ∷ [], codes "%5d" ∷ []))
unfolding parse_interpolation
f_parts-parsed = refl

parse_interpolation-weave_example :
    (weave (codes "a" ∷ codes "b" ∷ []) (codes "%5d" ∷ []) ≡ parts_text f_parts)
    × ((length (codes "a" ∷ codes "b" ∷ []) ≡ suc (length (codes "x" ∷ [])))
        × (length (codes "%5d" ∷ []) ≡ length (codes "x" ∷ [])))
parse_interpolation-weave_example =
    parse_interpolation-weave as_text true f_parts (codes "a" ∷ codes "b" ∷ []) (codes "x" ∷ [])
      (codes "%5d" ∷ []) f_parts-parsed
