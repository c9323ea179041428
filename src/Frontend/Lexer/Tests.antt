-- ===== src/Frontend/Lexer/Tests.antt =====
-- Small sources through the lexer.
use proto_scala.Common.{
  ℕ, ◌≡◌, ◌≢◌, refl, List, [], ◌∷◌, ◌++◌, Option, none, some, map, length, All, Gives, Bytes, codes,
  ok, fault, inl, arith,
}
use proto_scala.Frontend.Token.{
  Token, TokenKind, kw_val, identifier, equals, interpolated_string, int_lit, char_lit, end_of_file,
  error,
}
use proto_scala.Frontend.Layout.State.{top_level}
use proto_scala.Frontend.Layout.Nesting.{run_nest}
use proto_scala.Frontend.Lexer.Letters.{symbol_letter_ranges, search, is_symbol_letter}
use proto_scala.Frontend.Lexer.LetterLaws.{in_some_range, is_symbol_letter-in_some_range}
use proto_scala.Frontend.Lexer.Utf8.{decode_utf8, utf8}
use proto_scala.Frontend.Lexer.Utf8Laws.{Accepts, decode_utf8-utf8, decode_utf8-Accepts}
use proto_scala.Frontend.Lexer.Next.{tokenize_all, tokenize}
use proto_scala.Frontend.Lexer.Indents.{InTable, tokenize_all-InTable}
use proto_scala.Frontend.Lexer.Source.{tokenize-nested}

-- A `strtod` for sources without floating-point literals.
abbrev no_float : Bytes → ℕ
no_float d = 0

abbrev kinds_of : Option (List Token) → List (TokenKind × Bytes)
kinds_of none = []
kinds_of (some ts) = map (λ t. (t.kind, t.text)) ts

-- `val x_+ = s"a$b${c}" // done`, and `0x1F + 'c'` on the next line.
abbrev sample : Bytes
sample =
    codes "val x_+ = s"
    ++ (34 ∷ codes "a$b${c}" ++ (34 ∷ codes " // done" ++ (10 ∷ codes "0x1F + 'c'")))

sample_kinds :
    kinds_of (tokenize_all no_float sample)
    ≡ (kw_val, codes "val")
      ∷ (identifier, codes "x_+")
      ∷ (equals, codes "=")
      ∷ (interpolated_string, codes "s")
      ∷ (int_lit, codes "1F")
      ∷ (identifier, codes "+")
      ∷ (char_lit, [])
      ∷ (end_of_file, [])
      ∷ []
unfolding tokenize_all
sample_kinds = refl

-- `0x` with no digit is an integer literal, of value 0.
bare_prefix : kinds_of (tokenize_all no_float (codes "0x")) ≡ (int_lit, []) ∷ (end_of_file, []) ∷ []
unfolding tokenize_all
bare_prefix = refl

-- A nested comment, and one that is not closed.
nested_comment :
    kinds_of (tokenize_all no_float (codes "/* a /* b */ c */ x"))
    ≡ (identifier, codes "x") ∷ (end_of_file, []) ∷ []
unfolding tokenize_all
nested_comment = refl

open_comment :
    kinds_of (tokenize_all no_float (codes "x /* a /* b */"))
    ≡ (identifier, codes "x") ∷ (error, codes "unclosed comment") ∷ []
unfolding tokenize_all
open_comment = refl

is_symbol_letter-in_some_range_example :
    (search 11 symbol_letter_ranges 0x3B1 0 (length symbol_letter_ranges)
      ≡ some (in_some_range 0x3B1 symbol_letter_ranges))
    × (is_symbol_letter 0x3B1 ≡ in_some_range 0x3B1 symbol_letter_ranges)
is_symbol_letter-in_some_range_example = is_symbol_letter-in_some_range 0x3B1

decode_utf8-utf8_example :
    decode_utf8 (utf8 0x20AC ++ (65 ∷ [])) ≡ some (length (utf8 0x20AC), 0x20AC)
decode_utf8-utf8_example = decode_utf8-utf8 0x20AC (65 ∷ []) (inl (ground arith))

decode_utf8-Accepts_example : Accepts (0xC3 ∷ (0xA9 ∷ (65 ∷ []))) 2 0xE9
unfolding decode_utf8
decode_utf8-Accepts_example = decode_utf8-Accepts 0xC3 (0xA9 ∷ (65 ∷ [])) 2 0xE9 refl

tokenize-nested_example :
    Gives
      (λ r.
        (r ≢ fault)
        × ((out : List Token) → r ≡ ok out → run_nest (top_level ∷ []) out ≡ some (top_level ∷ [])))
      (tokenize no_float sample)
tokenize-nested_example = tokenize-nested no_float sample

tokenize_all-InTable_example :
    Gives
      (λ out.
        (ts : List Token) × (final : Token) × (out ≡ ts ++ final ∷ []) × All (InTable sample) ts)
      (tokenize_all no_float sample)
tokenize_all-InTable_example = tokenize_all-InTable no_float sample
