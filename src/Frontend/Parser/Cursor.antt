-- ===== src/Frontend/Parser/Cursor.antt =====
-- frontend/Parser.h and Parser.cpp: where the parser is in its tokens, and what a function that parses
-- gives. The constructor puts an EndOfFile token behind the others, so a token is always there.
use proto_scala.Common.{
  ℕ, zero, suc, ◌||◌, Bool, true, false, if◌then◌else◌, List, [], ◌∷◌, ◌++◌, length, Bytes, codes,
  ◌≡◌,
}
use proto_scala.Frontend.Token.{Token, TokenKind, SourcePos, kind_eq, newline, outdent, end_of_file}

-- `toks_` from `i_` on.
pub record Cursor : Type 0 where
  pub token : Token
  pub ahead : List Token

-- `peek(k)`, at most the last token
unfoldable pub peek_in : ℕ → Token → List Token → Token
peek_in zero t ts = t
peek_in (suc k) t [] = t
peek_in (suc k) t (u ∷ us) = peek_in k u us

abbrev pub peek : ℕ → Cursor → Token
peek k c = peek_in k c.token c.ahead

abbrev pub advance_in : Token → List Token → Cursor
advance_in t [] = record { token = t; ahead = [] }
advance_in t (u ∷ us) = record { token = u; ahead = us }

-- `advance`, which stays at the last token.
unfoldable pub advance : Cursor → Cursor
advance c = advance_in c.token c.ahead

abbrev pub at : TokenKind → Cursor → Bool
at k c = kind_eq c.token.kind k

-- `if (at(TokenKind::Newline)) advance();`
unfoldable pub skip_newline : Cursor → Cursor
unfolding advance kind_eq
skip_newline c = if at newline c then advance c else c

pub record ParseError : Type 0 where
  pub message : Bytes
  pub pos : SourcePos
  pub at_eof : Bool

-- Whether only tokens of the layout stand before the end of the file.
unfoldable pub input_ended : Token → List Token → Bool
unfolding kind_eq
input_ended t [] = kind_eq t.kind end_of_file
input_ended t (u ∷ us) =
    let behind = input_ended u us in
    if kind_eq t.kind end_of_file
    then true
    else if kind_eq t.kind newline || kind_eq t.kind outdent
    then behind
    else false

abbrev colon_message : Bytes → Bytes
colon_message [] = []
colon_message (c ∷ cs) = codes ": " ++ (c ∷ cs)

-- `fail` at the token of a cursor
unfoldable pub fail : Bytes → Cursor → ParseError
unfolding input_ended
fail msg c =
    let eof = input_ended c.token c.ahead in
    record {
      message = if eof then codes "unexpected end of input" ++ colon_message msg else msg;
      pos = c.token.pos;
      at_eof = eof;
    }

-- What a function gives that parses: a value and where it stopped, an error, or none where its fuel
-- ran out.
pub data Parsed (A : Type 0) : Type 0 where
  parsed : A → Cursor → Parsed A
  refused : ParseError → Parsed A
  starved : Parsed A

-- A result that is no lack of fuel; a value has the property.
pub data Ends {A : Type 0} (Q : A → Cursor → Type 0) : Parsed A → Type 0 where
  with_value : {a : A} {e : Cursor} → Q a e → Ends Q (parsed a e)
  with_error : {x : ParseError} → Ends Q (refused x)

abbrev pub size : Cursor → ℕ
size c = length c.ahead

unfoldable pub ends_in_eof : Token → List Token → Bool
unfolding kind_eq
ends_in_eof t [] = kind_eq t.kind end_of_file
ends_in_eof t (u ∷ us) = ends_in_eof u us

-- The last token is EndOfFile.
abbrev pub IsEnded : Cursor → Type 0
IsEnded c = ends_in_eof c.token c.ahead ≡ true
