-- ===== src/Frontend/Lexer/Lexed.antt =====
-- frontend/Lexer.cpp: what every token that is made from a piece of the source has.
use proto_scala.Common.{◌≡◌, refl, ap, ◌∙◌, Bool, true, false, Bytes}
use proto_scala.Frontend.Token.{
  TokenKind, Token, colon_eol, newline, indent, outdent, end_marker, end_of_file, error,
}
use proto_scala.Frontend.Lexer.Cursor.{Cursor, start_of, Scan}
use proto_scala.Frontend.Lexer.State.{Lexer, make}
use proto_scala.Frontend.Lexer.Progress.{Further, Within}

-- No kind of the layout, nor one that ends the tokens.
unfoldable pub is_ordinary : TokenKind → Bool
is_ordinary colon_eol = false
is_ordinary newline = false
is_ordinary indent = false
is_ordinary outdent = false
is_ordinary end_marker = false
is_ordinary end_of_file = false
is_ordinary error = false
is_ordinary _ = true

-- The token begins at the first cursor and ends at the second, which is further.
pub record Lexed (start : Cursor) (r : Token × Cursor) : Type 0 where
  pub further : Further start r.1
  pub ordinary : is_ordinary r.0.kind ≡ true
  pub begins : r.0.pos ≡ start_of start
  pub ends_at : r.0.end ≡ start_of r.1

-- A scan that makes such a token, or fails with the error at or behind its beginning.
abbrev pub LexedScan : Cursor → Scan (Token × Cursor) → Type 0
LexedScan start = Within start (Lexed start)

pub make-Lexed :
    (lx : Lexer) (start c : Cursor) (kind : TokenKind) (text : Bytes)
    → Further start c
    → is_ordinary kind ≡ true
    → Lexed start (make lx c kind (start_of start) text, c)
unfolding make
make-Lexed lx start c kind text f o = record {
  further = f;
  ordinary = o;
  begins = refl;
  ends_at = refl;
}

-- Other members of a token do not matter.
pub Lexed-with :
    {start c : Cursor} {t u : Token}
    → Lexed start (t, c)
    → u.kind ≡ t.kind
    → u.pos ≡ t.pos
    → u.end ≡ t.end
    → Lexed start (u, c)
Lexed-with l k p e = record {
  further = l.further;
  ordinary = ap is_ordinary k ∙ l.ordinary;
  begins = p ∙ l.begins;
  ends_at = e ∙ l.ends_at;
}
