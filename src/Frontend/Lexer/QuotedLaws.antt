-- ===== src/Frontend/Lexer/QuotedLaws.antt =====
-- frontend/Lexer.cpp: characters and strings are tokens of the source, and their loops end.
use proto_scala.Common.{
  ℕ, zero, suc, ◌≡◌, refl, ◌+◌, ◌*◌, false, not, ◌||◌, ◌==◌, if-holds, ◌⊎◌, inl, inr, [], Option,
  none, some, Bytes,
}
use proto_scala.Frontend.Token.{SourcePos, char_lit}
use proto_scala.Frontend.Lexer.Utf8.{decode_utf8}
use proto_scala.Frontend.Lexer.Chars.{is_digit}
use proto_scala.Frontend.Lexer.Cursor.{
  Cursor, is_empty, eof, cur, start_of, advance, scan_while, here,
}
use proto_scala.Frontend.Lexer.State.{Lexer}
use proto_scala.Frontend.Lexer.Quoted.{
  hex_value, hex_digits, unicode_escape, simple_escape, escape_by, read_escape, decoded_char,
  read_plain_char, read_char, char_token, lex_char,
}
use proto_scala.Frontend.Lexer.Progress.{
  Onward, stays, moved, Onward-trans, advance_by-Onward, scanned-Onward, Further, moved-Further,
  Further-Onward, Within, failing, scanning, Within-bind, Within-map, Within-base,
}
use proto_scala.Frontend.Lexer.Lexed.{is_ordinary, LexedScan, Lexed-with, make-Lexed}

hex_by : (o : Option ℕ) → (o ≡ none) ⊎ ((d : ℕ) × (o ≡ some d))
hex_by none = inl refl
hex_by (some d) = inr (d, refl)

hex_digits-Within :
    (b : Cursor) (at : SourcePos) (n cp : ℕ) (c : Cursor)
    → Onward b c
    → Within b (λ r. Onward c r.1) (hex_digits at n cp c)
unfolding hex_digits
hex_digits-Within b at zero cp c o = scanning stays
hex_digits-Within b at (suc n) cp c o = elim (hex_by (hex_value (cur c))) [
  | inl bad ↦ rw (bad, hex_digits) (failing o)
  | inr (d, good) ↦
      rw (good, hex_digits)
        (Within-map (hex_digits-Within b at n (cp * 16 + d) (advance c) (moved o))
          (λ r p. Onward-trans (moved stays) p))
]

unicode_escape-Within :
    (b : Cursor) (at : SourcePos) (out : Bytes) (c : Cursor)
    → Onward b c
    → Within b (λ r. Onward c r.1) (unicode_escape at out c)
unfolding unicode_escape
unicode_escape-Within b at out c o =
    let us : Onward c (scan_while (here (λ x. x == 117)) c).1 =
      scanned-Onward (here (λ x. x == 117)) c.rest c in
    Within-bind (hex_digits-Within b at 4 0 _ (Onward-trans o us))
      (λ r p. scanning (Onward-trans us p))

escape_by-Within :
    (b : Cursor) (s : Option ℕ) (at : SourcePos) (out : Bytes) (c : Cursor)
    → Onward b c
    → Within b (λ r. Onward c r.1) (escape_by s at out c)
escape_by-Within b (some x) at out c o = scanning (moved stays)
escape_by-Within b none at out c o =
    if-holds (Within b (λ r. Onward c r.1)) (cur c == 117) (λ e. unicode_escape-Within b at out c o)
      (λ e.
        if-holds (Within b (λ r. Onward c r.1)) (is_digit (cur c)) (λ d. failing o)
          (λ d. failing o))

-- An escape only moves on.
pub read_escape-Within :
    (b : Cursor) (at : SourcePos) (out : Bytes) (c : Cursor)
    → Onward b c
    → Within b (λ r. Onward c r.1) (read_escape at out c)
unfolding read_escape
read_escape-Within b at out c o = escape_by-Within b (simple_escape (cur c)) at out c o

decoded_char-Within :
    (b : Cursor) (at : SourcePos) (r : Bytes × Cursor) (o : Option (ℕ × ℕ))
    → Onward b r.1
    → Within b (λ s. Onward b s.1) (decoded_char at r o)
decoded_char-Within b at (encoded, c) none o = failing o
decoded_char-Within b at (encoded, c) (some (len, cp)) o =
    if-holds (Within b (λ s. Onward b s.1)) (is_empty encoded) (λ e. failing o) (λ e. scanning o)

read_plain_char-Within :
    (b : Cursor) (at : SourcePos) (c : Cursor) (d : Option (ℕ × ℕ))
    → Onward b c
    → Within b (λ s. Onward b s.1) (read_plain_char at c d)
read_plain_char-Within b at c none o = failing o
read_plain_char-Within b at c (some (len, cp)) o =
    scanning (Onward-trans o (advance_by-Onward len c))

read_char-Within :
    (b : Cursor) (at : SourcePos) (c : Cursor)
    → Onward b c
    → Within b (λ s. Onward b s.1) (read_char at c)
unfolding read_char
read_char-Within b at c o =
    let W = Within b (λ (s : ℕ × Cursor). Onward b s.1) in
    if-holds W (cur c == 92)
      (λ e.
        Within-bind (read_escape-Within b at [] (advance c) (moved o))
          (λ r p. decoded_char-Within b at r (decode_utf8 r.0) (Onward-trans (moved o) p)))
      (λ e.
        if-holds W (eof c || cur c == 10) (λ f. failing o)
          (λ f. read_plain_char-Within b at c (decode_utf8 c.rest) o))

char_token-LexedScan :
    (lx : Lexer) (b : Cursor) (r : ℕ × Cursor)
    → Further b r.1
    → LexedScan b (char_token lx (start_of b) r)
unfolding is_ordinary
char_token-LexedScan lx b (cp, c) f =
    if-holds (LexedScan b) (not (cur c == 39)) (λ e. failing f.onward)
      (λ e. scanning (
        Lexed-with (make-Lexed lx b (advance c) char_lit [] (Further-Onward f (moved stays)) refl)
          refl refl refl))

pub lex_char-LexedScan : (lx : Lexer) (c : Cursor) → eof c ≡ false → LexedScan c (lex_char lx c)
unfolding lex_char
lex_char-LexedScan lx c h =
    if-holds (LexedScan c) (cur (advance c) == 39) (λ e. failing (moved (moved stays)))
      (λ e.
        Within-bind
          (Within-base (moved stays) (read_char-Within (advance c) (start_of c) (advance c) stays))
          (λ r p. char_token-LexedScan lx c r (moved-Further c h p)))
