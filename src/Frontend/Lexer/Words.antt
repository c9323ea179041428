-- ===== src/Frontend/Lexer/Words.antt =====
-- frontend/Lexer.cpp: operators, backquoted names and the words of identifiers and keywords.
use proto_scala.Common.{
  ℕ, zero, suc, Bool, true, false, not, ◌&&◌, ◌||◌, ◌==◌, if◌then◌else◌, ◌⊎◌, inl, inr, [], ◌∷◌,
  ◌++◌, Option, none, some, take, get_or, length, loop, Bytes, codes, bytes_eq,
}
use proto_scala.Frontend.Token.{TokenKind, SourcePos, Token, kind_eq, identifier, underscore}
use proto_scala.Frontend.Lexer.Chars.{is_op_char, ident_char_length, keyword_of, reserved_operator}
use proto_scala.Frontend.Lexer.Cursor.{
  Cursor, is_empty, eof, cur, start_of, advance, advance_by, scanned, scan_while, here, Scan, fails,
  scans, failure,
}
use proto_scala.Frontend.Lexer.State.{Lexer, make}

-- `cur() == '/' && (peekChar() == '/' || peekChar() == '*')`
abbrev pub begins_comment : Bytes → Bool
begins_comment bs = get_or bs 0 0 == 47 && (get_or bs 1 0 == 47 || get_or bs 1 0 == 42)

-- Behind the first operator character.
abbrev pub goes_on_in_operator : Bytes → Bool
goes_on_in_operator bs = is_op_char (get_or bs 0 0) && not (begins_comment bs)

abbrev pub operator_text : Cursor → Bytes × Cursor
operator_text c =
    let more = scan_while goes_on_in_operator (advance c) in
    if eof c || not (is_op_char (cur c)) then ([], c) else (cur c ∷ more.0, more.1)

unfoldable pub lex_operator : Lexer → Cursor → Token × Cursor
unfolding scanned reserved_operator is_op_char make kind_eq
lex_operator lx c =
    let (text, c') = operator_text c in
    let kind = reserved_operator text in
    (record (make lx c' kind (start_of c) text) { is_operator = kind_eq kind identifier }, c')

unfoldable pub lex_backquoted : Lexer → Cursor → Scan (Token × Cursor)
unfolding scanned make
lex_backquoted lx c =
    let (text, c') = scan_while (here (λ b. not (b == 96) && not (b == 10))) (advance c) in
    if is_empty text || eof c' || not (cur c' == 96)
    then fails (failure (codes "unclosed quoted identifier") (start_of c) c')
    else let close = advance c' in
      scans (record (make lx close identifier (start_of c) text) { backquoted = true }, close)

-- The loop's state: the text, whether the last character was an underscore that is not the first,
-- and the cursor.
pub record Word : Type 0 where
  pub text : Bytes
  pub last_was_underscore : Bool
  pub cursor : Cursor

abbrev pub operator_tail : Word → Bytes × Cursor
operator_tail w = let r = scan_while (here is_op_char) w.cursor in (w.text ++ r.0, r.1)

abbrev pub longer : ℕ → Word → Word
longer len w = record {
  text = w.text ++ take len w.cursor.rest;
  last_was_underscore = cur w.cursor == 95 && not (is_empty w.text);
  cursor = advance_by len w.cursor;
}

abbrev pub word_by : ℕ → Word → Word ⊎ (Bytes × Cursor)
word_by zero w = inr (w.text, w.cursor)
word_by (suc n) w = inl (longer (suc n) w)

abbrev pub word_body : Word → Option (Word ⊎ (Bytes × Cursor))
word_body w =
    if eof w.cursor
    then some (inr (w.text, w.cursor))
    else if w.last_was_underscore && is_op_char (cur w.cursor)
    then some (inr (operator_tail w))
    else some (word_by (ident_char_length w.cursor.rest) w)

-- The text of an identifier and the cursor behind it.
unfoldable pub word : Cursor → Option (Bytes × Cursor)
unfolding loop scanned ident_char_length advance_by is_op_char
word c =
    loop word_body (suc (length c.rest))
      (record { text = []; last_was_underscore = false; cursor = c })

abbrev pub kind_or_identifier : Option TokenKind → TokenKind
kind_or_identifier none = identifier
kind_or_identifier (some k) = k

-- What stands behind the word in `lexIdentifierOrKeyword`, when it is no interpolator.
unfoldable pub word_token : Lexer → SourcePos → Bytes × Cursor → Token
unfolding keyword_of bytes_eq make
word_token lx start (text, c) =
    if bytes_eq text (codes "_")
    then make lx c underscore start text
    else make lx c (kind_or_identifier (keyword_of text)) start text
