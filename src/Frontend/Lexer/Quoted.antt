-- ===== src/Frontend/Lexer/Quoted.antt =====
-- frontend/Lexer.cpp: escapes, characters and strings.
use proto_scala.Common.{
  ℕ, zero, suc, ◌+◌, ◌-◌, ◌*◌, Bool, true, not, ◌&&◌, ◌||◌, leb, ◌==◌, if◌then◌else◌, ◌⊎◌, inl, inr,
  [], ◌∷◌, ◌++◌, Option, none, some, length, replicate, loop, ◌>>=?◌, Bytes, codes,
}
use proto_scala.Frontend.Token.{SourcePos, Token, char_lit, string_lit}
use proto_scala.Frontend.Lexer.Utf8.{decode_utf8, append_utf8}
use proto_scala.Frontend.Lexer.Chars.{is_digit, is_ident_code_point}
use proto_scala.Frontend.Lexer.Cursor.{
  Cursor, is_empty, eof, cur, peek_char, start_of, advance, advance_by, scanned, scan_while, here,
  Failure, Scan, fails, scans, ◌>>=◌, failure,
}
use proto_scala.Frontend.Lexer.State.{Lexer, make}

-- The value of a hexadecimal digit.
abbrev pub hex_value : ℕ → Option ℕ
hex_value h =
    if leb 48 h && leb h 57
    then some (h - 48)
    else if leb 97 h && leb h 102
    then some (h - 97 + 10)
    else if leb 65 h && leb h 70
    then some (h - 65 + 10)
    else none

-- The loop over four hexadecimal digits; the error is reported where the literal or the escape
-- begins.
unfoldable pub hex_digits : SourcePos → ℕ → ℕ → Cursor → Scan (ℕ × Cursor)
unfolding advance
hex_digits start zero cp c = scans (cp, c)
hex_digits start (suc n) cp c = elim (hex_value (cur c)) [
  | none ↦ fails (failure (codes "invalid unicode escape") start c)
  | some digit ↦ hex_digits start n (cp * 16 + digit) (advance c)
]

-- One or more `u`, then the digits.
unfoldable pub unicode_escape : SourcePos → Bytes → Cursor → Scan (Bytes × Cursor)
unfolding hex_digits scanned
unicode_escape start out c = hex_digits start 4 0 (scan_while (here (λ b. b == 117)) c).1 >>= λ r.
    scans (append_utf8 out r.0, r.1)

-- The character of a simple escape.
abbrev pub simple_escape : ℕ → Option ℕ
simple_escape c =
    if c == 98
    then some 8
    else if c == 116
    then some 9
    else if c == 110
    then some 10
    else if c == 102
    then some 12
    else if c == 114
    then some 13
    else if c == 34 || c == 39 || c == 92
    then some c
    else none

abbrev pub escape_by : Option ℕ → SourcePos → Bytes → Cursor → Scan (Bytes × Cursor)
escape_by (some b) start out c = scans (out ++ b ∷ [], advance c)
escape_by none start out c =
    if cur c == 117
    then unicode_escape start out c
    else if is_digit (cur c)
    then fails (failure (codes "octal escape literals are unsupported: use \\u escapes") start c)
    else fails (failure (codes "invalid escape character") start c)

-- The text with the escape behind it; the cursor is on the character after the backslash.
unfoldable pub read_escape : SourcePos → Bytes → Cursor → Scan (Bytes × Cursor)
unfolding unicode_escape
read_escape start out c = escape_by (simple_escape (cur c)) start out c

-- `encoded.empty() || decodeUtf8(encoded, 0, &cp) == 0`
abbrev pub decoded_char : SourcePos → Bytes × Cursor → Option (ℕ × ℕ) → Scan (ℕ × Cursor)
decoded_char start (encoded, c) none = fails (failure (codes "invalid escape character") start c)
decoded_char start (encoded, c) (some (len, cp)) =
    if is_empty encoded
    then fails (failure (codes "invalid escape character") start c)
    else scans (cp, c)

abbrev pub read_plain_char : SourcePos → Cursor → Option (ℕ × ℕ) → Scan (ℕ × Cursor)
read_plain_char start c none = fails (failure (codes "invalid UTF-8 in character literal") start c)
read_plain_char start c (some (len, cp)) = scans (cp, advance_by len c)

unfoldable pub read_char : SourcePos → Cursor → Scan (ℕ × Cursor)
unfolding read_escape decode_utf8
read_char start c =
    if cur c == 92
    then (read_escape start [] (advance c) >>= λ r. decoded_char start r (decode_utf8 r.0))
    else if eof c || cur c == 10
    then fails (failure (codes "unclosed character literal") start c)
    else read_plain_char start c (decode_utf8 c.rest)

abbrev pub unclosed_char : ℕ → Bytes
unclosed_char cp =
    if is_ident_code_point cp
    then codes "symbol literals are not supported in Scala 3"
    else codes "unclosed character literal"

abbrev pub char_token : Lexer → SourcePos → ℕ × Cursor → Scan (Token × Cursor)
char_token lx start (cp, c) =
    let close = advance c in
    if not (cur c == 39)
    then fails (failure (unclosed_char cp) start c)
    else scans (record (make lx close char_lit start []) { char_value = cp }, close)

unfoldable pub lex_char : Lexer → Cursor → Scan (Token × Cursor)
unfolding read_char advance_by is_ident_code_point make
lex_char lx c =
    let open_char = advance c in
    if cur open_char == 39
    then fails (failure (codes "empty character literal") (start_of c) (advance open_char))
    else read_char (start_of c) open_char >>= char_token lx (start_of c)

abbrev pub is_quote : ℕ → Bool
is_quote b = b == 34

abbrev pub unclosed_multi_line : SourcePos → Cursor → Failure
unclosed_multi_line start c = record {
  message = codes "unclosed multi-line string literal";
  at = start;
  at_eof = true;
  cursor = c;
}

-- Behind a run of quotes in a triple-quoted text: the literal ends, or goes on.
abbrev pub after_quotes :
    SourcePos → Bytes → Bytes × Cursor → (Bytes × Cursor) ⊎ Scan (Bytes × Cursor)
after_quotes start content (run, c) =
    if leb 3 (length run)
    then inr (scans (content ++ replicate (length run - 3) 34, c))
    else if eof c
    then inr (fails (unclosed_multi_line start c))
    else inl (content ++ replicate (length run) 34, c)

abbrev pub triple_body :
    SourcePos → Bytes × Cursor → Option ((Bytes × Cursor) ⊎ Scan (Bytes × Cursor))
triple_body start (content, c) =
    if eof c
    then some (inr (fails (unclosed_multi_line start c)))
    else if cur c == 34
    then some (after_quotes start content (scan_while (here is_quote) c))
    else some (inl (content ++ cur c ∷ [], advance c))

abbrev pub go_on : {A B : Type 0} → Scan A → A ⊎ Scan B
go_on (fails f) = inr (fails f)
go_on (scans a) = inl a

abbrev pub string_body :
    SourcePos → Bytes × Cursor → Option ((Bytes × Cursor) ⊎ Scan (Bytes × Cursor))
string_body start (value, c) =
    if eof c || cur c == 10
    then some (inr (fails (failure (codes "unclosed string literal") start c)))
    else if cur c == 34
    then some (inr (scans (value, advance c)))
    else if cur c == 92
    then some (go_on (read_escape (start_of c) value (advance c)))
    else some (inl (value ++ cur c ∷ [], advance c))

abbrev pub is_triple : Cursor → Bool
is_triple c = cur c == 34 && peek_char 1 c == 34

unfoldable pub string_text : SourcePos → Cursor → Option (Scan (Bytes × Cursor))
unfolding loop read_escape scanned advance_by
string_text start c =
    if is_triple c
    then loop (triple_body start) (suc (length (advance_by 2 c).rest)) ([], advance_by 2 c)
    else loop (string_body start) (suc (length c.rest)) ([], c)

abbrev pub string_token : Lexer → SourcePos → Scan (Bytes × Cursor) → Scan (Token × Cursor)
string_token lx start s =
    s >>= λ r. scans (record (make lx r.1 string_lit start r.0) { string_value = r.0 }, r.1)

unfoldable pub lex_string : Lexer → Cursor → Option (Scan (Token × Cursor))
unfolding string_text make
lex_string lx c =
    string_text (start_of c) (advance c) >>=? (λ s. some (string_token lx (start_of c) s))
