-- ===== src/Frontend/Lexer/Next.antt =====
-- frontend/Lexer.cpp: `next` and `tokenizeAll`, and `tokenize` of frontend/Layout.cpp.
use proto_scala.Common.{
  ℕ, suc, Bool, true, not, ◌&&◌, ◌||◌, ◌==◌, ltb, if◌then◌else◌, ◌⊎◌, inl, inr, List, [], ◌∷◌, ◌++◌,
  Option, none, some, ◌>>=?◌, length, loop, Bytes, codes, Outcome,
}
use proto_scala.Frontend.Token.{
  TokenKind, SourcePos, Token, default_token, kind_eq, l_paren, r_paren, l_bracket, r_bracket,
  l_brace, r_brace, comma, semicolon, dot, end_of_file, error,
}
use proto_scala.Frontend.Lexer.Chars.{is_digit, is_op_char, ident_char_length}
use proto_scala.Frontend.Lexer.Cursor.{
  Cursor, eof, cur, peek_char, start_of, advance, Failure, Scan, fails, scans, failure,
}
use proto_scala.Frontend.Lexer.State.{
  Lexer, initial_lexer, indent_at, make, error_token, finish, past_blank_line,
}
use proto_scala.Frontend.Lexer.Trivia.{Skipped, skip_trivia}
use proto_scala.Frontend.Lexer.Words.{lex_operator, lex_backquoted, word, word_token}
use proto_scala.Frontend.Lexer.Numbers.{lex_number}
use proto_scala.Frontend.Lexer.Quoted.{lex_char, lex_string}
use proto_scala.Frontend.Lexer.Interpolated.{lex_interpolated}
use proto_scala.Frontend.Layout.State.{LayoutError}
use proto_scala.Frontend.Layout.Pass.{apply_layout}

-- `lexIdentifierOrKeyword`: a word with a quote behind it is an interpolator.
abbrev pub word_or_string : Lexer → SourcePos → Bytes × Cursor → Option (Scan (Token × Cursor))
word_or_string lx start (text, c) =
    if cur c == 34
    then lex_interpolated lx text start c
    else some (scans (word_token lx start (text, c), c))

unfoldable pub lex_identifier_or_keyword : Lexer → Cursor → Option (Scan (Token × Cursor))
unfolding word word_token lex_interpolated
lex_identifier_or_keyword lx c = word c >>=? word_or_string lx (start_of c)

-- The token of a single punctuation byte.
unfoldable pub punctuation : ℕ → Option TokenKind
punctuation b =
    if b == 40
    then some l_paren
    else if b == 41
    then some r_paren
    else if b == 91
    then some l_bracket
    else if b == 93
    then some r_bracket
    else if b == 123
    then some l_brace
    else if b == 125
    then some r_brace
    else if b == 44
    then some comma
    else if b == 59
    then some semicolon
    else none

abbrev pub single : Lexer → Cursor → TokenKind → Scan (Token × Cursor)
single lx c kind = scans (make lx (advance c) kind (start_of c) (cur c ∷ []), advance c)

-- The `switch` of `next`, behind the punctuation.
unfoldable pub lex_other : (Bytes → ℕ) → Lexer → Cursor → Option (Scan (Token × Cursor))
unfolding lex_backquoted lex_string lex_char lex_number lex_operator lex_identifier_or_keyword
    ident_char_length is_op_char make
lex_other strtod lx c =
    let b = cur c in
    if b == 96
    then some (lex_backquoted lx c)
    else if b == 34
    then lex_string lx c
    else if b == 39
    then some (lex_char lx c)
    else if b == 46
    then some (if is_digit (peek_char 1 c) then lex_number strtod lx c else single lx c dot)
    else if is_digit b
    then some (lex_number strtod lx c)
    else if is_op_char b
    then some (scans (lex_operator lx c))
    else if ltb 0 (ident_char_length c.rest)
    then lex_identifier_or_keyword lx c
    else some (fails (failure (codes "illegal character '" ++ b ∷ 39 ∷ []) (start_of c) c))

unfoldable pub lex_token : (Bytes → ℕ) → Lexer → Cursor → Option (Scan (Token × Cursor))
unfolding punctuation lex_other make
lex_token strtod lx c = elim (punctuation (cur c)) [
  | some kind ↦ some (single lx c kind)
  | none ↦ lex_other strtod lx c
]

-- The end of `next`: an error ends the stream.
unfoldable pub after_token : Lexer → SourcePos → Token × Cursor → Token × Lexer
after_token lx start (t, c) = (
  t,
  record lx {
    cursor = c;
    done = lx.done || kind_eq t.kind error;
    last_token_line = start.line;
    last_token_end = c.pos;
  },
)

-- `lineHasTab_` and `lineHasSpace_` of the line, when the token is its first.
unfoldable pub seen_indents : Lexer → ℕ → Lexer
seen_indents lx line =
    let l = indent_at lx line in
    if line == lx.last_token_line then lx else record lx {
      saw_tab_indent = lx.saw_tab_indent || l.tab;
      saw_space_indent = lx.saw_space_indent || l.space;
    }

abbrev pub mixes_indents : Lexer → ℕ → Bool
mixes_indents lx line = not (line == lx.last_token_line) && lx.saw_tab_indent && lx.saw_space_indent

abbrev pub stop : Lexer → Cursor → Lexer
stop lx c = record lx { cursor = c; done = true }

abbrev pub end_token : Lexer → Cursor → Token
end_token lx c = record (make lx c end_of_file (start_of c) []) { first_on_line = true }

abbrev pub mixed : Lexer → Cursor → Failure
mixed lx c = failure (codes "indentation mixes tabs and spaces") (start_of c) c

-- `next` behind the end of the source and behind the trivia; `lx` has `pastBlankLine_` set.
abbrev pub next_at : (Bytes → ℕ) → Lexer → Cursor → Option (Token × Lexer)
next_at strtod lx c =
    let seen = seen_indents lx c.line in
    if eof c
    then some (end_token lx c, stop lx c)
    else if mixes_indents seen c.line
    then some (error_token seen (mixed seen c), stop seen c)
    else lex_token strtod seen c >>=? (λ s. some (after_token seen (start_of c) (finish seen s)))

abbrev pub next_behind : (Bytes → ℕ) → Lexer → Skipped → Option (Token × Lexer)
next_behind strtod lx (inl f) = some (error_token lx f, stop lx f.cursor)
next_behind strtod lx (inr c) =
    next_at strtod (record lx { past_blank_line = past_blank_line lx c.pos }) c

abbrev pub done_token : Lexer → Token
done_token lx = record default_token { kind = end_of_file; pos = start_of lx.cursor }

-- `none` is a loop that has not ended.
unfoldable pub next : (Bytes → ℕ) → Lexer → Option (Token × Lexer)
unfolding skip_trivia lex_token make kind_eq error_token past_blank_line seen_indents after_token
next strtod lx =
    if lx.done then some (done_token lx, lx) else skip_trivia lx.cursor >>=? next_behind strtod lx

abbrev pub is_last : Token → Bool
is_last t = kind_eq t.kind end_of_file || kind_eq t.kind error

abbrev pub tokens_turn : List Token → Token × Lexer → (List Token × Lexer) ⊎ List Token
tokens_turn out (t, lx) = if is_last t then inr (out ++ t ∷ []) else inl (out ++ t ∷ [], lx)

abbrev pub tokens_body :
    (Bytes → ℕ) → List Token × Lexer → Option ((List Token × Lexer) ⊎ List Token)
tokens_body strtod (out, lx) = next strtod lx >>=? (λ r. some (tokens_turn out r))

-- `Lexer(source).tokenizeAll()`
unfoldable pub tokenize_all : (Bytes → ℕ) → Bytes → Option (List Token)
unfolding loop next initial_lexer kind_eq
tokenize_all strtod source =
    let lx = initial_lexer source in
    loop (tokens_body strtod) (suc (length lx.cursor.rest)) ([], lx)

-- The tokens of a source, with the layout tokens.
unfoldable pub tokenize : (Bytes → ℕ) → Bytes → Option (Outcome LayoutError (List Token))
unfolding tokenize_all apply_layout
tokenize strtod source = tokenize_all strtod source >>=? (λ raw. some (apply_layout raw))
