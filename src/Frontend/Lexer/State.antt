-- ===== src/Frontend/Lexer/State.antt =====
-- frontend/Lexer.h and frontend/Lexer.cpp: the lexer's state, the tables of indents, `make`,
-- `error` and `pastBlankLine`.
use proto_scala.Common.{
  ℕ, ◌+◌, ◌-◌, Bool, true, false, not, ◌&&◌, ◌||◌, leb, ◌==◌, if◌then◌else◌, List, [], ◌∷◌, Option,
  none, some, get_or, take, drop, length, Bytes, bytes_eq, begins_with,
}
use proto_scala.Frontend.Token.{TokenKind, SourcePos, Token, default_token, error}
use proto_scala.Frontend.Lexer.Cursor.{
  Cursor, start_of, scanned, scan_while, here, Failure, Scan, fails, scans,
}

-- What `lineIndent_`, `lineHasTab_` and `lineHasSpace_` hold of a line.
pub record LineIndent : Type 0 where
  pub width : ℕ
  pub tab : Bool
  pub space : Bool

abbrev pub no_indent : LineIndent
no_indent = record { width = 0; tab = false; space = false }

abbrev pub is_blank : ℕ → Bool
is_blank b = b == 32 || b == 9

abbrev pub widen : ℕ → LineIndent → LineIndent
widen b l = record { width = l.width + 1; tab = l.tab || b == 9; space = l.space || b == 32 }

-- What a byte behind the leading blanks leaves to measure.
abbrev pub next_line : ℕ → Option LineIndent
next_line b = if b == 10 then some no_indent else none

-- The loop of `computeLineIndents`: in the leading blanks of a line, or behind them.
unfoldable pub line_indents_from : Option LineIndent → Bytes → List LineIndent
line_indents_from none [] = []
line_indents_from (some l) [] = l ∷ []
line_indents_from none (b ∷ bs) = line_indents_from (next_line b) bs
line_indents_from (some l) (b ∷ bs) = elim (is_blank b) [
  | true ↦ line_indents_from (some (widen b l)) bs
  | false ↦ l ∷ line_indents_from (next_line b) bs
]

abbrev pub compute_line_indents : Bytes → List LineIndent
compute_line_indents = line_indents_from (some no_indent)

pub record Lexer : Type 0 where
  pub source : Bytes
  pub cursor : Cursor
  pub last_token_line : ℕ
  pub last_token_end : ℕ
  pub past_blank_line : Bool
  pub done : Bool
  pub line_indent : List LineIndent
  pub saw_tab_indent : Bool
  pub saw_space_indent : Bool

-- `source_.erase(0, 3)` of a byte-order mark
abbrev pub without_bom : Bytes → Bytes
without_bom s = if begins_with (0xEF ∷ 0xBB ∷ 0xBF ∷ []) s then drop 3 s else s

abbrev pub first_cursor : Bytes → Cursor
first_cursor source = record { rest = source; pos = 0; line = 1; column = 1 }

-- `pos_ = source_.find('\n')` skips an interpreter line, `#!…`, up to its newline, which is kept; the
-- line and the column stay 1.
abbrev pub initial_cursor : Bytes → Cursor
initial_cursor source =
    let behind_line = (scan_while (here (λ b. not (b == 10))) (first_cursor source)).1 in
    if begins_with (35 ∷ 33 ∷ []) source
    then record behind_line { line = 1; column = 1 }
    else first_cursor source

abbrev pub lexer_of : Bytes → Lexer
lexer_of source = record {
  source = source;
  cursor = initial_cursor source;
  last_token_line = 0;
  last_token_end = 0;
  past_blank_line = false;
  done = false;
  line_indent = compute_line_indents source;
  saw_tab_indent = false;
  saw_space_indent = false;
}

-- `Lexer::Lexer`
unfoldable pub initial_lexer : Bytes → Lexer
unfolding line_indents_from bytes_eq scanned
initial_lexer source = lexer_of (without_bom source)

-- An index outside the table, undefined in the source, reads no indent here.
abbrev pub indent_at : Lexer → ℕ → LineIndent
indent_at lx line = get_or lx.line_indent (line - 1) no_indent

unfoldable pub make : Lexer → Cursor → TokenKind → SourcePos → Bytes → Token
make lx c kind start text = record default_token {
  kind = kind;
  text = text;
  pos = start;
  end = start_of c;
  line_indent = (indent_at lx start.line).width;
  first_on_line = not (start.line == lx.last_token_line);
  past_blank_line = lx.past_blank_line;
}

-- `Lexer::error`
unfoldable pub error_token : Lexer → Failure → Token
error_token lx f = record default_token {
  kind = error;
  text = f.message;
  pos = f.at;
  end = start_of f.cursor;
  error_at_eof = f.at_eof;
  line_indent =
      (if leb 1 f.at.line && leb f.at.line (length lx.line_indent)
        then (indent_at lx f.at.line).width
        else 0);
  first_on_line = not (f.at.line == lx.last_token_line);
}

abbrev pub finish : Lexer → Scan (Token × Cursor) → Token × Cursor
finish lx (fails f) = (error_token lx f, f.cursor)
finish lx (scans r) = r

-- The bytes between the previous token and the next: is one of their lines blank?
unfoldable pub blank_line_in : Bool → Bytes → Bool
blank_line_in blank [] = false
blank_line_in blank (b ∷ bs) =
    let still = blank && leb b 32 in
    let after = if b == 10 then true else if b == 13 || b == 12 then blank else still in
    (b == 10 && blank) || blank_line_in after bs

unfoldable pub past_blank_line : Lexer → ℕ → Bool
unfolding blank_line_in
past_blank_line lx to =
    blank_line_in false (take (to - lx.last_token_end) (drop lx.last_token_end lx.source))
