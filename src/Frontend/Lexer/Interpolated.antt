-- ===== src/Frontend/Lexer/Interpolated.antt =====
-- frontend/Lexer.cpp: `lexInterpolated`.
use proto_scala.Common.{
  suc, ◌-◌, Bool, true, false, not, ◌&&◌, leb, ◌==◌, if◌then◌else◌, ◌⊎◌, inl, inr, List, [], ◌∷◌,
  ◌++◌, Option, some, ◌>>=?◌, length, replicate, loop, Bytes, codes, bytes_eq,
}
use proto_scala.Frontend.Token.{SourcePos, Token, InterpolationPart, interpolated_string}
use proto_scala.Frontend.Lexer.Cursor.{
  Cursor, is_empty, eof, cur, start_of, advance, advance_by, scanned, scan_while, here, Failure,
  Scan, fails, scans, ◌>>=◌, failure,
}
use proto_scala.Frontend.Lexer.State.{Lexer, make}
use proto_scala.Frontend.Lexer.Quoted.{is_quote, is_triple, read_escape}
use proto_scala.Frontend.Lexer.Holes.{Taken, hole, hole_char_length, hole_name}

-- The literal's beginning, and whether it is triple-quoted and raw.
pub record Quotes : Type 0 where
  pub start : SourcePos
  pub triple : Bool
  pub raw : Bool

pub record Interpolation : Type 0 where
  pub parts : List InterpolationPart
  pub literal : Bytes
  pub literal_start : SourcePos
  pub cursor : Cursor

-- `error(unterminatedMsg, start, triple)`
abbrev pub unterminated : Quotes → Cursor → Failure
unterminated q c = record {
  message =
      (if q.triple
        then codes "unclosed multi-line string literal"
        else codes "unclosed string literal");
  at = q.start;
  at_eof = q.triple;
  cursor = c;
}

abbrev pub literal_part : Interpolation → InterpolationPart
literal_part s = record { is_hole = false; text = s.literal; pos = s.literal_start }

abbrev pub flush_literal : Interpolation → Interpolation
flush_literal s = record s {
  parts = if is_empty s.literal then s.parts else s.parts ++ literal_part s ∷ [];
  literal = [];
}

-- A hole that begins at `at`, behind the literal before it.
abbrev pub push_hole : SourcePos → Interpolation → Taken → Interpolation
push_hole at s (text, c) = record {
  parts = (flush_literal s).parts ++ record { is_hole = true; text = text; pos = at } ∷ [];
  literal = [];
  literal_start = start_of c;
  cursor = c;
}

abbrev pub InterpolationTurn : Type 0
InterpolationTurn = Interpolation ⊎ Scan Interpolation

abbrev pub close_run : Quotes → Interpolation → Bytes × Cursor → InterpolationTurn
close_run q s (run, c) =
    if leb 3 (length run)
    then inr (scans (record s { literal = s.literal ++ replicate (length run - 3) 34; cursor = c }))
    else if eof c
    then inr (fails (record (unterminated q c) { at_eof = true }))
    else inl (record s { literal = s.literal ++ replicate (length run) 34; cursor = c })

abbrev pub brace_hole : SourcePos → Interpolation → Scan Taken → InterpolationTurn
brace_hole at s (fails f) = inr (fails f)
brace_hole at s (scans t) = inl (push_hole at s t)

-- At the byte behind a `$`, which stands at `dollar`.
abbrev pub dollar_turn : Quotes → SourcePos → Interpolation → Cursor → Option InterpolationTurn
dollar_turn q dollar s c =
    if cur c == 36
    then some (inl (record s { literal = s.literal ++ 36 ∷ []; cursor = advance c }))
    else if cur c == 123
    then hole q.start (unterminated q) (advance c)
      >>=? (λ r. some (brace_hole (start_of (advance c)) s r))
    else if hole_char_length c.rest == 0
    then some (
        inr (
          fails (
            failure (codes "invalid string interpolation: $$, $ident or ${expr} expected") dollar
              c)))
    else hole_name c >>=? (λ t. some (inl (push_hole (start_of c) s t)))

abbrev pub escaped : Interpolation → Scan (Bytes × Cursor) → InterpolationTurn
escaped s (fails f) = inr (fails f)
escaped s (scans (text, c)) = inl (record s { literal = text; cursor = c })

abbrev pub plain_char : Interpolation → Interpolation
plain_char s = record s {
  literal = s.literal ++ cur s.cursor ∷ [];
  literal_start = if is_empty s.literal then start_of s.cursor else s.literal_start;
  cursor = advance s.cursor;
}

-- One turn of the loop.
abbrev pub interpolated_body : Quotes → Interpolation → Option InterpolationTurn
interpolated_body q s =
    let c = s.cursor in
    if eof c
    then some (inr (fails (unterminated q c)))
    else if not q.triple && cur c == 10
    then some (inr (fails (failure (codes "unclosed string literal") q.start c)))
    else if q.triple && cur c == 34
    then some (close_run q s (scan_while (here is_quote) c))
    else if not q.triple && cur c == 34
    then some (inr (scans (record s { cursor = advance c })))
    else if cur c == 36
    then dollar_turn q (start_of c) s (advance c)
    else if not q.triple && not q.raw && cur c == 92
    then some (escaped s (read_escape (start_of c) s.literal (advance c)))
    else some (inl (plain_char s))

unfoldable pub interpolation : Quotes → Cursor → Option (Scan Interpolation)
unfolding loop hole hole_name hole_char_length read_escape scanned
interpolation q c =
    loop (interpolated_body q) (suc (length c.rest))
      (record { parts = []; literal = []; literal_start = start_of c; cursor = c })

abbrev pub interpolated_token :
    Lexer → Bytes → SourcePos → Scan Interpolation → Scan (Token × Cursor)
interpolated_token lx interpolator start i = i >>= λ s. scans (
  record (make lx s.cursor interpolated_string start interpolator) {
    parts = (flush_literal s).parts;
  },
  s.cursor,
)

-- The opening quote is at the cursor.
unfoldable pub lex_interpolated :
    Lexer → Bytes → SourcePos → Cursor → Option (Scan (Token × Cursor))
unfolding interpolation advance_by bytes_eq make
lex_interpolated lx interpolator start c =
    let open_text = advance c in
    let triple = is_triple open_text in
    let first = if triple then advance_by 2 open_text else open_text in
    let q : Quotes = record {
      start = start;
      triple = triple;
      raw = bytes_eq interpolator (codes "raw");
    } in
    interpolation q first >>=? (λ i. some (interpolated_token lx interpolator start i))
