-- ===== src/Frontend/Lexer/Trivia.antt =====
-- frontend/Lexer.cpp: `skipTrivia`.
use proto_scala.Common.{
  ℕ, suc, ◌+◌, ◌-◌, Bool, true, not, ◌&&◌, ◌||◌, ltb, ◌==◌, if◌then◌else◌, ◌⊎◌, inl, inr, Option,
  some, length, loop, ◌>>=?◌, codes,
}
use proto_scala.Frontend.Token.{SourcePos}
use proto_scala.Frontend.Lexer.Cursor.{
  Cursor, eof, cur, peek_char, start_of, advance, advance_by, scanned, scan_while, here, Failure,
}

abbrev pub at_pair : ℕ → ℕ → Cursor → Bool
at_pair a b c = cur c == a && peek_char 1 c == b

-- One turn in a block comment, with its depth.
abbrev pub comment_turn : ℕ × Cursor → ℕ × Cursor
comment_turn (depth, c) =
    if at_pair 47 42 c
    then (depth + 1, advance_by 2 c)
    else if at_pair 42 47 c
    then (depth - 1, advance_by 2 c)
    else (depth, advance c)

abbrev pub goes_on_in_comment : ℕ × Cursor → Bool
goes_on_in_comment (depth, c) = ltb 0 depth && not (eof c)

abbrev pub comment_body : ℕ × Cursor → Option ((ℕ × Cursor) ⊎ (ℕ × Cursor))
comment_body s =
    let next = comment_turn s in some (if goes_on_in_comment next then inl next else inr next)

-- `do { … } while (depth > 0 && !eof())`
unfoldable pub block_comment : Cursor → Option (ℕ × Cursor)
unfolding loop advance advance_by
block_comment c = loop comment_body (suc (length c.rest)) (0, c)

-- What was skipped, or the unclosed comment.
abbrev pub Skipped : Type 0
Skipped = Failure ⊎ Cursor

abbrev pub after_comment : SourcePos → ℕ × Cursor → Cursor ⊎ Skipped
after_comment start (depth, c) =
    if ltb 0 depth
    then inr
        (inl (record { message = codes "unclosed comment"; at = start; at_eof = true; cursor = c }))
    else inl c

abbrev pub is_trivia_char : ℕ → Bool
is_trivia_char c = c == 32 || c == 9 || c == 13 || c == 10

abbrev pub line_comment : Cursor → Cursor
line_comment c = (scan_while (here (λ b. not (b == 10))) c).1

-- One turn of `skipTrivia`.
abbrev pub trivia_body : Cursor → Option (Cursor ⊎ Skipped)
trivia_body c =
    if eof c
    then some (inr (inr c))
    else if is_trivia_char (cur c)
    then some (inl (advance c))
    else if at_pair 47 47 c
    then some (inl (line_comment c))
    else if at_pair 47 42 c
    then block_comment c >>=? (λ r. some (after_comment (start_of c) r))
    else some (inr (inr c))

unfoldable pub skip_trivia : Cursor → Option Skipped
unfolding loop block_comment scanned
skip_trivia c = loop trivia_body (suc (length c.rest)) c
