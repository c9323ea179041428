-- ===== src/Frontend/Lexer/TriviaLaws.antt =====
-- frontend/Lexer.cpp: `skipTrivia` ends, and only moves on.
use proto_scala.Common.{
  ℕ, suc, ◌≡◌, ◌<◌, true, false, not, ltb, ◌==◌, Bool-cases, inl, inr, some, length, Gives,
  if-holds, Turn-if, Turn-bind, Turn, goes_on, ends, loop-Gives, arith,
}
use proto_scala.Frontend.Token.{SourcePos}
use proto_scala.Frontend.Lexer.Cursor.{Cursor, eof, cur, start_of, here}
use proto_scala.Frontend.Lexer.Trivia.{
  comment_turn, comment_body, goes_on_in_comment, block_comment, Skipped, after_comment, at_pair,
  trivia_body, skip_trivia, is_trivia_char,
}
use proto_scala.Frontend.Lexer.Progress.{
  Onward, stays, moved, Onward-trans, advance_by-suc-Onward, cur-before_end, Further, moved-Further,
  advance-Further, Onward-Further, scan_while-Further,
}

comment_turn-Further : (d : ℕ) (c : Cursor) → eof c ≡ false → Further c (comment_turn (d, c)).1
comment_turn-Further d c h =
    let two = moved-Further c h (advance_by-suc-Onward 1 c) in
    if-holds (λ (s : ℕ × Cursor). Further c s.1) (at_pair 47 42 c) (λ e. two)
      (λ e.
        if-holds (λ (s : ℕ × Cursor). Further c s.1) (at_pair 42 47 c) (λ e. two)
          (λ e. advance-Further c h))

abbrev InComment : Cursor → ℕ × Cursor → Type 0
InComment start (d, c) = (eof c ≡ false) × Onward start c

comment_body-Turn :
    (start : Cursor) (s : ℕ × Cursor)
    → InComment start s
    → Turn
        (InComment start)
        (λ r. length r.1.rest)
        (length s.1.rest)
        (λ r. Further start r.1)
        (comment_body s)
comment_body-Turn start (d, c) (h, o) =
    let f = comment_turn-Further d c h in
    elim (Bool-cases (goes_on_in_comment (comment_turn (d, c)))) [
      | inl on ↦ rw on (goes_on (ground arith, Onward-trans o f.onward) f.shorter)
      | inr off ↦ rw off (ends (Onward-Further o f))
    ]

block_comment-Gives : (c : Cursor) → eof c ≡ false → Gives (λ r. Further c r.1) (block_comment c)
unfolding block_comment
block_comment-Gives c h =
    loop-Gives (InComment c) (λ r. length r.1.rest) (λ r. Further c r.1) comment_body
      (comment_body-Turn c) (suc (length c.rest)) (0, c) (ground arith) (h, stays)

-- The cursor of what was skipped.
abbrev pub skipped_to : Skipped → Cursor
skipped_to (inl f) = f.cursor
skipped_to (inr c) = c

cur-before : (c : Cursor) (b : ℕ) → (cur c == suc b) ≡ true → eof c ≡ false
cur-before c b h = cur-before_end c b (ground arith)

after_comment-Turn :
    (start c : Cursor) (at : SourcePos) (r : ℕ × Cursor)
    → Onward start r.1
    → length r.1.rest < length c.rest
    → Turn
        (Onward start)
        (λ d. length d.rest)
        (length c.rest)
        (λ s. Onward start (skipped_to s))
        (some (after_comment at r))
after_comment-Turn start c at (depth, d) o less = elim (Bool-cases (ltb 0 depth)) [
  | inl unclosed ↦ rw unclosed (ends o)
  | inr closed ↦ rw closed (goes_on o less)
]

trivia_body-Turn :
    (start c : Cursor)
    → Onward start c
    → Turn
        (Onward start)
        (λ d. length d.rest)
        (length c.rest)
        (λ r. Onward start (skipped_to r))
        (trivia_body c)
trivia_body-Turn start c o =
    Turn-if (eof c) (λ e. ends o)
      (λ e.
        Turn-if (is_trivia_char (cur c))
          (λ t. goes_on (Onward-trans o (moved stays)) (advance-Further c e).shorter)
          (λ t.
            Turn-if (at_pair 47 47 c)
              (λ l.
                let f = scan_while-Further (here (λ b. not (b == 10))) c e (ground arith) in
                goes_on (Onward-trans o f.onward) f.shorter)
              (λ l.
                Turn-if (at_pair 47 42 c)
                  (λ b. Turn-bind (block_comment-Gives c e) (λ r f.
                    after_comment-Turn start c (start_of c) r (Onward-trans o f.onward) f.shorter))
                  (λ b. ends o))))

-- Skipping blanks and comments ends for every source.
pub skip_trivia-Gives : (c : Cursor) → Gives (λ r. Onward c (skipped_to r)) (skip_trivia c)
unfolding skip_trivia
skip_trivia-Gives c =
    loop-Gives (Onward c) (λ d. length d.rest) (λ r. Onward c (skipped_to r)) trivia_body
      (trivia_body-Turn c) (suc (length c.rest)) c (ground arith) stays
