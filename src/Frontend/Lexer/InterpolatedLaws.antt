-- ===== src/Frontend/Lexer/InterpolatedLaws.antt =====
-- frontend/Lexer.cpp: `lexInterpolated` ends and makes a token of the source.
use proto_scala.Common.{
  suc, ◌≡◌, refl, false, not, ◌&&◌, leb, ◌==◌, if◌then◌else◌, if-holds, inl, [], Option, some,
  length, Gives, gives, Gives-bind, Turn, Turn-if, Turn-bind, goes_on, ends, loop-Gives, Bytes,
  bytes_eq, codes, arith,
}
use proto_scala.Frontend.Token.{SourcePos, interpolated_string}
use proto_scala.Frontend.Lexer.Cursor.{
  Cursor, eof, cur, start_of, advance, advance_by, scan_while, here, Scan,
}
use proto_scala.Frontend.Lexer.State.{Lexer}
use proto_scala.Frontend.Lexer.Quoted.{is_quote, is_triple}
use proto_scala.Frontend.Lexer.Holes.{Taken, hole_char_length}
use proto_scala.Frontend.Lexer.Interpolated.{
  Quotes, Interpolation, unterminated, push_hole, InterpolationTurn, close_run, brace_hole,
  dollar_turn, escaped, plain_char, interpolated_body, interpolation, lex_interpolated,
}
use proto_scala.Frontend.Lexer.Progress.{
  Onward, stays, moved, Onward-trans, advance_by-Onward, Further, moved-Further, advance-Further,
  Further-Onward, scan_while-Further, Within, failing, scanning, Within-bind, Within-map,
  Within-base,
}
use proto_scala.Frontend.Lexer.QuotedLaws.{read_escape-Within}
use proto_scala.Frontend.Lexer.HolesLaws.{hole-Gives, hole_name-Gives}
use proto_scala.Frontend.Lexer.Lexed.{is_ordinary, LexedScan, Lexed-with, make-Lexed}

abbrev PartTurn : Cursor → Cursor → Option InterpolationTurn → Type 0
PartTurn start c =
    Turn (λ (s : Interpolation). Onward start s.cursor) (λ s. length s.cursor.rest) (length c.rest)
      (Within start (λ (r : Interpolation). Onward start r.cursor))

step_on :
    (start c : Cursor) (s : Interpolation)
    → Onward start c
    → Further c s.cursor
    → PartTurn start c (some (inl s))
step_on start c s o g = goes_on (Onward-trans o g.onward) g.shorter

close_run-Turn :
    (start c : Cursor) (q : Quotes) (s : Interpolation) (r : Bytes × Cursor)
    → Onward start c
    → Further c r.1
    → PartTurn start c (some (close_run q s r))
close_run-Turn start c q s (run, d) o g =
    let P = λ (t : InterpolationTurn). PartTurn start c (some t) in
    if-holds P (leb 3 (length run)) (λ e. ends (scanning (Onward-trans o g.onward)))
      (λ e.
        if-holds P (eof d) (λ z. ends (failing (Onward-trans o g.onward)))
          (λ z. step_on start c _ o g))

brace_hole-Turn :
    (start c : Cursor) (at : SourcePos) (s : Interpolation) (r : Scan Taken)
    → Onward start c
    → Within start (λ t. Further c t.1) r
    → PartTurn start c (some (brace_hole at s r))
brace_hole-Turn start c at s r o (failing p) = ends (failing p)
brace_hole-Turn start c at s r o (scanning {a = t} g) = step_on start c (push_hole at s t) o g

escaped-Turn :
    (start c : Cursor) (s : Interpolation) (r : Scan (Bytes × Cursor))
    → Onward start c
    → Within start (λ t. Further c t.1) r
    → PartTurn start c (some (escaped s r))
escaped-Turn start c s r o (failing p) = ends (failing p)
escaped-Turn start c s r o (scanning g) = step_on start c _ o g

-- `c` is at the `$`.
dollar_turn-Turn :
    (start c : Cursor) (q : Quotes) (s : Interpolation)
    → Onward start c
    → eof c ≡ false
    → PartTurn start c (dollar_turn q (start_of c) s (advance c))
dollar_turn-Turn start c q s o h =
    let d = advance c in
    Turn-if (cur d == 36) (λ e. step_on start c _ o (moved-Further c h (moved stays)))
      (λ e.
        Turn-if (cur d == 123)
          (λ b. Turn-bind (hole-Gives q.start (unterminated q) (advance d) (λ k. refl)) (λ r w.
            brace_hole-Turn start c (start_of (advance d)) s r o (
              Within-base (moved (moved o))
                (Within-map w (λ t p. moved-Further c h (Onward-trans (moved stays) p))))))
          (λ b.
            Turn-if (hole_char_length d.rest == 0) (λ z. ends (failing (moved o)))
              (λ z.
                Turn-bind (hole_name-Gives d)
                  (λ t p. step_on start c (push_hole (start_of d) s t) o (moved-Further c h p)))))

interpolated_body-Turn :
    (start : Cursor) (q : Quotes) (s : Interpolation)
    → Onward start s.cursor
    → PartTurn start s.cursor (interpolated_body q s)
interpolated_body-Turn start q s o =
    let c = s.cursor in
    Turn-if (eof c) (λ e. ends (failing o))
      (λ e.
        Turn-if (not q.triple && cur c == 10) (λ a. ends (failing o))
          (λ a.
            Turn-if (q.triple && cur c == 34)
              (λ b.
                close_run-Turn start c q s (scan_while (here is_quote) c) o
                  (scan_while-Further (here is_quote) c e (ground arith)))
              (λ b.
                Turn-if (not q.triple && cur c == 34) (λ d. ends (scanning (moved o)))
                  (λ d.
                    Turn-if (cur c == 36) (λ f. dollar_turn-Turn start c q s o e)
                      (λ f.
                        Turn-if (not q.triple && not q.raw && cur c == 92)
                          (λ g. escaped-Turn start c s _ o (
                            Within-map
                              (read_escape-Within start (start_of c) s.literal (advance c)
                                (moved o))
                              (λ r p. moved-Further c e p)))
                          (λ g. step_on start c (plain_char s) o (advance-Further c e)))))))

interpolation-Gives :
    (q : Quotes) (c : Cursor) → Gives (Within c (λ r. Onward c r.cursor)) (interpolation q c)
unfolding interpolation
interpolation-Gives q c =
    loop-Gives (λ (s : Interpolation). Onward c s.cursor) (λ s. length s.cursor.rest)
      (Within c (λ (r : Interpolation). Onward c r.cursor)) (interpolated_body q)
      (interpolated_body-Turn c q) (suc (length c.rest))
      (record { parts = []; literal = []; literal_start = start_of c; cursor = c }) (ground arith)
      stays

-- The opening quote is further than the beginning of the interpolator.
pub lex_interpolated-Gives :
    (lx : Lexer) (name : Bytes) (start c : Cursor)
    → Further start c
    → Gives (LexedScan start) (lex_interpolated lx name (start_of start) c)
unfolding lex_interpolated is_ordinary
lex_interpolated-Gives lx name start c f =
    let d = advance c in
    let first = if is_triple d then advance_by 2 d else d in
    let o : Onward d first =
      if-holds (Onward d) (is_triple d) (λ e. advance_by-Onward 2 d) (λ e. stays) in
    let g = Further-Onward f (Onward-trans (moved stays) o) in
    Gives-bind
      (interpolation-Gives
        (record { start = start_of start; triple = is_triple d; raw = bytes_eq name (codes "raw") })
        first)
      (λ i w. gives (
        Within-bind (Within-base g.onward w) (λ s p. scanning (
          Lexed-with
            (make-Lexed lx start s.cursor interpolated_string name (Further-Onward g p) refl) refl
            refl refl))))
