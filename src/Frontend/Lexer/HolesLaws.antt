-- ===== src/Frontend/Lexer/HolesLaws.antt =====
-- frontend/Lexer.cpp: the loops of the holes of an interpolated string end.
use proto_scala.Common.{
  ℕ, zero, suc, ◌≡◌, refl, ◌+◌, ◌-◌, false, ◌&&◌, ◌||◌, leb, ◌==◌, if-holds, Bool-cases, ◌⊎◌, inl,
  inr, [], ◌∷◌, ◌++◌, Option, some, length, subst, sym, Gives, Gives-map, Turn, Turn-if, Turn-bind,
  goes_on, ends, loop-Gives, Bytes, arith,
}
use proto_scala.Frontend.Token.{SourcePos}
use proto_scala.Frontend.Lexer.Cursor.{
  Cursor, is_empty, eof, cur, peek_char, scan_while, here, Failure, Scan,
}
use proto_scala.Frontend.Lexer.Quoted.{is_quote}
use proto_scala.Frontend.Lexer.Holes.{
  Taken, take_char, take_if_any, behind_quotes, nested_triple_body, nested_body, nested_string,
  Hole, close_brace, in_hole, hole_body, hole, hole_char_length, name_by, name_body, hole_name,
}
use proto_scala.Frontend.Lexer.Progress.{
  Onward, stays, moved, Onward-trans, advance_by-suc-Onward, Further, moved-Further,
  advance-Further, Further-Onward, scan_while-Further, Within, failing, scanning, Within-base,
}
use proto_scala.Frontend.Lexer.StringLaws.{TextTurn, on}

behind_quotes-Turn :
    (start c : Cursor) (text : Bytes) (r : Bytes × Cursor)
    → Further start c
    → Further c r.1
    → TextTurn start c (some (behind_quotes text r))
behind_quotes-Turn start c text (run, d) f g =
    if-holds (λ (t : Taken ⊎ Scan Taken). TextTurn start c (some t)) (leb 3 (length run))
      (λ e. ends (scanning (Further-Onward f g.onward))) (λ e. on start c (text ++ run) f g)

nested_triple_body-Turn :
    (start : Cursor) (at : SourcePos) (s : Taken)
    → Further start s.1
    → TextTurn start s.1 (nested_triple_body at s)
nested_triple_body-Turn start at (text, c) f =
    Turn-if (eof c) (λ e. ends (failing f.onward))
      (λ e.
        Turn-if (cur c == 34)
          (λ q.
            behind_quotes-Turn start c text (scan_while (here is_quote) c) f
              (scan_while-Further (here is_quote) c e q))
          (λ q. on start c (text ++ cur c ∷ []) f (advance-Further c e)))

take_if_any-Onward : (t : Taken) → Onward t.1 (take_if_any t).1
take_if_any-Onward (text, c) =
    if-holds (λ (u : Taken). Onward c u.1) (eof c) (λ e. stays) (λ e. moved stays)

nested_body-Turn :
    (start : Cursor) (at : SourcePos) (s : Taken)
    → Further start s.1
    → TextTurn start s.1 (nested_body at s)
nested_body-Turn start at (text, c) f = elim (Bool-cases (eof c || cur c == 10)) [
  | inl end ↦ rw end (ends (failing f.onward))
  | inr e ↦ rw e (
      Turn-if (cur c == 34) (λ q. ends (scanning (Further-Onward f (moved stays))))
        (λ q.
          Turn-if (cur c == 92)
            (λ b.
              on start c _ f
                (moved-Further c (ground arith) (take_if_any-Onward (take_char (text, c)))))
            (λ b. on start c (text ++ cur c ∷ []) f (advance-Further c (ground arith)))))
]

nested_string-Gives :
    (start : Cursor) (at : SourcePos) (s : Taken)
    → Onward start s.1
    → eof s.1 ≡ false
    → Gives (Within start (λ r. Further s.1 r.1)) (nested_string at s)
unfolding nested_string
nested_string-Gives start at (text, c) o h =
    let f = advance-Further c h in
    let t = take_char (text, c) in
    let inner = take_char (take_char t) in
    if-holds (Gives (Within start (λ (r : Taken). Further c r.1)))
      (peek_char 1 c == 34 && peek_char 2 c == 34)
      (λ e.
        Gives-map
          (loop-Gives (λ (s : Taken). Further c s.1) (λ s. length s.1.rest)
            (Within c (λ (r : Taken). Further c r.1)) (nested_triple_body at)
            (nested_triple_body-Turn c at) (suc (length inner.1.rest)) inner (ground arith)
            (Further-Onward f (moved (moved stays))))
          (λ s w. Within-base o w))
      (λ e.
        Gives-map
          (loop-Gives (λ (s : Taken). Further c s.1) (λ s. length s.1.rest)
            (Within c (λ (r : Taken). Further c r.1)) (nested_body at) (nested_body-Turn c at)
            (suc (length t.1.rest)) t (ground arith) f)
          (λ s w. Within-base o w))

abbrev HoleTurn : Cursor → Cursor → Option (Hole ⊎ Scan Taken) → Type 0
HoleTurn start c =
    Turn (λ (s : Hole). Onward start s.1.1) (λ s. length s.1.1.rest) (length c.rest)
      (Within start (λ (r : Taken). Onward start r.1))

step_on :
    (start c : Cursor) (depth : ℕ) (text : Bytes) {d : Cursor}
    → Onward start c
    → Further c d
    → HoleTurn start c (some (inl (depth, (text, d))))
step_on start c depth text o g = goes_on (Onward-trans o g.onward) g.shorter

close_brace-Turn :
    (start c : Cursor) (depth : ℕ) (text : Bytes)
    → Onward start c
    → eof c ≡ false
    → HoleTurn start c (some (close_brace depth (text, c)))
close_brace-Turn start c depth text o h =
    if-holds (λ (t : Hole ⊎ Scan Taken). HoleTurn start c (some t)) (leb depth 1)
      (λ e. ends (scanning (moved o)))
      (λ e. step_on start c (depth - 1) (text ++ cur c ∷ []) o (advance-Further c h))

in_hole-Turn :
    (start c : Cursor) (depth : ℕ) (s : Scan Taken)
    → Onward start c
    → Within start (λ r. Further c r.1) s
    → HoleTurn start c (some (in_hole depth s))
in_hole-Turn start c depth s o (failing p) = ends (failing p)
in_hole-Turn start c depth s o (scanning g) = step_on start c depth _ o g

-- The failure at the end of the source reports the cursor it is given.
abbrev pub KeepsCursor : (Cursor → Failure) → Type 0
KeepsCursor u = (c : Cursor) → (u c).cursor ≡ c

hole_body-Turn :
    (start : Cursor) (at : SourcePos) (unclosed : Cursor → Failure) (s : Hole)
    → KeepsCursor unclosed
    → Onward start s.1.1
    → HoleTurn start s.1.1 (hole_body at unclosed s)
hole_body-Turn start at unclosed (depth, (text, c)) k o =
    Turn-if (eof c) (λ e. ends (failing (subst (Onward start) (sym (k c)) o)))
      (λ e.
        Turn-if (cur c == 123)
          (λ b. step_on start c (depth + 1) (text ++ cur c ∷ []) o (advance-Further c e))
          (λ b.
            Turn-if (cur c == 125) (λ b'. close_brace-Turn start c depth text o e)
              (λ b'.
                Turn-if (cur c == 34)
                  (λ q.
                    Turn-bind (nested_string-Gives start at (text, c) o e)
                      (λ s w. in_hole-Turn start c depth s o w))
                  (λ q. step_on start c depth (text ++ cur c ∷ []) o (advance-Further c e)))))

-- A hole in braces ends for every source.
pub hole-Gives :
    (at : SourcePos) (unclosed : Cursor → Failure) (c : Cursor)
    → KeepsCursor unclosed
    → Gives (Within c (λ r. Onward c r.1)) (hole at unclosed c)
unfolding hole
hole-Gives at unclosed c k =
    loop-Gives (λ (s : Hole). Onward c s.1.1) (λ s. length s.1.1.rest)
      (Within c (λ (r : Taken). Onward c r.1)) (hole_body at unclosed)
      (λ s o. hole_body-Turn c at unclosed s k o) (suc (length c.rest)) (1, ([], c)) (ground arith)
      stays

hole_char-before_end : (bs : Bytes) (n : ℕ) → hole_char_length bs ≡ suc n → is_empty bs ≡ false
unfolding hole_char_length
hole_char-before_end [] n h = cc
hole_char-before_end (b ∷ bs) n h = refl

abbrev NameTurn : Cursor → Cursor → Option (Taken ⊎ Taken) → Type 0
NameTurn start c =
    Turn (λ (s : Taken). Onward start s.1) (λ s. length s.1.rest) (length c.rest)
      (λ (r : Taken). Onward start r.1)

name_by-Turn :
    (start : Cursor) (s : Taken) (n : ℕ)
    → Onward start s.1
    → hole_char_length s.1.rest ≡ n
    → NameTurn start s.1 (some (name_by n s))
name_by-Turn start (text, c) zero o e = ends o
name_by-Turn start (text, c) (suc n) o e =
    let f = moved-Further c (hole_char-before_end c.rest n e) (advance_by-suc-Onward n c) in
    goes_on (Onward-trans o f.onward) f.shorter

-- A named hole ends for every source.
pub hole_name-Gives : (c : Cursor) → Gives (λ r. Onward c r.1) (hole_name c)
unfolding hole_name
hole_name-Gives c =
    loop-Gives (λ (s : Taken). Onward c s.1) (λ s. length s.1.rest) (λ (r : Taken). Onward c r.1)
      name_body (λ s o. name_by-Turn c s (hole_char_length s.1.rest) o refl) (suc (length c.rest))
      ([], c) (ground arith) stays
