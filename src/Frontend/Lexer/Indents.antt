-- ===== src/Frontend/Lexer/Indents.antt =====
-- frontend/Lexer.cpp: the table of `computeLineIndents` has an entry for the line of every token.
use proto_scala.Common.{
  ℕ, ◌≡◌, refl, ap, ◌+◌, ◌≤◌, not, ◌==◌, if◌then◌else◌, if-holds, Bool-cases, inl, inr, List, [],
  ◌∷◌, ◌++◌, Option, none, some, length, All, Gives, Gives-map, Bytes, begins_with, arith,
}
use proto_scala.Frontend.Token.{SourcePos, Token}
use proto_scala.Frontend.Lexer.Cursor.{Cursor, here, scan_while}
use proto_scala.Frontend.Lexer.State.{
  LineIndent, is_blank, next_line, widen, no_indent, line_indents_from, first_cursor, without_bom,
  initial_lexer,
}
use proto_scala.Frontend.Lexer.Next.{tokenize_all}
use proto_scala.Frontend.Lexer.Progress.{scanned-Onward}
use proto_scala.Frontend.Lexer.Places.{place_behind, walk, StandsIn, Onward-Between}
use proto_scala.Frontend.Lexer.Source.{text_of, tokenize_all-StandsIn}

unfoldable pub newlines : Bytes → ℕ
newlines [] = 0
newlines (b ∷ bs) = (if b == 10 then 1 else 0) + newlines bs

newlines-append : (a b : Bytes) → newlines (a ++ b) ≡ newlines a + newlines b
unfolding newlines
newlines-append [] b = ground arith
newlines-append (x ∷ a) b = ground (arith, newlines-append a b)

begun : Option LineIndent → ℕ
begun none = 0
begun (some l) = 1

begun-next_line : (b : ℕ) → begun (next_line b) ≡ (if b == 10 then 1 else 0)
unfolding begun
begun-next_line b = elim (Bool-cases (b == 10)) [ inl e ↦ rw e refl | inr e ↦ rw e refl ]

line_indents-length :
    (bs : Bytes) (o : Option LineIndent) → length (line_indents_from o bs) ≡ begun o + newlines bs
unfolding line_indents_from newlines begun
line_indents-length [] none = ground arith
line_indents-length [] (some l) = ground arith
line_indents-length (b ∷ bs) none =
    ground (arith, line_indents-length bs (next_line b), begun-next_line b)
line_indents-length (b ∷ bs) (some l) = elim (Bool-cases (is_blank b)) [
  | inl blank ↦
      rw (blank, line_indents_from)
        (ground (arith, line_indents-length bs (some (widen b l)), blank))
  | inr text ↦
      rw (text, line_indents_from)
        (ground (arith, line_indents-length bs (next_line b), begun-next_line b))
]

place_behind-line :
    (b : ℕ) (p : SourcePos) → (place_behind b p).line ≡ p.line + (if b == 10 then 1 else 0)
place_behind-line b p = elim (Bool-cases (b == 10)) [
  | inl e ↦ rw e refl
  | inr e ↦ rw e (ground arith)
]

walk-line : (bs : Bytes) (p : SourcePos) → (walk p bs).line ≡ p.line + newlines bs
unfolding walk newlines
walk-line [] p = ground arith
walk-line (b ∷ bs) p = ground (arith, walk-line bs (place_behind b p), place_behind-line b p)

-- What is read has no more newlines than the source without its byte-order mark.
text_of-newlines : (source : Bytes) → newlines (text_of source) ≤ newlines (without_bom source)
unfolding initial_lexer
text_of-newlines source =
    let s = without_bom source in
    let b = Onward-Between (scanned-Onward (here (λ b. not (b == 10))) s (first_cursor s)) in
    if-holds (λ (c : Cursor). newlines c.rest ≤ newlines s) (begins_with (35 ∷ 33 ∷ []) s)
      (λ e. ground (
        arith,
        ap newlines b.split,
        newlines-append b.text (scan_while (here (λ b. not (b == 10))) (first_cursor s)).1.rest,
      ))
      (λ e. ground arith)

table-length :
    (source : Bytes) → length (initial_lexer source).line_indent ≡ 1 + newlines (without_bom source)
unfolding initial_lexer begun
table-length source = line_indents-length (without_bom source) (some no_indent)

-- The line of a token has an entry in the table.
abbrev pub InTable : Bytes → Token → Type 0
InTable source t = (1 ≤ t.pos.line) × (t.pos.line ≤ length (initial_lexer source).line_indent)

StandsIn-InTable : (source : Bytes) (t : Token) → StandsIn (text_of source) t → InTable source t
unfolding newlines
StandsIn-InTable source t s =
    let line = ap (λ (p : SourcePos). p.line) s.begins in
    let walked = walk-line s.before (record { line = 1; column = 1 }) in
    let whole = ap newlines s.split in
    let parts = newlines-append s.before ((s.first ∷ s.more) ++ s.after) in
    let read = text_of-newlines source in
    let table = table-length source in (ground arith, ground arith)

All-InTable :
    (source : Bytes) (ts : List Token)
    → All (StandsIn (text_of source)) ts
    → All (InTable source) ts
All-InTable source [] a = tt
All-InTable source (t ∷ ts) a = (StandsIn-InTable source t a.0, All-InTable source ts a.1)

-- For every source, the table of line indents has an entry for the line of every token before the
-- last, so that the lexer reads none outside the table for them.
pub tokenize_all-InTable :
    (strtod : Bytes → ℕ) (source : Bytes)
    → Gives
        (λ out.
          (ts : List Token) × (final : Token) × (out ≡ ts ++ final ∷ []) × All (InTable source) ts)
        (tokenize_all strtod source)
tokenize_all-InTable strtod source =
    Gives-map (tokenize_all-StandsIn strtod source)
      (λ out (ts, final, e, stand, last). (ts, final, e, All-InTable source ts stand))
