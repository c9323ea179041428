-- ===== src/Frontend/Lexer/StringLaws.antt =====
-- frontend/Lexer.cpp: the loops of strings end, and strings are tokens of the source.
use proto_scala.Common.{
  suc, ◌≡◌, refl, true, false, ◌||◌, leb, ◌==◌, if-holds, Bool-cases, ◌⊎◌, inl, inr, [], ◌∷◌, ◌++◌,
  Option, some, length, replicate, Gives, gives, Gives-bind, Turn, Turn-if, goes_on, ends,
  loop-Gives, Bytes, arith,
}
use proto_scala.Frontend.Token.{SourcePos, string_lit}
use proto_scala.Frontend.Lexer.Cursor.{
  Cursor, eof, cur, start_of, advance, advance_by, scan_while, here, Scan,
}
use proto_scala.Frontend.Lexer.State.{Lexer}
use proto_scala.Frontend.Lexer.Quoted.{
  is_quote, after_quotes, triple_body, go_on, string_body, is_triple, string_text, string_token,
  lex_string,
}
use proto_scala.Frontend.Lexer.Progress.{
  stays, moved, advance_by-Onward, Further, moved-Further, advance-Further, Further-Onward,
  scan_while-Further, Within, failing, scanning, Within-bind, Within-map,
}
use proto_scala.Frontend.Lexer.QuotedLaws.{read_escape-Within}
use proto_scala.Frontend.Lexer.Lexed.{is_ordinary, LexedScan, Lexed-with, make-Lexed}

abbrev pub Text : Type 0
Text = Bytes × Cursor

-- A turn of a loop over a text: it goes on further than it was, or ends in a scan further than the
-- token's beginning.
abbrev pub TextTurn : Cursor → Cursor → Option (Text ⊎ Scan Text) → Type 0
TextTurn start c =
    Turn (λ (s : Text). Further start s.1) (λ s. length s.1.rest) (length c.rest)
      (Within start (λ (r : Text). Further start r.1))

-- A turn that goes on one byte further at least.
pub on :
    (start c : Cursor) (text : Bytes) {d : Cursor}
    → Further start c
    → Further c d
    → TextTurn start c (some (inl (text, d)))
on start c text f g = goes_on (Further-Onward f g.onward) g.shorter

after_quotes-Turn :
    (start c : Cursor) (at : SourcePos) (content : Bytes) (r : Bytes × Cursor)
    → Further start c
    → Further c r.1
    → TextTurn start c (some (after_quotes at content r))
after_quotes-Turn start c at content (run, d) f g =
    if-holds (λ (t : Text ⊎ Scan Text). TextTurn start c (some t)) (leb 3 (length run))
      (λ e. ends (scanning (Further-Onward f g.onward)))
      (λ e.
        if-holds (λ (t : Text ⊎ Scan Text). TextTurn start c (some t)) (eof d)
          (λ z. ends (failing (Further-Onward f g.onward).onward))
          (λ z. on start c (content ++ replicate (length run) 34) f g))

quotes-Further :
    (c : Cursor) → eof c ≡ false → (cur c == 34) ≡ true → Further c (scan_while (here is_quote) c).1
quotes-Further c h q = scan_while-Further (here is_quote) c h q

triple_body-Turn :
    (start : Cursor) (at : SourcePos) (s : Text)
    → Further start s.1
    → TextTurn start s.1 (triple_body at s)
triple_body-Turn start at (content, c) f =
    Turn-if (eof c) (λ e. ends (failing f.onward))
      (λ e.
        Turn-if (cur c == 34)
          (λ q.
            after_quotes-Turn start c at content (scan_while (here is_quote) c) f
              (quotes-Further c e q))
          (λ q. on start c (content ++ cur c ∷ []) f (advance-Further c e)))

go_on-Turn :
    (start c : Cursor) (s : Scan Text)
    → Further start c
    → Within start (λ r. Further c r.1) s
    → TextTurn start c (some (go_on s))
go_on-Turn start c s f (failing o) = ends (failing o)
go_on-Turn start c s f (scanning g) = on start c _ f g

string_body-Turn :
    (start : Cursor) (at : SourcePos) (s : Text)
    → Further start s.1
    → TextTurn start s.1 (string_body at s)
string_body-Turn start at (value, c) f = elim (Bool-cases (eof c || cur c == 10)) [
  | inl end ↦ rw end (ends (failing f.onward))
  | inr e ↦ rw e (
      Turn-if (cur c == 34) (λ q. ends (scanning (Further-Onward f (moved stays))))
        (λ q.
          Turn-if (cur c == 92)
            (λ b. go_on-Turn start c _ f (
              Within-map (read_escape-Within start (start_of c) value (advance c) (moved f.onward))
                (λ r p. moved-Further c (ground arith) p)))
            (λ b. on start c (value ++ cur c ∷ []) f (advance-Further c (ground arith)))))
]

-- The text of a string ends for every source: with a text, or with an error.
pub string_text-Gives :
    (start : Cursor) (at : SourcePos) (c : Cursor)
    → Further start c
    → Gives (Within start (λ r. Further start r.1)) (string_text at c)
unfolding string_text
string_text-Gives start at c f =
    if-holds (Gives (Within start (λ (r : Text). Further start r.1))) (is_triple c)
      (λ t.
        loop-Gives (λ (s : Text). Further start s.1) (λ s. length s.1.rest)
          (Within start (λ (r : Text). Further start r.1)) (triple_body at)
          (triple_body-Turn start at) (suc (length (advance_by 2 c).rest)) ([], advance_by 2 c)
          (ground arith) (Further-Onward f (advance_by-Onward 2 c)))
      (λ t.
        loop-Gives (λ (s : Text). Further start s.1) (λ s. length s.1.rest)
          (Within start (λ (r : Text). Further start r.1)) (string_body at)
          (string_body-Turn start at) (suc (length c.rest)) ([], c) (ground arith) f)

string_token-LexedScan :
    (lx : Lexer) (c : Cursor) (s : Scan Text)
    → Within c (λ r. Further c r.1) s
    → LexedScan c (string_token lx (start_of c) s)
unfolding is_ordinary
string_token-LexedScan lx c s w =
    Within-bind w
      (λ r f. scanning (Lexed-with (make-Lexed lx c r.1 string_lit r.0 f refl) refl refl refl))

pub lex_string-Gives :
    (lx : Lexer) (c : Cursor) → eof c ≡ false → Gives (LexedScan c) (lex_string lx c)
unfolding lex_string
lex_string-Gives lx c h =
    Gives-bind (string_text-Gives c (start_of c) (advance c) (advance-Further c h))
      (λ s w. gives (string_token-LexedScan lx c s w))
