-- ===== src/Frontend/Lexer/WordsLaws.antt =====
-- frontend/Lexer.cpp: operators, backquoted names and words are tokens of the source.
use proto_scala.Common.{
  ℕ, zero, suc, ◌≡◌, refl, Bool, true, false, not, ◌&&◌, ◌||◌, ◌==◌, if-holds, inl, List, [], ◌∷◌,
  some, every, length, Gives, Turn, Turn-if, goes_on, ends, loop-Gives, loop-step, Bytes, bytes_eq,
  codes, arith,
}
use proto_scala.Frontend.Token.{TokenKind, Token, identifier, underscore}
use proto_scala.Frontend.Lexer.Chars.{
  is_op_char, ident_char_length, keywords, find_keyword, keyword_of, reserved_operator,
}
use proto_scala.Frontend.Lexer.Cursor.{
  Cursor, is_empty, eof, cur, start_of, advance, scan_while, here,
}
use proto_scala.Frontend.Lexer.State.{Lexer}
use proto_scala.Frontend.Lexer.Words.{
  operator_text, goes_on_in_operator, lex_operator, lex_backquoted, Word, longer, word_by,
  word_body, word, kind_or_identifier, word_token,
}
use proto_scala.Frontend.Lexer.Progress.{
  Onward, stays, moved, Onward-trans, advance_by-suc-Onward, scanned-Onward, Further, moved-Further,
  Further-Onward, failing, scanning,
}
use proto_scala.Frontend.Lexer.Lexed.{is_ordinary, Lexed, LexedScan, Lexed-with, make-Lexed}

reserved_operator-ordinary : (op : Bytes) → is_ordinary (reserved_operator op) ≡ true
unfolding reserved_operator is_ordinary
reserved_operator-ordinary op = ground arith

find_keyword-ordinary :
    (text : Bytes) (table : List (Bytes × TokenKind))
    → every (λ e. is_ordinary e.1) table ≡ true
    → is_ordinary (kind_or_identifier (find_keyword text table)) ≡ true
unfolding is_ordinary
find_keyword-ordinary text [] h = refl
find_keyword-ordinary text ((w, k) ∷ table) h =
    if-holds (λ o. is_ordinary (kind_or_identifier o) ≡ true) (bytes_eq w text) (λ e. ground arith)
      (λ e. find_keyword-ordinary text table (ground arith))

keyword_of-ordinary : (text : Bytes) → is_ordinary (kind_or_identifier (keyword_of text)) ≡ true
unfolding keyword_of keywords is_ordinary
keyword_of-ordinary text = find_keyword-ordinary text keywords refl

operator_text-Further :
    (c : Cursor) → eof c ≡ false → is_op_char (cur c) ≡ true → Further c (operator_text c).1
operator_text-Further c h op =
    rw (h, op) (moved-Further c h (scanned-Onward goes_on_in_operator (advance c).rest (advance c)))

pub lex_operator-Lexed :
    (lx : Lexer) (c : Cursor)
    → eof c ≡ false
    → is_op_char (cur c) ≡ true
    → Lexed c (lex_operator lx c)
unfolding lex_operator
lex_operator-Lexed lx c h op =
    Lexed-with
      (make-Lexed lx c (operator_text c).1 (reserved_operator (operator_text c).0)
        (operator_text c).0 (operator_text-Further c h op)
        (reserved_operator-ordinary (operator_text c).0))
      refl refl refl

pub lex_backquoted-LexedScan :
    (lx : Lexer) (c : Cursor) → eof c ≡ false → LexedScan c (lex_backquoted lx c)
unfolding lex_backquoted is_ordinary
lex_backquoted-LexedScan lx c h =
    let p : Bytes → Bool = here (λ b. not (b == 96) && not (b == 10)) in
    let r = scan_while p (advance c) in
    let o : Onward (advance c) r.1 = scanned-Onward p (advance c).rest (advance c) in
    if-holds (LexedScan c) (is_empty r.0 || eof r.1 || not (cur r.1 == 96))
      (λ bad. failing (Onward-trans (moved stays) o))
      (λ good. scanning (
        Lexed-with
          (make-Lexed lx c (advance r.1) identifier r.0
            (moved-Further c h (Onward-trans o (moved stays))) refl)
          refl refl refl))

longer-Further :
    (n : ℕ) (w : Word) → eof w.cursor ≡ false → Further w.cursor (longer (suc n) w).cursor
longer-Further n w h = moved-Further w.cursor h (advance_by-suc-Onward n w.cursor)

word_by-Turn :
    (start : Cursor) (w : Word) (n : ℕ)
    → eof w.cursor ≡ false
    → Further start w.cursor
    → Turn
        (λ v. Further start v.cursor)
        (λ v. length v.cursor.rest)
        (length w.cursor.rest)
        (λ r. Further start r.1)
        (some (word_by n w))
word_by-Turn start w zero h f = ends f
word_by-Turn start w (suc n) h f =
    let g = longer-Further n w h in goes_on (Further-Onward f g.onward) g.shorter

word_body-Turn :
    (start : Cursor) (w : Word)
    → Further start w.cursor
    → Turn
        (λ v. Further start v.cursor)
        (λ v. length v.cursor.rest)
        (length w.cursor.rest)
        (λ r. Further start r.1)
        (word_body w)
word_body-Turn start w f =
    Turn-if (eof w.cursor) (λ e. ends f)
      (λ e.
        Turn-if (w.last_was_underscore && is_op_char (cur w.cursor))
          (λ op. ends (Further-Onward f (scanned-Onward (here is_op_char) w.cursor.rest w.cursor)))
          (λ no_op. word_by-Turn start w (ident_char_length w.cursor.rest) e f))

abbrev first_word : Cursor → Word
first_word c = record { text = []; last_was_underscore = false; cursor = c }

word_body-first :
    (c : Cursor) (n : ℕ)
    → eof c ≡ false
    → ident_char_length c.rest ≡ suc n
    → word_body (first_word c) ≡ some (inl (longer (suc n) (first_word c)))
word_body-first c n h e = rw (h, e) refl

-- Before an identifier character, the loop over the word ends, behind that character.
pub word-Gives :
    (c : Cursor) (n : ℕ)
    → eof c ≡ false
    → ident_char_length c.rest ≡ suc n
    → Gives (λ r. Further c r.1) (word c)
unfolding word
word-Gives c n h e =
    let f = longer-Further n (first_word c) h in
    rw (loop-step word_body (length c.rest) (first_word c) (word_body-first c n h e)) (
      loop-Gives (λ v. Further c v.cursor) (λ v. length v.cursor.rest) (λ r. Further c r.1)
        word_body (word_body-Turn c) (length c.rest) (longer (suc n) (first_word c)) f.shorter f)

pub word_token-Lexed :
    (lx : Lexer) (start : Cursor) (r : Bytes × Cursor)
    → Further start r.1
    → Lexed start (word_token lx (start_of start) r, r.1)
unfolding word_token is_ordinary
word_token-Lexed lx start (text, c) f =
    if-holds (λ (t : Token). Lexed start (t, c)) (bytes_eq text (codes "_"))
      (λ e. make-Lexed lx start c underscore text f refl)
      (λ e.
        make-Lexed lx start c (kind_or_identifier (keyword_of text)) text f
          (keyword_of-ordinary text))
