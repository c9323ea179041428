-- ===== src/Frontend/Lexer/NextLaws.antt =====
-- frontend/Lexer.cpp: `next` makes one token of the source or the last one, and moves on.
use proto_scala.Common.{
  ℕ, zero, suc, ◌≡◌, refl, ◌∙◌, true, false, ◌||◌, ltb, ◌==◌, if-holds, Option-cases, inl, inr,
  some, Gives, gives, Gives-bind, Bytes, arith,
}
use proto_scala.Frontend.Token.{TokenKind, Token, kind_eq, end_of_file, error, dot}
use proto_scala.Frontend.Lexer.Chars.{is_digit, is_op_char, ident_char_length}
use proto_scala.Frontend.Lexer.Cursor.{Cursor, eof, cur, peek_char, start_of, advance, Scan}
use proto_scala.Frontend.Lexer.State.{Lexer, make, error_token, finish, past_blank_line}
use proto_scala.Frontend.Lexer.Trivia.{Skipped}
use proto_scala.Frontend.Lexer.Next.{
  word_or_string, lex_identifier_or_keyword, punctuation, single, lex_other, lex_token, after_token,
  seen_indents, mixes_indents, next_at, next_behind, next, is_last,
}
use proto_scala.Frontend.Lexer.Progress.{Onward, stays, Further, advance-Further, failing, scanning}
use proto_scala.Frontend.Lexer.Lexed.{is_ordinary, Lexed, LexedScan, make-Lexed}
use proto_scala.Frontend.Lexer.TriviaLaws.{skipped_to, skip_trivia-Gives}
use proto_scala.Frontend.Lexer.WordsLaws.{
  lex_operator-Lexed, lex_backquoted-LexedScan, word-Gives, word_token-Lexed,
}
use proto_scala.Frontend.Lexer.NumbersLaws.{lex_number-LexedScan}
use proto_scala.Frontend.Lexer.QuotedLaws.{lex_char-LexedScan}
use proto_scala.Frontend.Lexer.StringLaws.{lex_string-Gives}
use proto_scala.Frontend.Lexer.InterpolatedLaws.{lex_interpolated-Gives}

word_or_string-Gives :
    (lx : Lexer) (start : Cursor) (r : Bytes × Cursor)
    → Further start r.1
    → Gives (LexedScan start) (word_or_string lx (start_of start) r)
word_or_string-Gives lx start (text, c) f =
    if-holds (Gives (LexedScan start)) (cur c == 34) (λ e. lex_interpolated-Gives lx text start c f)
      (λ e. gives (scanning (word_token-Lexed lx start (text, c) f)))

lex_word-Gives :
    (lx : Lexer) (c : Cursor) (n : ℕ)
    → eof c ≡ false
    → ident_char_length c.rest ≡ suc n
    → Gives (LexedScan c) (lex_identifier_or_keyword lx c)
unfolding lex_identifier_or_keyword
lex_word-Gives lx c n h e = Gives-bind (word-Gives c n h e) (λ r f. word_or_string-Gives lx c r f)

single-LexedScan :
    (lx : Lexer) (c : Cursor) (kind : TokenKind)
    → eof c ≡ false
    → is_ordinary kind ≡ true
    → LexedScan c (single lx c kind)
single-LexedScan lx c kind h o =
    scanning (make-Lexed lx c (advance c) kind _ (advance-Further c h) o)

suc_of : (n : ℕ) → ltb 0 n ≡ true → (m : ℕ) × (n ≡ suc m)
suc_of zero h = cc
suc_of (suc m) h = (m, refl)

lex_other-Gives :
    (strtod : Bytes → ℕ) (lx : Lexer) (c : Cursor)
    → eof c ≡ false
    → Gives (LexedScan c) (lex_other strtod lx c)
unfolding lex_other is_ordinary
lex_other-Gives strtod lx c h =
    let b = cur c in
    let G = Gives (LexedScan c) in
    if-holds G (b == 96) (λ e. gives (lex_backquoted-LexedScan lx c h))
      (λ e.
        if-holds G (b == 34) (λ e. lex_string-Gives lx c h)
          (λ e.
            if-holds G (b == 39) (λ e. gives (lex_char-LexedScan lx c h))
              (λ e.
                if-holds G (b == 46)
                  (λ p. gives (
                    if-holds (LexedScan c) (is_digit (peek_char 1 c))
                      (λ d. lex_number-LexedScan strtod lx c h (inr (ground arith, d)))
                      (λ d. single-LexedScan lx c dot h refl)))
                  (λ p.
                    if-holds G (is_digit b)
                      (λ d. gives (lex_number-LexedScan strtod lx c h (inl d)))
                      (λ d.
                        if-holds G (is_op_char b)
                          (λ o. gives (scanning (lex_operator-Lexed lx c h o)))
                          (λ o.
                            if-holds G (ltb 0 (ident_char_length c.rest))
                              (λ i.
                                let (n, e) = suc_of (ident_char_length c.rest) i in
                                lex_word-Gives lx c n h e)
                              (λ i. gives (failing stays))))))))

punctuation-ordinary : (b : ℕ) (k : TokenKind) → punctuation b ≡ some k → is_ordinary k ≡ true
unfolding punctuation is_ordinary
punctuation-ordinary b k h = ground arith

-- At a byte of the source, the lexer makes a token of what stands there, or an error.
pub lex_token-Gives :
    (strtod : Bytes → ℕ) (lx : Lexer) (c : Cursor)
    → eof c ≡ false
    → Gives (LexedScan c) (lex_token strtod lx c)
unfolding lex_token
lex_token-Gives strtod lx c h = elim (Option-cases (punctuation (cur c))) [
  | inl other ↦ rw (other, lex_token) (lex_other-Gives strtod lx c h)
  | inr (k, mark) ↦
      rw (mark, lex_token) (gives (single-LexedScan lx c k h (punctuation-ordinary (cur c) k mark)))
]

pub ordinary-ne-last :
    (k : TokenKind) → is_ordinary k ≡ true → (kind_eq k end_of_file || kind_eq k error) ≡ false
unfolding is_ordinary kind_eq
ordinary-ne-last k h = ground arith

ordinary-ne-error : (k : TokenKind) → is_ordinary k ≡ true → kind_eq k error ≡ false
unfolding is_ordinary kind_eq
ordinary-ne-error k h = ground arith

-- What `next` returns before the end: the last token, or a token of the source, with the lexer
-- behind it.
pub data Nexts (lx : Lexer) : Token × Lexer → Type 0 where
  last_token : {t : Token} {lx' : Lexer} → is_last t ≡ true → Nexts lx (t, lx')
  a_token :
      {t : Token} {lx' : Lexer} (start : Cursor)
      → Onward lx.cursor start
      → Lexed start (t, lx'.cursor)
      → lx'.done ≡ false
      → Nexts lx (t, lx')

seen_indents-cursor :
    (lx : Lexer) (n : ℕ)
    → ((seen_indents lx n).cursor ≡ lx.cursor) × ((seen_indents lx n).done ≡ lx.done)
unfolding seen_indents
seen_indents-cursor lx n =
    if-holds (λ (m : Lexer). (m.cursor ≡ lx.cursor) × (m.done ≡ lx.done)) (n == lx.last_token_line)
      (λ e. (refl, refl)) (λ e. (refl, refl))

after_token-Nexts :
    (lx seen : Lexer) (c : Cursor) (s : Scan (Token × Cursor))
    → seen.done ≡ false
    → Onward lx.cursor c
    → LexedScan c s
    → Nexts lx (after_token seen (start_of c) (finish seen s))
unfolding after_token error_token kind_eq
after_token-Nexts lx seen c s d o (failing p) = last_token refl
after_token-Nexts lx seen c s d o (scanning {a = r} l) =
    a_token c o
      (record {
        further = l.further;
        ordinary = l.ordinary;
        begins = l.begins;
        ends_at = l.ends_at;
      })
      (rw (d, ordinary-ne-error r.0.kind l.ordinary) refl)

next_at-Gives :
    (strtod : Bytes → ℕ) (lx base : Lexer) (c : Cursor)
    → lx.done ≡ false
    → Onward base.cursor c
    → Gives (Nexts base) (next_at strtod lx c)
unfolding error_token make kind_eq
next_at-Gives strtod lx base c d o =
    let seen = seen_indents lx c.line in
    if-holds (Gives (Nexts base)) (eof c) (λ e. gives (last_token refl))
      (λ e.
        if-holds (Gives (Nexts base)) (mixes_indents seen c.line) (λ m. gives (last_token refl))
          (λ m. Gives-bind (lex_token-Gives strtod seen c e) (λ s l.
            gives (after_token-Nexts base seen c s ((seen_indents-cursor lx c.line).1 ∙ d) o l))))

next_behind-Gives :
    (strtod : Bytes → ℕ) (lx : Lexer) (s : Skipped)
    → lx.done ≡ false
    → Onward lx.cursor (skipped_to s)
    → Gives (Nexts lx) (next_behind strtod lx s)
unfolding error_token kind_eq
next_behind-Gives strtod lx (inl f) d o = gives (last_token refl)
next_behind-Gives strtod lx (inr c) d o =
    next_at-Gives strtod (record lx { past_blank_line = past_blank_line lx c.pos }) lx c d o

-- `next` returns for every source and state.
pub next-Gives :
    (strtod : Bytes → ℕ) (lx : Lexer) → lx.done ≡ false → Gives (Nexts lx) (next strtod lx)
unfolding next
next-Gives strtod lx d =
    if-holds (Gives (Nexts lx)) lx.done (λ e. cc (d, e))
      (λ e. Gives-bind (skip_trivia-Gives lx.cursor) (λ s o. next_behind-Gives strtod lx s d o))
