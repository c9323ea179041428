-- ===== src/Frontend/Lexer/Places.antt =====
-- frontend/Lexer.cpp: lines and columns. What `advance` counts is the line and the column of the text behind
-- it.
use proto_scala.Common.{
  ℕ, ◌≡◌, refl, sym, ap, ◌∙◌, ◌+◌, ◌<◌, ◌==◌, if◌then◌else◌, Bool-cases, inl, inr, [], ◌∷◌, ◌++◌,
  append_assoc, length, Bytes, arith,
}
use proto_scala.Frontend.Token.{SourcePos, Token}
use proto_scala.Frontend.Lexer.Cursor.{Cursor, start_of, behind, advance_over, advance}
use proto_scala.Frontend.Lexer.Utf8.{is_continuation}
use proto_scala.Frontend.Lexer.Progress.{Onward, stays, moved}
use proto_scala.Frontend.Lexer.Lexed.{Lexed}

-- Line and column behind a byte: a newline begins a line, and a continuation byte has no column.
abbrev pub place_behind : ℕ → SourcePos → SourcePos
place_behind b p =
    if b == 10
    then record { line = p.line + 1; column = 1 }
    else record { line = p.line; column = if is_continuation b then p.column else p.column + 1 }

-- Line and column behind a text.
unfoldable pub walk : SourcePos → Bytes → SourcePos
walk p [] = p
walk p (b ∷ bs) = walk (place_behind b p) bs

-- The token stands in the text, behind `before`: its positions are those of its first byte and of
-- the byte behind it, and it is not empty.
pub record StandsIn (source : Bytes) (t : Token) : Type 0 where
  pub before : Bytes
  pub first : ℕ
  pub more : Bytes
  pub after : Bytes
  pub split : source ≡ before ++ ((first ∷ more) ++ after)
  pub begins : t.pos ≡ walk (record { line = 1; column = 1 }) before
  pub ends_at : t.end ≡ walk t.pos (first ∷ more)

walk-append : (a : Bytes) (p : SourcePos) (b : Bytes) → walk p (a ++ b) ≡ walk (walk p a) b
unfolding walk
walk-append [] p b = refl
walk-append (x ∷ a) p b = walk-append a _ b

-- What lies between two cursors.
pub record Between (c d : Cursor) : Type 0 where
  pub text : Bytes
  pub split : c.rest ≡ text ++ d.rest
  pub place : start_of d ≡ walk (start_of c) text

behind-place :
    (b : ℕ) (bs : Bytes) (c : Cursor) → start_of (behind b bs c) ≡ walk (start_of c) (b ∷ [])
unfolding walk
behind-place b bs c = elim (Bool-cases (b == 10)) [ inl e ↦ rw e refl | inr e ↦ rw e refl ]

behind-rest : (b : ℕ) (bs : Bytes) (c : Cursor) → (behind b bs c).rest ≡ bs
behind-rest b bs c = elim (Bool-cases (b == 10)) [ inl e ↦ rw e refl | inr e ↦ rw e refl ]

advance_over-Between : (rest : Bytes) (c : Cursor) → c.rest ≡ rest → Between c (advance_over rest c)
unfolding walk
advance_over-Between [] c e = record { text = []; split = refl; place = refl }
advance_over-Between (b ∷ bs) c e = record {
  text = b ∷ [];
  split = e ∙ ap (λ r. b ∷ r) (sym (behind-rest b bs c));
  place = behind-place b bs c;
}

Between-trans : {a b c : Cursor} → Between a b → Between b c → Between a c
Between-trans {a = a} p q = record {
  text = p.text ++ q.text;
  split = p.split ∙ ap (λ r. p.text ++ r) q.split ∙ sym (append_assoc p.text q.text _);
  place = q.place ∙ ap (λ s. walk s q.text) p.place ∙ sym (walk-append p.text (start_of a) q.text);
}

pub Onward-Between : {c d : Cursor} → Onward c d → Between c d
unfolding advance walk
Onward-Between stays = record { text = []; split = refl; place = refl }
Onward-Between (moved {d = d} o) =
    Between-trans (Onward-Between o) (advance_over-Between d.rest d refl)

is_nonempty : (xs : Bytes) → 0 < length xs → (x : ℕ) × (more : Bytes) × (xs ≡ x ∷ more)
is_nonempty [] h = ground arith
is_nonempty (x ∷ xs) h = (x, xs, refl)

longer_text : (a r s : Bytes) → s ≡ a ++ r → length r < length s → 0 < length a
longer_text [] r s e h = ground (arith, ap length e)
longer_text (x ∷ a) r s e h = ground arith

Between-nonempty :
    {c d : Cursor} (b : Between c d) → length d.rest < length c.rest → 0 < length b.text
Between-nonempty {c = c} {d = d} b h = longer_text b.text d.rest c.rest b.split h

-- A token that the lexer makes stands in the source.
pub Lexed-StandsIn :
    (first start : Cursor) (t : Token) (d : Cursor)
    → start_of first ≡ record { line = 1; column = 1 }
    → Onward first start
    → Lexed start (t, d)
    → StandsIn first.rest t
Lexed-StandsIn first start t d one o l =
    let a = Onward-Between o in
    let b = Onward-Between l.further.onward in
    let (x, more, e) = is_nonempty b.text (Between-nonempty b l.further.shorter) in
    record {
      before = a.text;
      first = x;
      more = more;
      after = d.rest;
      split = a.split ∙ ap (λ r. a.text ++ r) (b.split ∙ ap (λ u. u ++ d.rest) e);
      begins = l.begins ∙ a.place ∙ ap (λ p. walk p a.text) one;
      ends_at = l.ends_at ∙ b.place ∙ (λ i. walk (sym l.begins i) (e i));
    }
