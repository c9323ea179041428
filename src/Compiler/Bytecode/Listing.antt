-- ===== src/Compiler/Bytecode/Listing.antt =====
-- compiler/BytecodeModule.cpp: `escapeString`, which the listing of a module writes strings with, and the
-- lexer (frontend/Lexer.cpp), which reads them back.
use proto_scala.Common.{
  ℕ, zero, suc, ◌≡◌, refl, sym, ap, ◌∙◌, subst, ◌<◌, true, false, ◌==◌, if◌then◌else◌, if-holds,
  Bool-cases, inl, inr, [], ◌∷◌, ◌++◌, append_assoc, append-nil, Option, some, get_or, length,
  length-append, ◌≤◌, loop, loop-step, loop-end, Bytes, arith,
}
use proto_scala.Frontend.Token.{SourcePos}
use proto_scala.Frontend.Lexer.Cursor.{Cursor, cur, start_of, advance, Scan, scans}
use proto_scala.Frontend.Lexer.Quoted.{
  simple_escape, escape_by, read_escape, go_on, string_body, is_triple, string_text,
}

abbrev pub escape_char : ℕ → Bytes
escape_char ch =
    if ch == 34
    then 92 ∷ 34 ∷ []
    else if ch == 92
    then 92 ∷ 92 ∷ []
    else if ch == 10
    then 92 ∷ 110 ∷ []
    else if ch == 9
    then 92 ∷ 116 ∷ []
    else if ch == 13
    then 92 ∷ 114 ∷ []
    else ch ∷ []

unfoldable pub escape_body : Bytes → Bytes
escape_body [] = []
escape_body (ch ∷ s) = escape_char ch ++ escape_body s

unfoldable pub escape_string : Bytes → Bytes
unfolding escape_body
escape_string s = 34 ∷ (escape_body s ++ 34 ∷ [])

advance-rest : (b : ℕ) (bs : Bytes) (c : Cursor) → c.rest ≡ b ∷ bs → (advance c).rest ≡ bs
unfolding advance
advance-rest b bs c h =
    rw h (if-holds (λ (d : Cursor). d.rest ≡ bs) (b == 10) (λ e. refl) (λ e. refl))

-- The cursor and the value behind one turn of the string's loop.
record Stepped (at : SourcePos) (value : Bytes) (ch : ℕ) (c : Cursor) (tail : Bytes) : Type 0 where
  next : Cursor
  turn : string_body at (value, c) ≡ some (inl (value ++ ch ∷ [], next))
  rest : next.rest ≡ tail

backslash_turn :
    (at : SourcePos) (value : Bytes) (c : Cursor) (tail : Bytes)
    → c.rest ≡ 92 ∷ tail
    → string_body at (value, c) ≡ some (go_on (read_escape (start_of c) value (advance c)))
backslash_turn at value c tail h = rw h refl

simple_escape_lem :
    (at : SourcePos) (out : Bytes) (d : Cursor) (b : ℕ)
    → simple_escape (cur d) ≡ some b
    → read_escape at out d ≡ scans (out ++ b ∷ [], advance d)
unfolding read_escape
simple_escape_lem at out d b s = ap (λ o. escape_by o at out d) s

escaped_step :
    (at : SourcePos) (value : Bytes) (e b : ℕ) (c : Cursor) (tail : Bytes)
    → simple_escape e ≡ some b
    → c.rest ≡ 92 ∷ (e ∷ tail)
    → Stepped at value b c tail
escaped_step at value e b c tail s h =
    let one = advance-rest 92 (e ∷ tail) c h in
    let here_now : cur (advance c) ≡ e = ap (λ r. get_or r 0 0) one in
    record {
      next = advance (advance c);
      turn =
          backslash_turn at value c (e ∷ tail) h
          ∙ ap (λ r. some (go_on r))
              (simple_escape_lem (start_of c) value (advance c) b (ap simple_escape here_now ∙ s));
      rest = advance-rest e tail (advance c) one;
    }

plain_step :
    (at : SourcePos) (value : Bytes) (ch : ℕ) (c : Cursor) (tail : Bytes)
    → (ch == 34) ≡ false
    → (ch == 92) ≡ false
    → (ch == 10) ≡ false
    → c.rest ≡ ch ∷ tail
    → Stepped at value ch c tail
plain_step at value ch c tail q b n h = record {
  next = advance c;
  turn = rw (h, q, b, n) refl;
  rest = advance-rest ch tail c h;
}

is_char : (ch n : ℕ) → (ch == n) ≡ true → ch ≡ n
is_char ch n h = ground arith

char_step :
    (at : SourcePos) (value : Bytes) (ch : ℕ) (c : Cursor) (tail : Bytes)
    → c.rest ≡ escape_char ch ++ tail
    → Stepped at value ch c tail
char_step at value ch c tail h =
    let to : (n : ℕ) → (ch == n) ≡ true → Stepped at value n c tail → Stepped at value ch c tail =
      λ n e s. subst (λ x. Stepped at value x c tail) (sym (is_char ch n e)) s in
    let at_char : (n : ℕ) → (ch == n) ≡ true → c.rest ≡ escape_char n ++ tail =
      λ n e. h ∙ ap (λ x. escape_char x ++ tail) (is_char ch n e) in
    elim (Bool-cases (ch == 34)) [
      | inl e ↦ to 34 e (escaped_step at value 34 34 c tail refl (at_char 34 e))
      | inr q ↦ elim (Bool-cases (ch == 92)) [
        | inl e ↦ to 92 e (escaped_step at value 92 92 c tail refl (at_char 92 e))
        | inr b ↦ elim (Bool-cases (ch == 10)) [
          | inl e ↦ to 10 e (escaped_step at value 110 10 c tail refl (at_char 10 e))
          | inr n ↦ elim (Bool-cases (ch == 9)) [
            | inl e ↦ to 9 e (escaped_step at value 116 9 c tail refl (at_char 9 e))
            | inr t ↦ elim (Bool-cases (ch == 13)) [
              | inl e ↦ to 13 e (escaped_step at value 114 13 c tail refl (at_char 13 e))
              | inr r ↦ plain_step at value ch c tail q b n (rw (q, b, n, t, r) at h)
            ]
          ]
        ]
      ]
    ]

-- What the loop over a string returns for an escaped text with its closing quote.
record Reads (o : Option (Scan (Bytes × Cursor))) (s rest : Bytes) : Type 0 where
  end : Cursor
  value : o ≡ some (scans (s, end))
  behind_it : end.rest ≡ rest

quote_turn :
    (at : SourcePos) (value : Bytes) (c : Cursor) (rest : Bytes)
    → c.rest ≡ 34 ∷ rest
    → string_body at (value, c) ≡ some (inr (scans (value, advance c)))
quote_turn at value c rest h = rw h refl

loop-Reads :
    (at : SourcePos) (s rest value : Bytes) (f : ℕ) (c : Cursor)
    → c.rest ≡ escape_body s ++ (34 ∷ rest)
    → length s < f
    → Reads (loop (string_body at) f (value, c)) (value ++ s) rest
unfolding escape_body
loop-Reads at s rest value zero c h lt = ground arith
loop-Reads at [] rest value (suc f) c h lt = record {
  end = advance c;
  value =
      loop-end (string_body at) f (value, c) (quote_turn at value c rest h)
      ∙ ap (λ v. some (scans (v, advance c))) (sym (append-nil value));
  behind_it = advance-rest 34 rest c h;
}
loop-Reads at (ch ∷ s) rest value (suc f) c h lt =
    let step =
      char_step at value ch c (escape_body s ++ (34 ∷ rest))
        (h ∙ append_assoc (escape_char ch) (escape_body s) (34 ∷ rest)) in
    let more = loop-Reads at s rest (value ++ ch ∷ []) f step.next step.rest (ground arith) in
    record {
      end = more.end;
      value =
          loop-step (string_body at) f (value, c) step.turn
          ∙ more.value
          ∙ ap (λ v. some (scans (v, more.end))) (append_assoc value (ch ∷ []) s);
      behind_it = more.behind_it;
    }

escape_char-longer : (ch : ℕ) → 1 ≤ length (escape_char ch)
escape_char-longer ch = ground arith

escape_body-longer : (s : Bytes) → length s ≤ length (escape_body s)
unfolding escape_body
escape_body-longer [] = ground arith
escape_body-longer (ch ∷ s) = ground (
  arith,
  escape_body-longer s,
  escape_char-longer ch,
  length-append (escape_char ch) (escape_body s),
)

-- Where a nonempty text is escaped, no quote is at its beginning.
escape_body-unquoted :
    (ch : ℕ) (s tail : Bytes) → (get_or (escape_body (ch ∷ s) ++ tail) 0 0 == 34) ≡ false
unfolding escape_body
escape_body-unquoted ch s tail = ground arith

not_triple :
    (s rest : Bytes) (c : Cursor)
    → c.rest ≡ escape_body s ++ (34 ∷ rest)
    → (get_or rest 0 0 == 34) ≡ false
    → is_triple c ≡ false
unfolding escape_body
not_triple [] rest c h q = rw (h, q) refl
not_triple (ch ∷ s) rest c h q = rw (h, escape_body-unquoted ch s (34 ∷ rest)) refl

escaped-fuel :
    (s rest : Bytes) (c : Cursor)
    → c.rest ≡ escape_body s ++ (34 ∷ rest)
    → length s < suc (length c.rest)
escaped-fuel s rest c h =
    rw h (ground (arith, escape_body-longer s, length-append (escape_body s) (34 ∷ rest)))

-- Behind the opening quote of a string that the listing writes, the lexer reads the string back and
-- stands behind its closing quote, when no quote stands directly behind that one.
pub string_text-escape_body :
    (at : SourcePos) (s rest : Bytes) (c : Cursor)
    → c.rest ≡ escape_body s ++ (34 ∷ rest)
    → (get_or rest 0 0 == 34) ≡ false
    → (end : Cursor) × (string_text at c ≡ some (scans (s, end))) × (end.rest ≡ rest)
unfolding string_text
string_text-escape_body at s rest c h q =
    let r = loop-Reads at s rest [] (suc (length c.rest)) c h (escaped-fuel s rest c h) in
    (r.end, rw (not_triple s rest c h q, string_text) r.value, r.behind_it)
