-- ===== src/Frontend/Lexer/Holes.antt =====
-- frontend/Lexer.cpp: the holes of an interpolated string, `${…}` and `$name`.
use proto_scala.Common.{
  ℕ, zero, suc, ◌+◌, ◌-◌, ◌&&◌, ◌||◌, leb, ◌==◌, if◌then◌else◌, ◌⊎◌, inl, inr, [], ◌∷◌, ◌++◌,
  Option, some, ◌>>=?◌, length, take, loop, Bytes, codes,
}
use proto_scala.Frontend.Token.{SourcePos}
use proto_scala.Frontend.Lexer.Chars.{ident_char_length}
use proto_scala.Frontend.Lexer.Cursor.{
  Cursor, eof, cur, peek_char, advance, advance_by, scanned, scan_while, here, Failure, Scan, fails,
  scans, failure,
}
use proto_scala.Frontend.Lexer.Quoted.{is_quote, unclosed_multi_line}

-- A text taken from the source, and the cursor behind it.
abbrev pub Taken : Type 0
Taken = Bytes × Cursor

-- `text += cur(); advance();`
abbrev pub take_char : Taken → Taken
take_char (text, c) = (text ++ cur c ∷ [], advance c)

-- The same, unless at the end of the source.
abbrev pub take_if_any : Taken → Taken
take_if_any t = if eof t.1 then t else take_char t

abbrev pub behind_quotes : Bytes → Bytes × Cursor → Taken ⊎ Scan Taken
behind_quotes text (run, c) =
    if leb 3 (length run) then inr (scans (text ++ run, c)) else inl (text ++ run, c)

-- One turn in a triple-quoted string in a hole.
abbrev pub nested_triple_body : SourcePos → Taken → Option (Taken ⊎ Scan Taken)
nested_triple_body start (text, c) =
    if eof c
    then some (inr (fails (unclosed_multi_line start c)))
    else if cur c == 34
    then some (behind_quotes text (scan_while (here is_quote) c))
    else some (inl (take_char (text, c)))

-- One turn in a string in a hole.
abbrev pub nested_body : SourcePos → Taken → Option (Taken ⊎ Scan Taken)
nested_body start (text, c) =
    if eof c || cur c == 10
    then some (inr (fails (failure (codes "unclosed string literal") start c)))
    else if cur c == 34
    then some (inr (scans (take_char (text, c))))
    else if cur c == 92
    then some (inl (take_if_any (take_char (text, c))))
    else some (inl (take_char (text, c)))

-- A string in a hole, whose opening quote is at the cursor.
unfoldable pub nested_string : SourcePos → Taken → Option (Scan Taken)
unfolding loop scanned advance
nested_string start (text, c) =
    let t = take_char (text, c) in
    let inner = take_char (take_char t) in
    if peek_char 1 c == 34 && peek_char 2 c == 34
    then loop (nested_triple_body start) (suc (length inner.1.rest)) inner
    else loop (nested_body start) (suc (length t.1.rest)) t

-- `depth`, and the hole's text.
abbrev pub Hole : Type 0
Hole = ℕ × Taken

abbrev pub close_brace : ℕ → Taken → Hole ⊎ Scan Taken
close_brace depth (text, c) =
    if leb depth 1 then inr (scans (text, advance c)) else inl (depth - 1, take_char (text, c))

abbrev pub in_hole : ℕ → Scan Taken → Hole ⊎ Scan Taken
in_hole depth (fails f) = inr (fails f)
in_hole depth (scans t) = inl (depth, t)

-- One turn between the braces; `unclosed` is the failure at the end of the source.
abbrev pub hole_body : SourcePos → (Cursor → Failure) → Hole → Option (Hole ⊎ Scan Taken)
hole_body start unclosed (depth, (text, c)) =
    if eof c
    then some (inr (fails (unclosed c)))
    else if cur c == 123
    then some (inl (depth + 1, take_char (text, c)))
    else if cur c == 125
    then some (close_brace depth (text, c))
    else if cur c == 34
    then nested_string start (text, c) >>=? (λ s. some (in_hole depth s))
    else some (inl (depth, take_char (text, c)))

-- The text of a hole, from behind its opening brace.
unfoldable pub hole : SourcePos → (Cursor → Failure) → Cursor → Option (Scan Taken)
unfolding loop nested_string
hole start unclosed c = loop (hole_body start unclosed) (suc (length c.rest)) (1, ([], c))

-- `$name` stops at the next `$`.
unfoldable pub hole_char_length : Bytes → ℕ
hole_char_length [] = 0
hole_char_length (b ∷ bs) = if b == 36 then 0 else ident_char_length (b ∷ bs)

abbrev pub name_by : ℕ → Taken → Taken ⊎ Taken
name_by zero t = inr t
name_by (suc n) (text, c) = inl (text ++ take (suc n) c.rest, advance_by (suc n) c)

abbrev pub name_body : Taken → Option (Taken ⊎ Taken)
name_body t = some (name_by (hole_char_length t.1.rest) t)

unfoldable pub hole_name : Cursor → Option Taken
unfolding loop hole_char_length ident_char_length advance_by
hole_name c = loop name_body (suc (length c.rest)) ([], c)
