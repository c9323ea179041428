-- ===== src/Frontend/Lexer/Cursor.antt =====
-- frontend/Lexer.h and frontend/Lexer.cpp: where the lexer is in its source. `rest` is the source from `pos_`
-- on. Behind the end of the source stands a NUL, which `cur` and `peekChar` return.
use proto_scala.Common.{
  ℕ, zero, suc, ◌+◌, Bool, true, false, ◌==◌, if◌then◌else◌, [], ◌∷◌, get_or, Bytes,
}
use proto_scala.Frontend.Token.{SourcePos}
use proto_scala.Frontend.Lexer.Utf8.{is_continuation}

pub record Cursor : Type 0 where
  pub rest : Bytes
  pub pos : ℕ
  pub line : ℕ
  pub column : ℕ

abbrev pub is_empty : Bytes → Bool
is_empty [] = true
is_empty (b ∷ bs) = false

abbrev pub eof : Cursor → Bool
eof c = is_empty c.rest

abbrev pub peek_char : ℕ → Cursor → ℕ
peek_char k c = get_or c.rest k 0

abbrev pub cur : Cursor → ℕ
cur = peek_char 0

abbrev pub start_of : Cursor → SourcePos
start_of c = record { line = c.line; column = c.column }

-- The cursor behind one byte; a newline begins a line, and a continuation byte has no column.
abbrev pub behind : ℕ → Bytes → Cursor → Cursor
behind b bs c =
    if b == 10
    then record { rest = bs; pos = c.pos + 1; line = c.line + 1; column = 1 }
    else record {
      rest = bs;
      pos = c.pos + 1;
      line = c.line;
      column = if is_continuation b then c.column else c.column + 1;
    }

abbrev pub advance_over : Bytes → Cursor → Cursor
advance_over [] c = c
advance_over (b ∷ bs) c = behind b bs c

unfoldable pub advance : Cursor → Cursor
advance c = advance_over c.rest c

unfoldable pub advance_by : ℕ → Cursor → Cursor
unfolding advance
advance_by zero c = c
advance_by (suc n) c = advance_by n (advance c)

-- `while (!eof() && p) { text += cur(); advance(); }`, where `p` may look ahead.
unfoldable pub scanned : (Bytes → Bool) → Bytes → Cursor → Bytes × Cursor
unfolding advance
scanned p [] c = ([], c)
scanned p (b ∷ bs) c = elim (p (b ∷ bs)) [
  | false ↦ ([], c)
  | true ↦ let more = scanned p bs (advance c) in (b ∷ more.0, more.1)
]

abbrev pub scan_while : (Bytes → Bool) → Cursor → Bytes × Cursor
scan_while p c = scanned p c.rest c

-- A test of the current byte.
abbrev pub here : (ℕ → Bool) → Bytes → Bool
here p bs = p (get_or bs 0 0)

-- An early `return error(…)`: the message, where it is reported, and the cursor at that time.
pub record Failure : Type 0 where
  pub message : Bytes
  pub at : SourcePos
  pub at_eof : Bool
  pub cursor : Cursor

pub data Scan (A : Type 0) : Type 0 where
  fails : Failure → Scan A
  scans : A → Scan A

infixl 5 ◌>>=◌
abbrev pub ◌>>=◌ : {A B : Type 0} → Scan A → (A → Scan B) → Scan B
fails f >>= k = fails f
scans a >>= k = k a

abbrev pub failure : Bytes → SourcePos → Cursor → Failure
failure message at c = record { message = message; at = at; at_eof = false; cursor = c }
