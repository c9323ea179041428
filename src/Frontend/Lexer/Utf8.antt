-- ===== src/Frontend/Lexer/Utf8.antt =====
-- frontend/Lexer.cpp: `decodeUtf8` and `appendUtf8`. A bit mask of a byte or of a code point stands
-- as a quotient and a remainder.
use proto_scala.Common.{
  ℕ, zero, suc, ◌+◌, ◌-◌, ◌*◌, ◌/◌, ◌%◌, ◌^◌, Bool, ◌||◌, ◌&&◌, ltb, leb, ◌==◌, if◌then◌else◌, [],
  ◌∷◌, ◌++◌, Option, none, some, length, Bytes,
}

-- What a lead byte says: the length of the sequence, its bits of the code point, and the least
-- code point that needs this length.
pub record Lead : Type 0 where
  pub len : ℕ
  pub value : ℕ
  pub minimum : ℕ

-- `(b0 & 0xE0) == 0xC0`, `(b0 & 0xF0) == 0xE0` and `(b0 & 0xF8) == 0xF0`.
unfoldable pub lead_of : ℕ → Option Lead
lead_of b0 =
    if b0 / 32 == 6
    then some (record { len = 2; value = b0 % 32; minimum = 0x80 })
    else if b0 / 16 == 14
    then some (record { len = 3; value = b0 % 16; minimum = 0x800 })
    else if b0 / 8 == 30
    then some (record { len = 4; value = b0 % 8; minimum = 0x10000 })
    else none

-- `(b & 0xC0) == 0x80`
abbrev pub is_continuation : ℕ → Bool
is_continuation b = b / 64 == 2

-- The loop over the bytes behind the lead byte.
unfoldable pub continue_utf8 : ℕ → ℕ → Bytes → Option ℕ
continue_utf8 zero value bs = some value
continue_utf8 (suc n) value [] = none
continue_utf8 (suc n) value (b ∷ bs) =
    if is_continuation b then continue_utf8 n (value * 2 ^ 6 + b % 64) bs else none

abbrev pub is_ill_formed : ℕ → ℕ → Bool
is_ill_formed minimum value =
    ltb value minimum || ltb 0x10FFFF value || (leb 0xD800 value && leb value 0xDFFF)

abbrev pub checked : Lead → ℕ → Option (ℕ × ℕ)
checked l value = if is_ill_formed l.minimum value then none else some (l.len, value)

abbrev pub decode_rest : Bytes → Bytes → Lead → Option (ℕ × ℕ)
decode_rest s behind l =
    if ltb (length s) l.len
    then none
    else elim (continue_utf8 (l.len - 1) l.value behind) [ none ↦ none | some v ↦ checked l v ]

-- The length and the code point of the sequence that the text begins with; `none` is the
-- source's 0. Behind the end of a `std::string` stands a NUL.
unfoldable pub decode_utf8 : Bytes → Option (ℕ × ℕ)
unfolding lead_of continue_utf8
decode_utf8 [] = some (1, 0)
decode_utf8 (b0 ∷ bs) =
    if ltb b0 0x80
    then some (1, b0)
    else elim (lead_of b0) [ none ↦ none | some l ↦ decode_rest (b0 ∷ bs) bs l ]

-- The bytes that `appendUtf8` appends, for a code point below 2 ^ 21.
unfoldable pub utf8 : ℕ → Bytes
utf8 cp =
    if ltb cp 0x80
    then cp ∷ []
    else if ltb cp 0x800
    then (0xC0 + cp / 2 ^ 6) ∷ (0x80 + cp % 64) ∷ []
    else if ltb cp 0x10000
    then (0xE0 + cp / 2 ^ 12) ∷ (0x80 + cp / 2 ^ 6 % 64) ∷ (0x80 + cp % 64) ∷ []
    else (0xF0 + cp / 2 ^ 18)
      ∷ (0x80 + cp / 2 ^ 12 % 64)
      ∷ (0x80 + cp / 2 ^ 6 % 64)
      ∷ (0x80 + cp % 64)
      ∷ []

abbrev pub append_utf8 : Bytes → ℕ → Bytes
append_utf8 out cp = out ++ utf8 cp
