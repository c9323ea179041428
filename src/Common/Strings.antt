-- ===== src/Common/Strings.antt =====
-- Strings of the source, `std::string`, as lists of byte values.
use Prim.Native.Nat.{ℕ, zero, suc, ◌+◌, ◌-◌, ◌/◌, ◌%◌, ◌^◌, compare, Ordering}
use Prim.Native.Char.{code}
use Prim.Native.String.{String}
use mathlib.Core.Path.{◌≡◌}
use mathlib.Core.Logic.{◌↔◌}
use mathlib.Core.Bool.{Bool, true, false, ◌&&◌}
use mathlib.Core.List.{List, [], ◌∷◌, ◌++◌}
use native.Mathlib.Omega.{arith}
use mathlib.Core.Bool.{◌||◌}
use proto_scala.Common.Tests.{leb, ltb, if◌then◌else◌}
use proto_scala.Common.Lists.{length, take}

abbrev pub Bytes : Type 0
Bytes = List ℕ

-- The bytes of an ASCII literal.
abbrev pub codes : String → Bytes
codes String.[] = []
codes (String.◌∷◌ c s) = code c ∷ codes s

-- `operator==` of two strings.
unfoldable pub bytes_eq : Bytes → Bytes → Bool
bytes_eq [] [] = true
bytes_eq (x ∷ xs) (y ∷ ys) = elim (compare x y) [ Ordering.eq ↦ true | _ ↦ false ] && bytes_eq xs ys
bytes_eq _ _ = false

pub bytes_eq_iff : (a b : Bytes) → (bytes_eq a b ≡ true) ↔ (a ≡ b)
unfolding bytes_eq
bytes_eq_iff (x ∷ a) (y ∷ b) = ground (arith, bytes_eq_iff a b)
bytes_eq_iff _ _ = ground arith

-- `s.compare(0, word.size(), word) == 0`
abbrev pub begins_with : Bytes → Bytes → Bool
begins_with word s = bytes_eq (take (length word) s) word

-- `isalpha` of the C locale
abbrev pub is_alpha : ℕ → Bool
is_alpha c = (leb 65 c && leb c 90) || (leb 97 c && leb c 122)

-- `std::to_string` of an unsigned number; the fuel is more than the count of its digits.
abbrev pub decimal_with : ℕ → ℕ → Bytes
decimal_with zero n = []
decimal_with (suc f) n =
    let front = decimal_with f (n / 10) in
    if ltb n 10 then (48 + n) ∷ [] else front ++ (48 + n % 10) ∷ []

abbrev pub to_string : ℕ → Bytes
to_string n = decimal_with (suc n) n

-- `std::to_string` of a `long long`, given as its 64-bit pattern.
abbrev pub to_string_signed : ℕ → Bytes
to_string_signed n = if ltb n (2 ^ 63) then to_string n else codes "-" ++ to_string (2 ^ 64 - n)
