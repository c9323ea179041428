-- ===== src/Frontend/Parser/Operators.antt =====
-- frontend/Parser.cpp: the precedence and the associativity of an operator. `op.front()` of an empty name
-- is left undefined there; it has the highest precedence here.
use proto_scala.Common.{
  ℕ, Bool, false, not, ◌&&◌, ◌||◌, leb, ◌==◌, if◌then◌else◌, [], ◌∷◌, length, Bytes, codes,
  bytes_eq, is_alpha,
}

-- `isLetterStart`
abbrev pub is_letter_start : ℕ → Bool
is_letter_start c = is_alpha c || (c == 95 || (c == 36 || leb 128 c))

abbrev pub is_digit : ℕ → Bool
is_digit c = leb 48 c && leb c 57

unfoldable pub has_word_char : Bytes → Bool
has_word_char [] = false
has_word_char (c ∷ cs) = is_letter_start c || (is_digit c || has_word_char cs)

-- `op.back() == c`
unfoldable pub ends_in : ℕ → Bytes → Bool
ends_in c [] = false
ends_in c (b ∷ []) = b == c
ends_in c (b ∷ d ∷ ds) = ends_in c (d ∷ ds)

abbrev pub begins_in : ℕ → Bytes → Bool
begins_in c [] = false
begins_in c (b ∷ bs) = b == c

abbrev pub is_comparison : Bytes → Bool
is_comparison op =
    bytes_eq op (codes "<=") || (bytes_eq op (codes ">=") || bytes_eq op (codes "!="))

-- `isAssignmentOperator`
unfoldable pub is_assignment_operator : Bytes → Bool
unfolding has_word_char ends_in
is_assignment_operator op =
    leb 2 (length op)
    && (ends_in 61 op
        && (not (begins_in 61 op) && (not (is_comparison op) && not (has_word_char op))))

-- `isRightAssociative`
unfoldable pub is_right_associative : Bytes → Bool
unfolding ends_in
is_right_associative op = ends_in 58 op

unfoldable pub first_char_precedence : ℕ → ℕ
first_char_precedence c =
    if is_letter_start c
    then 1
    else if c == 124
    then 2
    else if c == 94
    then 3
    else if c == 38
    then 4
    else if c == 61 || c == 33
    then 5
    else if c == 60 || c == 62
    then 6
    else if c == 58
    then 7
    else if c == 43 || c == 45
    then 8
    else if c == 42 || (c == 47 || c == 37)
    then 9
    else 10

abbrev pub precedence_of_first : Bytes → ℕ
precedence_of_first [] = 10
precedence_of_first (c ∷ cs) = first_char_precedence c

-- `precedence`
unfoldable pub precedence : Bytes → ℕ
unfolding is_assignment_operator first_char_precedence
precedence op = if is_assignment_operator op then 0 else precedence_of_first op
