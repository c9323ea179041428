-- ===== src/Frontend/Lexer/Chars.antt =====
-- frontend/Lexer.cpp: classes of bytes, keywords and reserved operators. `isalnum`, `isdigit` and
-- `isxdigit` are those of the C locale.
use proto_scala.Common.{
  ℕ, Bool, false, ◌&&◌, ◌||◌, ltb, leb, ◌==◌, if◌then◌else◌, List, [], ◌∷◌, Option, none, some,
  Bytes, codes, bytes_eq, is_alpha,
}
use proto_scala.Frontend.Token.{
  TokenKind, kw_abstract, kw_case, kw_catch, kw_class, kw_def, kw_do, kw_else, kw_enum, kw_export,
  kw_extends, kw_false, kw_final, kw_finally, kw_for, kw_given, kw_if, kw_implicit, kw_import,
  kw_lazy, kw_match, kw_new, kw_null, kw_object, kw_override, kw_package, kw_private, kw_protected,
  kw_return, kw_sealed, kw_super, kw_then, kw_this, kw_throw, kw_trait, kw_true, kw_try, kw_type,
  kw_val, kw_var, kw_while, kw_with, kw_yield, equals, arrow, ctx_arrow, type_lambda_arrow,
  left_arrow, subtype, supertype, hash, at, colon, identifier,
}
use proto_scala.Frontend.Lexer.Letters.{is_symbol_letter}
use proto_scala.Frontend.Lexer.Utf8.{decode_utf8}

abbrev pub is_digit : ℕ → Bool
is_digit c = leb 48 c && leb c 57

abbrev pub is_xdigit : ℕ → Bool
is_xdigit c = is_digit c || (leb 65 c && leb c 70) || (leb 97 c && leb c 102)

-- `strchr`
abbrev pub holds_char : ℕ → Bytes → Bool
holds_char c [] = false
holds_char c (b ∷ bs) = c == b || holds_char c bs

-- `!#%&*+-/:<=>?@`, the backslash, `^|~`
abbrev pub op_chars : Bytes
op_chars =
    33 ∷ 35 ∷ 37 ∷ 38 ∷ 42 ∷ 43 ∷ 45 ∷ 47 ∷ 58 ∷ 60 ∷ 61 ∷ 62 ∷ 63 ∷ 64 ∷ 92 ∷ 94 ∷ 124 ∷ 126 ∷ []

unfoldable pub is_op_char : ℕ → Bool
is_op_char c = holds_char c op_chars

unfoldable pub is_ident_code_point : ℕ → Bool
unfolding is_symbol_letter
is_ident_code_point cp =
    if ltb cp 0x80 then is_alpha cp || is_digit cp || cp == 95 || cp == 36 else is_symbol_letter cp

abbrev pub ident_length : Option (ℕ × ℕ) → ℕ
ident_length none = 0
ident_length (some (len, cp)) = if is_ident_code_point cp then len else 0

-- The bytes of the identifier character that the text begins with, 0 when it begins with none.
unfoldable pub ident_char_length : Bytes → ℕ
unfolding is_ident_code_point decode_utf8
ident_char_length [] = 0
ident_char_length (c ∷ cs) =
    if ltb c 0x80
    then (if is_ident_code_point c then 1 else 0)
    else ident_length (decode_utf8 (c ∷ cs))

unfoldable pub keywords : List (Bytes × TokenKind)
keywords =
    (codes "abstract", kw_abstract)
    ∷ (codes "case", kw_case)
    ∷ (codes "catch", kw_catch)
    ∷ (codes "class", kw_class)
    ∷ (codes "def", kw_def)
    ∷ (codes "do", kw_do)
    ∷ (codes "else", kw_else)
    ∷ (codes "enum", kw_enum)
    ∷ (codes "export", kw_export)
    ∷ (codes "extends", kw_extends)
    ∷ (codes "false", kw_false)
    ∷ (codes "final", kw_final)
    ∷ (codes "finally", kw_finally)
    ∷ (codes "for", kw_for)
    ∷ (codes "given", kw_given)
    ∷ (codes "if", kw_if)
    ∷ (codes "implicit", kw_implicit)
    ∷ (codes "import", kw_import)
    ∷ (codes "lazy", kw_lazy)
    ∷ (codes "match", kw_match)
    ∷ (codes "new", kw_new)
    ∷ (codes "null", kw_null)
    ∷ (codes "object", kw_object)
    ∷ (codes "override", kw_override)
    ∷ (codes "package", kw_package)
    ∷ (codes "private", kw_private)
    ∷ (codes "protected", kw_protected)
    ∷ (codes "return", kw_return)
    ∷ (codes "sealed", kw_sealed)
    ∷ (codes "super", kw_super)
    ∷ (codes "then", kw_then)
    ∷ (codes "this", kw_this)
    ∷ (codes "throw", kw_throw)
    ∷ (codes "trait", kw_trait)
    ∷ (codes "true", kw_true)
    ∷ (codes "try", kw_try)
    ∷ (codes "type", kw_type)
    ∷ (codes "val", kw_val)
    ∷ (codes "var", kw_var)
    ∷ (codes "while", kw_while)
    ∷ (codes "with", kw_with)
    ∷ (codes "yield", kw_yield)
    ∷ []

abbrev pub find_keyword : Bytes → List (Bytes × TokenKind) → Option TokenKind
find_keyword text [] = none
find_keyword text ((word, k) ∷ table) =
    if bytes_eq word text then some k else find_keyword text table

unfoldable pub keyword_of : Bytes → Option TokenKind
unfolding keywords bytes_eq
keyword_of text = find_keyword text keywords

unfoldable pub reserved_operator : Bytes → TokenKind
unfolding bytes_eq
reserved_operator op =
    if bytes_eq op (codes "=")
    then equals
    else if bytes_eq op (codes "=>")
    then arrow
    else if bytes_eq op (codes "?=>")
    then ctx_arrow
    else if bytes_eq op (codes "=>>")
    then type_lambda_arrow
    else if bytes_eq op (codes "<-")
    then left_arrow
    else if bytes_eq op (codes "<:")
    then subtype
    else if bytes_eq op (codes ">:")
    then supertype
    else if bytes_eq op (codes "#")
    then hash
    else if bytes_eq op (codes "@")
    then at
    else if bytes_eq op (codes ":")
    then colon
    else identifier
