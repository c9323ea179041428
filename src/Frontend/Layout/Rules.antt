-- ===== src/Frontend/Layout/Rules.antt =====
-- frontend/Layout.cpp: the tests on token kinds.
use proto_scala.Common.{Bool, true, false, ◌||◌, Bytes, codes}
use proto_scala.Frontend.Token.{
  TokenKind, kind_eq, int_lit, float_lit, char_lit, string_lit, interpolated_string, identifier,
  kw_this, kw_null, kw_true, kw_false, kw_return, kw_type, underscore, r_paren, r_bracket, r_brace,
  end_marker, outdent, kw_given, kw_catch, kw_else, kw_extends, kw_finally, kw_match, kw_with,
  kw_yield, kw_then, kw_do, comma, dot, semicolon, colon, colon_eol, equals, arrow, ctx_arrow,
  type_lambda_arrow, left_arrow, subtype, supertype, hash, l_bracket, end_of_file, kw_for, kw_if,
  kw_throw, kw_try, kw_while, kw_new, kw_val,
}

unfoldable pub can_end_statement : TokenKind → Bool
can_end_statement int_lit = true
can_end_statement float_lit = true
can_end_statement char_lit = true
can_end_statement string_lit = true
can_end_statement interpolated_string = true
can_end_statement identifier = true
can_end_statement kw_this = true
can_end_statement kw_null = true
can_end_statement kw_true = true
can_end_statement kw_false = true
can_end_statement kw_return = true
can_end_statement kw_type = true
can_end_statement underscore = true
can_end_statement r_paren = true
can_end_statement r_bracket = true
can_end_statement r_brace = true
can_end_statement end_marker = true
can_end_statement outdent = true
can_end_statement kw_given = true
can_end_statement _ = false

unfoldable pub can_begin_statement : TokenKind → Bool
can_begin_statement kw_catch = false
can_begin_statement kw_else = false
can_begin_statement kw_extends = false
can_begin_statement kw_finally = false
can_begin_statement kw_match = false
can_begin_statement kw_with = false
can_begin_statement kw_yield = false
can_begin_statement kw_then = false
can_begin_statement kw_do = false
can_begin_statement comma = false
can_begin_statement dot = false
can_begin_statement semicolon = false
can_begin_statement colon = false
can_begin_statement colon_eol = false
can_begin_statement equals = false
can_begin_statement arrow = false
can_begin_statement ctx_arrow = false
can_begin_statement type_lambda_arrow = false
can_begin_statement left_arrow = false
can_begin_statement subtype = false
can_begin_statement supertype = false
can_begin_statement hash = false
can_begin_statement l_bracket = false
can_begin_statement r_paren = false
can_begin_statement r_bracket = false
can_begin_statement r_brace = false
can_begin_statement end_of_file = false
can_begin_statement _ = true

unfoldable pub opens_region : TokenKind → Bool
opens_region equals = true
opens_region arrow = true
opens_region ctx_arrow = true
opens_region left_arrow = true
opens_region kw_catch = true
opens_region kw_do = true
opens_region kw_else = true
opens_region kw_finally = true
opens_region kw_for = true
opens_region kw_if = true
opens_region kw_match = true
opens_region kw_return = true
opens_region kw_then = true
opens_region kw_throw = true
opens_region kw_try = true
opens_region kw_while = true
opens_region kw_yield = true
opens_region kw_with = true
opens_region colon_eol = true
opens_region _ = false

unfoldable pub continues_statement : TokenKind → Bool
continues_statement kw_then = true
continues_statement kw_else = true
continues_statement kw_do = true
continues_statement kw_catch = true
continues_statement kw_finally = true
continues_statement kw_yield = true
continues_statement kw_match = true
continues_statement _ = false

-- Whether the closer is the partner of the opener.
unfoldable pub closes_region_opened_by : TokenKind → TokenKind → Bool
unfolding kind_eq
closes_region_opened_by kw_then opener = kind_eq opener kw_if || kind_eq opener r_paren
closes_region_opened_by kw_else opener = kind_eq opener kw_then || kind_eq opener r_paren
closes_region_opened_by kw_do opener =
    kind_eq opener kw_while || kind_eq opener kw_for || kind_eq opener r_paren
closes_region_opened_by kw_yield opener =
    kind_eq opener kw_for || kind_eq opener r_paren || kind_eq opener r_brace
closes_region_opened_by kw_catch opener = kind_eq opener kw_try
closes_region_opened_by kw_finally opener = kind_eq opener kw_try || kind_eq opener kw_catch
closes_region_opened_by _ opener = false

unfoldable pub is_closer : TokenKind → Bool
is_closer r_paren = true
is_closer r_bracket = true
is_closer r_brace = true
is_closer _ = false

unfoldable pub is_end_designator : TokenKind → Bool
is_end_designator identifier = true
is_end_designator kw_if = true
is_end_designator kw_while = true
is_end_designator kw_for = true
is_end_designator kw_match = true
is_end_designator kw_try = true
is_end_designator kw_new = true
is_end_designator kw_this = true
is_end_designator kw_val = true
is_end_designator kw_given = true
is_end_designator _ = false

unfoldable pub is_condition_keyword : TokenKind → Bool
is_condition_keyword kw_if = true
is_condition_keyword kw_while = true
is_condition_keyword kw_for = true
is_condition_keyword _ = false

unfoldable pub token_kind_spelling : TokenKind → Bytes
token_kind_spelling kw_then = codes "then"
token_kind_spelling kw_else = codes "else"
token_kind_spelling kw_do = codes "do"
token_kind_spelling kw_catch = codes "catch"
token_kind_spelling kw_finally = codes "finally"
token_kind_spelling kw_yield = codes "yield"
token_kind_spelling kw_match = codes "match"
token_kind_spelling _ = codes "?"
