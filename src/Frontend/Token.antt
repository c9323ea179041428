-- ===== src/Frontend/Token.antt =====
-- frontend/Token.h and the names of the kinds (frontend/Lexer.cpp): one lexical element of the
-- source. A column or a line is a native number (they start at 1); `float_value` is the bit
-- pattern of the double.
use proto_scala.Common.{
  ℕ, ◌≡◌, refl, ◌↔◌, Bool, true, false, ◌==◌, if◌then◌else◌, ==_iff, List, [], ◌∷◌, Option, none,
  some, get_elem?, Bytes, codes, bytes_eq,
}

pub data TokenKind : Type 0 where
  int_lit float_lit char_lit string_lit interpolated_string identifier kw_abstract kw_case :
      TokenKind
  kw_catch kw_class kw_def kw_do kw_else kw_enum kw_export kw_extends kw_false kw_final : TokenKind
  kw_finally kw_for kw_given kw_if kw_implicit kw_import kw_lazy kw_match kw_new kw_null : TokenKind
  kw_object kw_override kw_package kw_private kw_protected kw_return kw_sealed kw_super : TokenKind
  kw_then kw_this kw_throw kw_trait kw_true kw_try kw_type kw_val kw_var kw_while kw_with :
      TokenKind
  kw_yield l_paren r_paren l_bracket r_bracket l_brace r_brace comma semicolon dot colon : TokenKind
  equals arrow ctx_arrow type_lambda_arrow left_arrow subtype supertype hash at underscore :
      TokenKind
  colon_eol newline indent outdent end_marker end_of_file error : TokenKind

-- Every kind, in the order of the enumeration.
abbrev pub all_kinds : List TokenKind
all_kinds =
    int_lit ∷ float_lit ∷ char_lit ∷ string_lit ∷ interpolated_string ∷ identifier ∷ kw_abstract
    ∷ kw_case ∷ kw_catch ∷ kw_class ∷ kw_def ∷ kw_do ∷ kw_else ∷ kw_enum ∷ kw_export ∷ kw_extends
    ∷ kw_false ∷ kw_final ∷ kw_finally ∷ kw_for ∷ kw_given ∷ kw_if ∷ kw_implicit ∷ kw_import
    ∷ kw_lazy ∷ kw_match ∷ kw_new ∷ kw_null ∷ kw_object ∷ kw_override ∷ kw_package ∷ kw_private
    ∷ kw_protected ∷ kw_return ∷ kw_sealed ∷ kw_super ∷ kw_then ∷ kw_this ∷ kw_throw ∷ kw_trait
    ∷ kw_true ∷ kw_try ∷ kw_type ∷ kw_val ∷ kw_var ∷ kw_while ∷ kw_with ∷ kw_yield ∷ l_paren
    ∷ r_paren ∷ l_bracket ∷ r_bracket ∷ l_brace ∷ r_brace ∷ comma ∷ semicolon ∷ dot ∷ colon ∷ equals
    ∷ arrow ∷ ctx_arrow ∷ type_lambda_arrow ∷ left_arrow ∷ subtype ∷ supertype ∷ hash ∷ at
    ∷ underscore ∷ colon_eol ∷ newline ∷ indent ∷ outdent ∷ end_marker ∷ end_of_file ∷ error ∷ []

-- The value of the `uint8_t` that the enumeration stands for.
unfoldable pub ordinal : TokenKind → ℕ
ordinal int_lit = 0
ordinal float_lit = 1
ordinal char_lit = 2
ordinal string_lit = 3
ordinal interpolated_string = 4
ordinal identifier = 5
ordinal kw_abstract = 6
ordinal kw_case = 7
ordinal kw_catch = 8
ordinal kw_class = 9
ordinal kw_def = 10
ordinal kw_do = 11
ordinal kw_else = 12
ordinal kw_enum = 13
ordinal kw_export = 14
ordinal kw_extends = 15
ordinal kw_false = 16
ordinal kw_final = 17
ordinal kw_finally = 18
ordinal kw_for = 19
ordinal kw_given = 20
ordinal kw_if = 21
ordinal kw_implicit = 22
ordinal kw_import = 23
ordinal kw_lazy = 24
ordinal kw_match = 25
ordinal kw_new = 26
ordinal kw_null = 27
ordinal kw_object = 28
ordinal kw_override = 29
ordinal kw_package = 30
ordinal kw_private = 31
ordinal kw_protected = 32
ordinal kw_return = 33
ordinal kw_sealed = 34
ordinal kw_super = 35
ordinal kw_then = 36
ordinal kw_this = 37
ordinal kw_throw = 38
ordinal kw_trait = 39
ordinal kw_true = 40
ordinal kw_try = 41
ordinal kw_type = 42
ordinal kw_val = 43
ordinal kw_var = 44
ordinal kw_while = 45
ordinal kw_with = 46
ordinal kw_yield = 47
ordinal l_paren = 48
ordinal r_paren = 49
ordinal l_bracket = 50
ordinal r_bracket = 51
ordinal l_brace = 52
ordinal r_brace = 53
ordinal comma = 54
ordinal semicolon = 55
ordinal dot = 56
ordinal colon = 57
ordinal equals = 58
ordinal arrow = 59
ordinal ctx_arrow = 60
ordinal type_lambda_arrow = 61
ordinal left_arrow = 62
ordinal subtype = 63
ordinal supertype = 64
ordinal hash = 65
ordinal at = 66
ordinal underscore = 67
ordinal colon_eol = 68
ordinal newline = 69
ordinal indent = 70
ordinal outdent = 71
ordinal end_marker = 72
ordinal end_of_file = 73
ordinal error = 74

-- `==` of two kinds.
unfoldable pub kind_eq : TokenKind → TokenKind → Bool
unfolding ordinal
kind_eq a b = ordinal a == ordinal b

pub record SourcePos : Type 0 where
  pub line : ℕ
  pub column : ℕ

pub record InterpolationPart : Type 0 where
  pub is_hole : Bool
  pub text : Bytes
  pub pos : SourcePos

pub record Token : Type 0 where
  pub kind : TokenKind
  pub text : Bytes
  pub pos : SourcePos
  pub end : SourcePos
  pub line_indent : ℕ
  pub first_on_line : Bool
  pub past_blank_line : Bool
  pub backquoted : Bool
  pub is_operator : Bool
  pub error_at_eof : Bool
  pub int_value : ℕ
  pub fits_long : Bool
  pub digits : Bytes
  pub base : ℕ
  pub float_value : ℕ
  pub char_value : ℕ
  pub string_value : Bytes
  pub parts : List InterpolationPart

-- `Token t;`, the members' default initialisers.
abbrev pub default_token : Token
default_token = record {
  kind = error;
  text = [];
  pos = record { line = 1; column = 1 };
  end = record { line = 1; column = 1 };
  line_indent = 0;
  first_on_line = false;
  past_blank_line = false;
  backquoted = false;
  is_operator = false;
  error_at_eof = false;
  int_value = 0;
  fits_long = true;
  digits = [];
  base = 10;
  float_value = 0;
  char_value = 0;
  string_value = [];
  parts = [];
}

unfoldable pub token_kind_name : TokenKind → Bytes
token_kind_name int_lit = codes "IntLit"
token_kind_name float_lit = codes "FloatLit"
token_kind_name char_lit = codes "CharLit"
token_kind_name string_lit = codes "StringLit"
token_kind_name interpolated_string = codes "InterpolatedString"
token_kind_name identifier = codes "Identifier"
token_kind_name kw_abstract = codes "KwAbstract"
token_kind_name kw_case = codes "KwCase"
token_kind_name kw_catch = codes "KwCatch"
token_kind_name kw_class = codes "KwClass"
token_kind_name kw_def = codes "KwDef"
token_kind_name kw_do = codes "KwDo"
token_kind_name kw_else = codes "KwElse"
token_kind_name kw_enum = codes "KwEnum"
token_kind_name kw_export = codes "KwExport"
token_kind_name kw_extends = codes "KwExtends"
token_kind_name kw_false = codes "KwFalse"
token_kind_name kw_final = codes "KwFinal"
token_kind_name kw_finally = codes "KwFinally"
token_kind_name kw_for = codes "KwFor"
token_kind_name kw_given = codes "KwGiven"
token_kind_name kw_if = codes "KwIf"
token_kind_name kw_implicit = codes "KwImplicit"
token_kind_name kw_import = codes "KwImport"
token_kind_name kw_lazy = codes "KwLazy"
token_kind_name kw_match = codes "KwMatch"
token_kind_name kw_new = codes "KwNew"
token_kind_name kw_null = codes "KwNull"
token_kind_name kw_object = codes "KwObject"
token_kind_name kw_override = codes "KwOverride"
token_kind_name kw_package = codes "KwPackage"
token_kind_name kw_private = codes "KwPrivate"
token_kind_name kw_protected = codes "KwProtected"
token_kind_name kw_return = codes "KwReturn"
token_kind_name kw_sealed = codes "KwSealed"
token_kind_name kw_super = codes "KwSuper"
token_kind_name kw_then = codes "KwThen"
token_kind_name kw_this = codes "KwThis"
token_kind_name kw_throw = codes "KwThrow"
token_kind_name kw_trait = codes "KwTrait"
token_kind_name kw_true = codes "KwTrue"
token_kind_name kw_try = codes "KwTry"
token_kind_name kw_type = codes "KwType"
token_kind_name kw_val = codes "KwVal"
token_kind_name kw_var = codes "KwVar"
token_kind_name kw_while = codes "KwWhile"
token_kind_name kw_with = codes "KwWith"
token_kind_name kw_yield = codes "KwYield"
token_kind_name l_paren = codes "LParen"
token_kind_name r_paren = codes "RParen"
token_kind_name l_bracket = codes "LBracket"
token_kind_name r_bracket = codes "RBracket"
token_kind_name l_brace = codes "LBrace"
token_kind_name r_brace = codes "RBrace"
token_kind_name comma = codes "Comma"
token_kind_name semicolon = codes "Semicolon"
token_kind_name dot = codes "Dot"
token_kind_name colon = codes "Colon"
token_kind_name equals = codes "Equals"
token_kind_name arrow = codes "Arrow"
token_kind_name ctx_arrow = codes "CtxArrow"
token_kind_name type_lambda_arrow = codes "TypeLambdaArrow"
token_kind_name left_arrow = codes "LeftArrow"
token_kind_name subtype = codes "Subtype"
token_kind_name supertype = codes "Supertype"
token_kind_name hash = codes "Hash"
token_kind_name at = codes "At"
token_kind_name underscore = codes "Underscore"
token_kind_name colon_eol = codes "ColonEol"
token_kind_name newline = codes "Newline"
token_kind_name indent = codes "Indent"
token_kind_name outdent = codes "Outdent"
token_kind_name end_marker = codes "EndMarker"
token_kind_name end_of_file = codes "EOF"
token_kind_name error = codes "Error"

get_elem?-ordinal : (k : TokenKind) → get_elem? all_kinds (ordinal k) ≡ some k
unfolding ordinal
get_elem?-ordinal int_lit = refl
get_elem?-ordinal _ = refl

-- The comparison of kinds decides their equality.
pub kind_eq_iff : (a b : TokenKind) → (kind_eq a b ≡ true) ↔ (a ≡ b)
unfolding kind_eq
kind_eq_iff a b = (
  λ h. cc (get_elem?-ordinal a, get_elem?-ordinal b, (==_iff (ordinal a) (ordinal b)).0 h),
  λ e. (==_iff (ordinal a) (ordinal b)).1 (cc),
)

-- The first kind with a given name.
kind_named : List TokenKind → Bytes → Option TokenKind
unfolding token_kind_name bytes_eq
kind_named [] s = none
kind_named (k ∷ ks) s = if bytes_eq (token_kind_name k) s then some k else kind_named ks s

kind_named-token_kind_name : (k : TokenKind) → kind_named all_kinds (token_kind_name k) ≡ some k
unfolding kind_named
kind_named-token_kind_name int_lit = refl
kind_named-token_kind_name _ = refl

-- Two kinds with the same printed name are the same kind.
pub token_kind_name-injective : (a b : TokenKind) → token_kind_name a ≡ token_kind_name b → a ≡ b
token_kind_name-injective a b h = cc (kind_named-token_kind_name a, kind_named-token_kind_name b, h)
