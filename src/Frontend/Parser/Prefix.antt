-- ===== src/Frontend/Parser/Prefix.antt =====
-- frontend/Parser.cpp: parsePrefix, with parseSimple a parameter.
use proto_scala.Common.{
  ℕ, ◌-◌, ◌%◌, ◌+◌, ◌^◌, Bool, true, false, not, ◌&&◌, ◌||◌, ◌==◌, if◌then◌else◌, ◌∷◌, Bytes, codes,
  bytes_eq,
}
use proto_scala.Frontend.Token.{TokenKind, Token, SourcePos, kind_eq, identifier}
use proto_scala.Frontend.Ast.Tree.{
  Node, node, int_lit, float_lit, select, apply, type_apply, prefix_op,
}
use proto_scala.Frontend.Parser.Cursor.{Cursor, peek, advance, Parsed, parsed, refused, starved}

-- `-v` of a `long long` that stands as its bits
abbrev pub negated : ℕ → ℕ
negated v = (2 ^ 64 - v % 2 ^ 64) % 2 ^ 64

-- `-v` of a double that stands as its bits: the sign bit is flipped.
abbrev pub sign_flipped : ℕ → ℕ
sign_flipped v = (v + 2 ^ 63) % 2 ^ 64

abbrev pub minus_digits : Bool → Bytes → Bytes
minus_digits true ds = ds
minus_digits false ds = 45 ∷ ds

-- The sign goes into the literal under the suffixes, and the literal to the position of the sign.
unfoldable pub fold_sign : SourcePos → Node → Node
fold_sign to (node p (select q m)) = node p (select (fold_sign to q) m)
fold_sign to (node p (apply f xs b w)) = node p (apply (fold_sign to f) xs b w)
fold_sign to (node p (type_apply f ts)) = node p (type_apply (fold_sign to f) ts)
fold_sign to (node p (int_lit v fits ds base)) =
    node to (int_lit (negated v) fits (minus_digits fits ds) base)
fold_sign to (node p (float_lit v text)) = node to (float_lit (sign_flipped v) (45 ∷ text))
fold_sign to (node p s) = node p s

abbrev pub moved_to : SourcePos → Node → Node
moved_to to (node p s) = node to s

abbrev pub is_prefix_name : Bytes → Bool
is_prefix_name op =
    bytes_eq op (codes "-")
    || (bytes_eq op (codes "+") || (bytes_eq op (codes "!") || bytes_eq op (codes "~")))

unfoldable pub is_prefix : Token → Bool
unfolding kind_eq
is_prefix t = kind_eq t.kind identifier && (not t.backquoted && is_prefix_name t.text)

-- A `-` directly before a number.
unfoldable pub is_sign : Token → Token → Bool
unfolding kind_eq
is_sign t operand =
    bytes_eq t.text (codes "-")
    && ((operand.pos.line == t.end.line && operand.pos.column == t.end.column)
        && (kind_eq operand.kind TokenKind.int_lit || kind_eq operand.kind TokenKind.float_lit))

abbrev pub map_node : (Node → Node) → Parsed Node → Parsed Node
map_node f (parsed n c) = parsed (f n) c
map_node f (refused e) = refused e
map_node f starved = starved

module _ (parse_simple : Cursor → Parsed Node) where
  -- `parsePrefix`
  unfoldable pub parse_prefix : Cursor → Parsed Node
  unfolding is_prefix is_sign fold_sign
  parse_prefix c =
      let t = c.token in
      if is_prefix t
      then (if is_sign t (peek 1 c)
          then map_node (λ n. moved_to t.pos (fold_sign t.pos n)) (parse_simple (advance c))
          else map_node (λ n. node t.pos (prefix_op t.text n)) (parse_simple (advance c)))
      else parse_simple c
