-- ===== src/Frontend/Parser/Infix.antt =====
-- frontend/Parser.cpp: parseInfix and parseInfixLoop, with parseSimple a parameter. parseInfixRest frees
-- what was built before an error, and gives what the loop gives.
use proto_scala.Common.{
  ℕ, zero, suc, Bool, true, false, not, ◌&&◌, ◌||◌, ltb, leb, ◌==◌, if◌then◌else◌, Option, none,
  some, Bytes, codes, bytes_eq, ◌++◌,
}
use proto_scala.Frontend.Token.{TokenKind, kind_eq, identifier, r_paren, r_brace, outdent, comma}
use proto_scala.Frontend.Ast.Tree.{Node, node, infix_op, position}
use proto_scala.Frontend.Parser.Operators.{precedence, is_right_associative}
use proto_scala.Frontend.Parser.Cursor.{
  Cursor, peek, advance, at, skip_newline, ParseError, fail, Parsed, parsed, refused, starved,
}
use proto_scala.Frontend.Parser.Prefix.{parse_prefix}

-- `seen`: the associativity of a level of precedence, none for -1 and true for right.
abbrev pub Seen : Type 0
Seen = ℕ → Option Bool

-- `assocPrec` and `assocRight`, none for -1
abbrev pub first_seen : Option (ℕ × Bool) → Seen
first_seen none = λ q. none
first_seen (some (p, right)) = λ q. if q == p then some right else none

-- What an operator of level `p` leaves.
abbrev pub saw : ℕ → Bool → Seen → Seen
saw p right seen = λ q. if q == p then some right else if ltb p q then none else seen q

abbrev pub differs : Bool → Option Bool → Bool
differs right none = false
differs true (some r) = not r
differs false (some r) = r

-- Whether the loop takes the next token as an operator.
unfoldable pub takes : ℕ → Cursor → Bool
unfolding precedence kind_eq
takes min c =
    at identifier c
    && (not (bytes_eq c.token.text (codes "*") && kind_eq (peek 1 c).kind r_paren)
        && leb min (precedence c.token.text))

unfoldable pub ends_operand : TokenKind → Bool
unfolding kind_eq
ends_operand k = kind_eq k r_paren || (kind_eq k r_brace || (kind_eq k outdent || kind_eq k comma))

abbrev mixed_message : Bytes
mixed_message =
    codes "left- and right-associative operators with the same precedence may not be mixed"

abbrev postfix_message : Bytes → Bytes
postfix_message op =
    codes "postfix operators are not supported; '" ++ (op ++ codes "' needs a right operand")

-- What a turn of the loop decides before it parses the right operand.
pub data Decision : Type 0 where
  stop : Decision
  refuse : ParseError → Decision
  operate : (op : Bytes) (p : ℕ) (right : Bool) (behind : Cursor) → Decision

unfoldable pub decide : ℕ → Seen → Cursor → Decision
unfolding takes precedence is_right_associative fail advance skip_newline ends_operand
decide min seen c =
    let op = c.token.text in
    let p = precedence op in
    let right = is_right_associative op in
    let behind = skip_newline (advance c) in
    if takes min c
    then (if differs right (seen p)
        then refuse (fail mixed_message c)
        else if ends_operand behind.token.kind
        then refuse (fail (postfix_message op) behind)
        else operate op p right behind)
    else stop

-- The least level of the right operand of an operator, and what is known of it there.
abbrev pub operand_level : ℕ → Bool → ℕ
operand_level p right = if right then p else suc p

abbrev pub operand_assoc : ℕ → Bool → Option (ℕ × Bool)
operand_assoc p right = if right then some (p, true) else none

abbrev pub joined : Node → Bytes → Node → Node
joined lhs op rhs = node (position lhs) (infix_op lhs op rhs)

module _ (parse_simple : Cursor → Parsed Node) where
  -- `parseInfix` and `parseInfixLoop`, which call each other, on one fuel.
  unfoldable mutual
    unfolding decide parse_prefix

    pub parse_infix : ℕ → ℕ → Option (ℕ × Bool) → Cursor → Parsed Node
    parse_infix zero min assoc c = starved
    parse_infix (suc f) min assoc c = elim (parse_prefix parse_simple c) [
      | parsed n d ↦ infix_loop f min (first_seen assoc) n d
      | refused x ↦ refused x
      | starved ↦ starved
    ]

    pub infix_loop : ℕ → ℕ → Seen → Node → Cursor → Parsed Node
    infix_loop zero min seen lhs c = starved
    infix_loop (suc f) min seen lhs c = elim (decide min seen c) [
      | stop ↦ parsed lhs c
      | refuse x ↦ refused x
      | operate op p right behind ↦
          elim (parse_infix f (operand_level p right) (operand_assoc p right) behind) [
            | parsed rhs e ↦ infix_loop f min (saw p right seen) (joined lhs op rhs) e
            | refused x ↦ refused x
            | starved ↦ starved
          ]
    ]
