-- ===== src/Frontend/Parser/Chains.antt =====
-- What operands and operators in a row mean: a chain is a grouping of them, and it is grouped right when
-- a tighter operator stands below a looser one, and operators of one level go to the side that their
-- associativity says.
use proto_scala.Common.{
  ℕ, ◌≤◌, ◌≡◌, Bool, true, false, not, ◌&&◌, ◌||◌, ltb, ◌==◌, Option, some, Bytes,
}
use proto_scala.Frontend.Token.{identifier}
use proto_scala.Frontend.Ast.Tree.{Node}
use proto_scala.Frontend.Parser.Operators.{precedence, is_right_associative}
use proto_scala.Frontend.Parser.Cursor.{
  Cursor, advance, at, skip_newline, Parsed, parsed, size, IsEnded,
}
use proto_scala.Frontend.Parser.Prefix.{parse_prefix}
use proto_scala.Frontend.Parser.Infix.{joined, takes}

pub data Chain : Type 0 where
  operand : Node → Chain
  applied : Chain → (op : Bytes) → Chain → Chain

unfoldable pub tree : Chain → Node
tree (operand n) = n
tree (applied l op r) = joined (tree l) op (tree r)

-- Whether an operator with the operand `o` may stand to the left, or to the right, of `op`.
unfoldable pub may_stand_left : Bytes → Bytes → Bool
unfolding precedence is_right_associative
may_stand_left o op =
    ltb (precedence op) (precedence o)
    || (precedence o == precedence op
        && (not (is_right_associative o) && not (is_right_associative op)))

unfoldable pub may_stand_right : Bytes → Bytes → Bool
unfolding precedence is_right_associative
may_stand_right o op =
    ltb (precedence op) (precedence o)
    || (precedence o == precedence op && (is_right_associative o && is_right_associative op))

-- The operator at the top has the property.
abbrev pub Top : (Bytes → Type 0) → Chain → Type 0
Top P (operand n) = Unit
Top P (applied l op r) = P op

pub data IsGrouped : Chain → Type 0 where
  operand_grouped : {n : Node} → IsGrouped (operand n)
  applied_grouped :
      {l r : Chain} {op : Bytes}
      → IsGrouped l
      → IsGrouped r
      → Top (λ o. may_stand_left o op ≡ true) l
      → Top (λ o. may_stand_right o op ≡ true) r
      → IsGrouped (applied l op r)

module _ (parse_simple : Cursor → Parsed Node) where
  -- The operands and operators of a chain are the tokens from one cursor to another.
  pub data Spells : Chain → Cursor → Cursor → Type 0 where
    spells_operand :
        {n : Node} {c e : Cursor}
        → parse_prefix parse_simple c ≡ parsed n e
        → Spells (operand n) c e
    spells_applied :
        {l r : Chain} {c m e : Cursor}
        → Spells l c m
        → at identifier m ≡ true
        → Spells r (skip_newline (advance m)) e
        → Spells (applied l m.token.text r) c e

  -- What a run from `c` to `e` gives: the tree of a chain that is spelled there, grouped right, with
  -- operators of the level and above, and no such operator behind it.
  pub record IsParse (min : ℕ) (assoc : Option (ℕ × Bool)) (c : Cursor) (n : Node) (e : Cursor)
      : Type 0 where
    pub chain : Chain
    pub is_tree : tree chain ≡ n
    pub spelled : Spells chain c e
    pub grouped : IsGrouped chain
    pub above : Top (λ o. min ≤ precedence o) chain
    pub agrees : Top (λ o. assoc ≡ some (precedence o, true) → is_right_associative o ≡ true) chain
    pub stopped : takes min e ≡ false
    pub no_longer : size e ≤ size c
    pub ended : IsEnded e
