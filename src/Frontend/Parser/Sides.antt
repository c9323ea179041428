-- ===== src/Frontend/Parser/Sides.antt =====
-- frontend/Parser.cpp: an operator that the loop takes stands right beside the operators around it.
use proto_scala.Common.{
  ℕ, ◌<◌, ◌≤◌, ◌≡◌, refl, sym, ap, subst, ◌∙◌, Bool, true, false, not, ◌&&◌, ◌||◌, ltb, ◌==◌,
  Option, some, Bytes, arith, Bool-cases, ==_iff, inl, inr,
}
use proto_scala.Frontend.Parser.Operators.{precedence, is_right_associative}
use proto_scala.Frontend.Parser.Cursor.{Cursor}
use proto_scala.Frontend.Parser.Infix.{
  Seen, first_seen, saw, differs, takes, operand_level, operand_assoc,
}
use proto_scala.Frontend.Parser.Chains.{
  Chain, operand, applied, may_stand_left, may_stand_right, Top,
}
use proto_scala.Frontend.Parser.Decisions.{takes-below}

pub same-side : (r s : Bool) → differs r (some s) ≡ false → s ≡ r
same-side true true h = refl
same-side true false h = ground arith
same-side false true h = ground arith
same-side false false h = refl

pub below-left :
    (p q : ℕ) (r s : Bool)
    → p < operand_level q s
    → (q ≡ p → s ≡ r)
    → (ltb p q || (q == p && (not s && not r))) ≡ true
below-left p q true true lt same = ground arith
below-left p q true false lt same = ground (arith, same)
below-left p q false true lt same = ground arith
below-left p q false false lt same = ground arith

pub above-right :
    (p q : ℕ) (r s : Bool)
    → operand_level p r ≤ q
    → (operand_assoc p r ≡ some (q, true) → s ≡ true)
    → (ltb p q || (q == p && (s && r))) ≡ true
above-right p q true true le a = ground arith
above-right p q true false le a = elim (Bool-cases (q == p)) [
  | inl same ↦ ground (arith, a (ap (λ n. some (n, true)) (sym ((==_iff q p).0 same))))
  | inr differ ↦ ground arith
]
above-right p q false s le a = ground arith

-- The operator that the loop takes may have what is to its left as its left operand.
pub left-fits :
    (min : ℕ) (seen : Seen) (c : Cursor) (o : Bytes)
    → takes min c ≡ true
    → takes (operand_level (precedence o) (is_right_associative o)) c ≡ false
    → seen (precedence o) ≡ some (is_right_associative o)
    → differs (is_right_associative c.token.text) (seen (precedence c.token.text)) ≡ false
    → may_stand_left o c.token.text ≡ true
unfolding may_stand_left
left-fits min seen c o h n s d =
    below-left (precedence c.token.text) (precedence o) (is_right_associative c.token.text)
      (is_right_associative o)
      (takes-below min (operand_level (precedence o) (is_right_associative o)) c h n)
      (λ e. same-side (is_right_associative c.token.text) (is_right_associative o) (
        subst (λ x. differs (is_right_associative c.token.text) x ≡ false) (ap seen (sym e) ∙ s) d))

pub right-fits :
    (o op : Bytes)
    → operand_level (precedence op) (is_right_associative op) ≤ precedence o
    → (operand_assoc (precedence op) (is_right_associative op) ≡ some (precedence o, true)
        → is_right_associative o ≡ true)
    → may_stand_right o op ≡ true
unfolding may_stand_right
right-fits o op le a =
    above-right (precedence op) (precedence o) (is_right_associative op) (is_right_associative o) le
      a

pub saw-held :
    (p q : ℕ) (r : Bool) (seen : Seen)
    → seen p ≡ some true
    → p ≤ q
    → (p ≡ q → r ≡ true)
    → saw q r seen p ≡ some true
saw-held p q r seen s le side = elim (Bool-cases (p == q)) [
  | inl same ↦ ground (arith, side ((==_iff p q).0 same))
  | inr differ ↦ ground (arith, s)
]

pub first_seen-held :
    (assoc : Option (ℕ × Bool)) (p : ℕ) → assoc ≡ some (p, true) → first_seen assoc p ≡ some true
first_seen-held assoc p a = subst (λ x. first_seen x p ≡ some true) (sym a) (ground arith)

abbrev pub op_level : Bytes → ℕ
op_level op = operand_level (precedence op) (is_right_associative op)

abbrev pub op_assoc : Bytes → Option (ℕ × Bool)
op_assoc op = operand_assoc (precedence op) (is_right_associative op)

pub op_assoc-level : (op : Bytes) (p : ℕ) → op_assoc op ≡ some (p, true) → p ≡ op_level op
op_assoc-level op p = by_side (precedence op) (is_right_associative op)
  where
    by_side : (q : ℕ) (r : Bool) → operand_assoc q r ≡ some (p, true) → p ≡ operand_level q r
    by_side q true e = cc
    by_side q false e = cc

pub Top-left :
    (k : Chain) (c : Cursor) (min : ℕ) (seen : Seen)
    → takes min c ≡ true
    → differs (is_right_associative c.token.text) (seen (precedence c.token.text)) ≡ false
    → Top (λ o. takes (op_level o) c ≡ false) k
    → Top (λ o. seen (precedence o) ≡ some (is_right_associative o)) k
    → Top (λ o. may_stand_left o c.token.text ≡ true) k
Top-left (operand n) c min seen h d closed known = tt
Top-left (applied l o r) c min seen h d closed known = left-fits min seen c o h closed known d

pub Top-right :
    (k : Chain) (op : Bytes)
    → Top (λ o. op_level op ≤ precedence o) k
    → Top (λ o. op_assoc op ≡ some (precedence o, true) → is_right_associative o ≡ true) k
    → Top (λ o. may_stand_right o op ≡ true) k
Top-right (operand n) op above agrees = tt
Top-right (applied l o r) op above agrees = right-fits o op above agrees
