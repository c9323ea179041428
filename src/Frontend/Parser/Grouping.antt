-- ===== src/Frontend/Parser/Grouping.antt =====
-- frontend/Parser.cpp: parseInfix ends, and groups what it reads as the precedences say.
use proto_scala.Common.{
  ℕ, zero, suc, ◌+◌, ◌*◌, ◌<◌, ◌≤◌, ◌≡◌, refl, sym, subst, Bool, true, false, if◌then◌else◌, Option,
  none, some, arith,
}
use proto_scala.Frontend.Ast.Tree.{Node}
use proto_scala.Frontend.Parser.Operators.{precedence, is_right_associative}
use proto_scala.Frontend.Parser.Cursor.{
  Cursor, advance, skip_newline, Parsed, parsed, refused, starved, Ends, with_value, with_error,
  size, IsEnded,
}
use proto_scala.Frontend.Parser.Prefix.{parse_prefix, map_node}
use proto_scala.Frontend.Parser.Infix.{
  Seen, first_seen, saw, differs, takes, joined, parse_infix, infix_loop,
}
use proto_scala.Frontend.Parser.Chains.{
  Chain, operand, applied, tree, Top, IsGrouped, operand_grouped, applied_grouped, Spells,
  spells_operand, spells_applied, IsParse,
}
use proto_scala.Frontend.Parser.Decisions.{
  decide-Decided, Decided-Ends, takes-at, takes-le, size-advance, advance-le, advance-IsEnded,
  skip_newline-le, skip_newline-IsEnded,
}
use proto_scala.Frontend.Parser.Sides.{
  same-side, op_level, op_assoc, op_assoc-level, Top-left, Top-right, saw-held, first_seen-held,
}

Ends-bind :
    {A B : Type 0} {Q : A → Cursor → Type 0} {R : B → Cursor → Type 0} {m : Parsed A}
    (g : A → Cursor → Parsed B)
    → Ends Q m
    → ((a : A) (e : Cursor) → Q a e → Ends R (g a e))
    → Ends R (elim m [ parsed a e ↦ g a e | refused x ↦ refused x | starved ↦ starved ])
Ends-bind g (with_value q) k = k _ _ q
Ends-bind g with_error k = with_error

Ends-known :
    {A : Type 0} {Q : A → Cursor → Type 0} {m : Parsed A}
    → Ends Q m
    → Ends (λ a e. (m ≡ parsed a e) × Q a e) m
Ends-known (with_value q) = with_value (refl, q)
Ends-known with_error = with_error

module _ (parse_simple : Cursor → Parsed Node)
    (goes_on : (c : Cursor)
      → IsEnded c
      → Ends (λ n e. (size e ≤ size c) × IsEnded e) (parse_simple c)) where
  map_node-goes_on :
      (f : Node → Node) (c d : Cursor) (m : Parsed Node)
      → size d ≤ size c
      → Ends (λ n e. (size e ≤ size d) × IsEnded e) m
      → Ends (λ n e. (size e ≤ size c) × IsEnded e) (map_node f m)
  map_node-goes_on f c d m le (with_value (lt, e)) = with_value (omega arith, e)
  map_node-goes_on f c d m le with_error = with_error

  parse_prefix-goes_on :
      (c : Cursor)
      → IsEnded c
      → Ends (λ n e. (size e ≤ size c) × IsEnded e) (parse_prefix parse_simple c)
  unfolding parse_prefix
  parse_prefix-goes_on c e = by_tests _ _ _ _
    where
      by_tests :
          (a b : Bool) (f g : Node → Node)
          → Ends
              (λ n e. (size e ≤ size c) × IsEnded e)
              (if a
                then (if b
                    then map_node f (parse_simple (advance c))
                    else map_node g (parse_simple (advance c)))
                else parse_simple c)
      by_tests true true f g =
          map_node-goes_on f c (advance c) (parse_simple (advance c)) (advance-le c)
            (goes_on (advance c) (advance-IsEnded c e))
      by_tests true false f g =
          map_node-goes_on g c (advance c) (parse_simple (advance c)) (advance-le c)
            (goes_on (advance c) (advance-IsEnded c e))
      by_tests false b f g = goes_on c e

  module _ (min : ℕ) (assoc : Option (ℕ × Bool)) (c0 : Cursor) where
    -- What the loop keeps of the chain that it has built.
    record Kept (k : Chain) (seen : Seen) (c : Cursor) : Type 0 where
      spelled : Spells parse_simple k c0 c
      grouped : IsGrouped k
      above : Top (λ o. min ≤ precedence o) k
      agrees : Top (λ o. assoc ≡ some (precedence o, true) → is_right_associative o ≡ true) k
      closed : Top (λ o. takes (op_level o) c ≡ false) k
      known : Top (λ o. seen (precedence o) ≡ some (is_right_associative o)) k
      held : (p : ℕ) → assoc ≡ some (p, true) → (seen p ≡ some true) × (p ≡ min)
      no_longer : size c ≤ size c0
      ended : IsEnded c

    Kept-operate :
        {k : Chain} {seen : Seen} {c e : Cursor} {n : Node}
        → Kept k seen c
        → takes min c ≡ true
        → differs (is_right_associative c.token.text) (seen (precedence c.token.text)) ≡ false
        → (r : IsParse parse_simple
            (op_level c.token.text)
            (op_assoc c.token.text)
            (skip_newline (advance c))
            n
            e)
        → Kept
            (applied k c.token.text r.chain)
            (saw (precedence c.token.text) (is_right_associative c.token.text) seen)
            e
    Kept-operate {k} {seen} {c} kept h d r =
        let op = c.token.text in
        let side = λ (a : assoc ≡ some (precedence op, true)). sym (
          same-side (is_right_associative op) true (
            subst (λ x. differs (is_right_associative op) x ≡ false) (kept.held (precedence op) a).0
              d)) in
        record {
          spelled = spells_applied kept.spelled (takes-at min c h) r.spelled;
          grouped =
              applied_grouped kept.grouped r.grouped
                (Top-left k c min seen h d kept.closed kept.known)
                (Top-right r.chain op r.above r.agrees);
          above = takes-le min c h;
          agrees = side;
          closed = r.stopped;
          known = ground arith;
          held = λ p a. (
            saw-held p (precedence op) (is_right_associative op) seen (kept.held p a).0
                (omega (arith, (kept.held p a).1, takes-le min c h))
                (λ q. side (subst (λ x. assoc ≡ some (x, true)) q a)),
            (kept.held p a).1,
          );
          no_longer =
              omega (arith, r.no_longer, kept.no_longer, skip_newline-le (advance c), advance-le c);
          ended = r.ended;
        }

  mutual
    unfolding parse_infix infix_loop tree

    infix-IsParse :
        (f min : ℕ) (assoc : Option (ℕ × Bool)) (c : Cursor)
        → ((p : ℕ) → assoc ≡ some (p, true) → p ≡ min)
        → IsEnded c
        → 2 * size c + 1 < f
        → Ends (IsParse parse_simple min assoc c) (parse_infix parse_simple f min assoc c)
    infix-IsParse zero min assoc c level e lt = ground arith
    infix-IsParse (suc f) min assoc c level e lt =
        Ends-bind _ (Ends-known (parse_prefix-goes_on c e)) (λ n d q.
          loop-IsParse f min assoc c (operand n) (first_seen assoc) d
            record {
              spelled = spells_operand q.0;
              grouped = operand_grouped;
              above = tt;
              agrees = tt;
              closed = tt;
              known = tt;
              held = λ p a. (first_seen-held assoc p a, level p a);
              no_longer = q.1.0;
              ended = q.1.1;
            }
            (omega (arith, q.1.0)))

    loop-IsParse :
        (f min : ℕ) (assoc : Option (ℕ × Bool)) (c0 : Cursor) (k : Chain) (seen : Seen) (c : Cursor)
        → Kept min assoc c0 k seen c
        → 2 * size c < f
        → Ends (IsParse parse_simple min assoc c0) (infix_loop parse_simple f min seen (tree k) c)
    loop-IsParse zero min assoc c0 k seen c kept lt = ground arith
    loop-IsParse (suc f) min assoc c0 k seen c kept lt =
        Decided-Ends (tree k) _ (decide-Decided min seen c)
          (λ h. record {
            chain = k;
            is_tree = refl;
            spelled = kept.spelled;
            grouped = kept.grouped;
            above = kept.above;
            agrees = kept.agrees;
            stopped = h;
            no_longer = kept.no_longer;
            ended = kept.ended;
          })
          (λ h d.
            let op = c.token.text in
            let shorter : size (skip_newline (advance c)) < size c =
              omega (
                arith,
                skip_newline-le (advance c),
                size-advance c kept.ended (takes-at min c h),
              ) in
            Ends-bind _
              (infix-IsParse f (op_level op) (op_assoc op) (skip_newline (advance c))
                (op_assoc-level op)
                (skip_newline-IsEnded (advance c) (advance-IsEnded c kept.ended))
                (omega (arith, shorter)))
              (λ rhs e r.
                subst
                  (λ n. Ends (IsParse parse_simple min assoc c0) (
                    infix_loop parse_simple f min
                      (saw (precedence op) (is_right_associative op) seen) (joined (tree k) op n)
                      e))
                  r.is_tree
                  (loop-IsParse f min assoc c0 (applied k op r.chain)
                    (saw (precedence op) (is_right_associative op) seen) e
                    (Kept-operate min assoc c0 kept h d r) (omega (arith, shorter, r.no_longer)))))

  -- Where `parseSimple` ends and does not go back, `parseInfix` ends, with two turns of fuel for each
  -- token and two more: with an error, or with the tree of a chain. Its operands and operators are the
  -- tokens from where it started to where it stopped, every operator stands below the looser ones and
  -- on the side of its associativity, none is of a lower level than was asked for, and none that the
  -- level takes stands behind.
  pub parse_infix-IsParse :
      (f min : ℕ) (c : Cursor)
      → IsEnded c
      → 2 * size c + 1 < f
      → Ends (IsParse parse_simple min none c) (parse_infix parse_simple f min none c)
  parse_infix-IsParse f min c e lt = infix-IsParse f min none c (λ p a. cc) e lt
