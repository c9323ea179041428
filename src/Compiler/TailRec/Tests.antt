-- ===== src/Compiler/TailRec/Tests.antt =====
-- if (n == 0) f(1) else { return f(2); try f(3) catch { case e => f(4) } }
use proto_scala.Common.{ℕ, ◌≡◌, refl, true, false, none, [], ◌∷◌, codes}
use proto_scala.Frontend.Token.{SourcePos}
use proto_scala.Frontend.Ast.Types.{wildcard}
use proto_scala.Frontend.Ast.Tree.{
  Node, node, null, ptr, no_nodes, more_nodes, int_lit, ident, apply, if_expr, block, return_expr,
  try_expr, no_cases, more_cases, pattern_of, no_patterns,
}
use proto_scala.Compiler.TailRec.Sites.{
  sites, thenp, elsep, stats, rest, first, arms, arm_body, value_of,
}

abbrev here : SourcePos
here = record { line = 1; column = 1 }

abbrev call : ℕ → Node
call n = node here (
    apply (node here (ident (codes "f"))) (more_nodes (node here (int_lit n true [] 10)) no_nodes)
      false false)

abbrev tail_sample : Node
tail_sample = node here (
    if_expr (node here (ident (codes "b"))) (call 1) (
      ptr (
        node here (
          block
            (more_nodes (node here (return_expr (ptr (call 2)))) (
              more_nodes
                (node here (
                  try_expr (call 3)
                    (more_cases (pattern_of wildcard here [] null none no_patterns) null (call 4)
                      here no_cases)
                    null))
                no_nodes))
            false))))

-- The calls of 1, 4 and 2 are sites, and the one of 3 is none.
tail_sample-sites :
    sites tail_sample
    ≡ (thenp ∷ [])
      ∷ (elsep ∷ stats ∷ rest ∷ first ∷ arms ∷ arm_body ∷ [])
      ∷ (elsep ∷ stats ∷ first ∷ value_of ∷ [])
      ∷ []
unfolding sites
tail_sample-sites = refl
