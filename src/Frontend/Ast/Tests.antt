-- ===== src/Frontend/Ast/Tests.antt =====
-- Small trees: a match inside a lambda.
use proto_scala.Common.{
  ℕ, ◌≡◌, refl, false, none, some, [], ◌∷◌, length, All, codes, bytes_eq, Gives,
}
use mathlib.Core.List.{Perm}
use proto_scala.Frontend.Token.{SourcePos}
use proto_scala.Frontend.Ast.Types.{extractor, var, ParamInfo, Modifiers}
use proto_scala.Frontend.Ast.Tree.{
  Node, node, null, ptr, no_nodes, more_nodes, ident, apply, lambda, match_expr, no_params,
  more_params, no_cases, more_cases, Pattern, pattern_of, no_patterns, more_patterns, position,
}
use proto_scala.Frontend.Ast.Slots.{all_nodes}
use proto_scala.Frontend.Ast.Destroy.{destroy_tree, destroy_tree-Perm}
use proto_scala.Frontend.Ast.Clone.{
  clone_pattern, clone_patterns, clone_expr_ptr, clone_type_ptr, clone_simple_expr,
  pattern_variables, front_variables, variables_of,
}
use proto_scala.Frontend.Ast.Rebase.{rebase}
use proto_scala.Frontend.Ast.Dump.{
  dump, render, render_shape, render_params, render_cases, render_pattern, render_children,
  render_patterns, render_default, render_guard, render_ptr,
}
use proto_scala.Frontend.Ast.Render.{param_head, param_type, sp}
use proto_scala.Frontend.Ast.RebasePlaces.{dump-rebase}

abbrev at_place : ℕ → SourcePos
at_place n = record { line = 1; column = n }

abbrev no_mods : Modifiers
no_mods = record {
  is_private = false;
  is_protected = false;
  is_override = false;
  is_abstract = false;
  is_final = false;
  is_sealed = false;
}

abbrev x_param : ParamInfo
x_param = record {
  name = codes "x";
  type = none;
  by_name = false;
  repeated = false;
  pos = at_place 1;
  is_val = false;
  is_var = false;
  mods = no_mods;
}

-- C(y)
abbrev c_pattern : Pattern
c_pattern =
    pattern_of extractor (at_place 9) (codes "C") (ptr (node (at_place 9) (ident (codes "C")))) none
      (more_patterns (pattern_of var (at_place 11) (codes "y") null none no_patterns) no_patterns)

-- x => x match { case C(y) => f(y) }
abbrev sample : Node
sample = node (at_place 1) (
    lambda (more_params x_param null no_params)
      (node (at_place 6) (
        match_expr (node (at_place 6) (ident (codes "x"))) (
          more_cases c_pattern null
            (node (at_place 17) (
              apply (node (at_place 17) (ident (codes "f")))
                (more_nodes (node (at_place 19) (ident (codes "y"))) no_nodes) false false))
            (at_place 9) no_cases)))
      false false)

dump-sample : dump sample ≡ codes "(lambda (x) (match x (case (unapply C y) (apply f y))))"
unfolding render render_shape render_params render_cases render_pattern render_children
    render_patterns render_default render_guard render_ptr param_head param_type sp
dump-sample = refl

pattern_variables-c_pattern : pattern_variables c_pattern ≡ codes "y" ∷ []
unfolding pattern_variables front_variables variables_of bytes_eq
pattern_variables-c_pattern = refl

clone_pattern-c_pattern : clone_pattern c_pattern ≡ some c_pattern
unfolding clone_pattern clone_patterns clone_expr_ptr clone_type_ptr clone_simple_expr
clone_pattern-c_pattern = refl

destroy_tree-Perm_example :
    Gives
      (λ freed. Perm freed (all_nodes sample))
      (destroy_tree (length (all_nodes sample)) (ptr sample))
destroy_tree-Perm_example = destroy_tree-Perm sample

dump-rebase_example :
    All (λ m. position m ≡ at_place 3) (all_nodes (rebase (at_place 3) sample))
    × (dump (rebase (at_place 3) sample) ≡ dump sample)
dump-rebase_example = dump-rebase (at_place 3) sample
