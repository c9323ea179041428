-- ===== src/Frontend/Ast/Clone.antt =====
-- frontend/AST.cpp: `cloneType`, `cloneSimpleExpr`, `clonePattern` and `patternVariables`.
use proto_scala.Common.{
  if◌then◌else◌, Option, none, some, List, [], ◌∷◌, ◌++◌, Bytes, codes, bytes_eq, ◌>>=?◌,
}
use proto_scala.Frontend.Ast.Types.{
  var, bind, seq_wildcard, alt, TypeTree, type_tree, TypeTrees, no_types, more_types,
}
use proto_scala.Frontend.Ast.Tree.{
  Node, node, NodePtr, null, ptr, int_lit, float_lit, string_lit, char_lit, bool_lit, null_lit,
  unit_lit, ident, select, Pattern, pattern_of, Patterns, no_patterns, more_patterns,
}

unfoldable mutual
  pub clone_type : TypeTree → TypeTree
  clone_type (type_tree kind name args pos) = type_tree kind name (clone_types args) pos

  clone_types : TypeTrees → TypeTrees
  clone_types no_types = no_types
  clone_types (more_types t ts) = more_types (clone_type t) (clone_types ts)

-- none is the `std::logic_error` of a tree that is neither a literal nor a path.
unfoldable pub clone_simple_expr : Node → Option Node
clone_simple_expr (node p (int_lit v fits ds base)) = some (node p (int_lit v fits ds base))
clone_simple_expr (node p (float_lit v text)) = some (node p (float_lit v text))
clone_simple_expr (node p (string_lit v)) = some (node p (string_lit v))
clone_simple_expr (node p (char_lit v)) = some (node p (char_lit v))
clone_simple_expr (node p (bool_lit v)) = some (node p (bool_lit v))
clone_simple_expr (node p null_lit) = some (node p null_lit)
clone_simple_expr (node p unit_lit) = some (node p unit_lit)
clone_simple_expr (node p (ident name)) = some (node p (ident name))
clone_simple_expr (node p (select q name)) =
    clone_simple_expr q >>=? λ c. some (node p (select c name))
clone_simple_expr (node p s) = none

unfoldable pub clone_expr_ptr : NodePtr → Option NodePtr
unfolding clone_simple_expr
clone_expr_ptr null = some null
clone_expr_ptr (ptr n) = clone_simple_expr n >>=? λ c. some (ptr c)

unfoldable pub clone_type_ptr : Option TypeTree → Option TypeTree
unfolding clone_type
clone_type_ptr none = none
clone_type_ptr (some t) = some (clone_type t)

unfoldable mutual
  unfolding clone_expr_ptr clone_type_ptr

  pub clone_pattern : Pattern → Option Pattern
  clone_pattern (pattern_of kind pos name expr type args) = clone_expr_ptr expr >>=? λ e.
      clone_patterns args >>=? λ as'. some (pattern_of kind pos name e (clone_type_ptr type) as')

  pub clone_patterns : Patterns → Option Patterns
  clone_patterns no_patterns = some no_patterns
  clone_patterns (more_patterns p ps) =
      clone_pattern p >>=? λ c. clone_patterns ps >>=? λ cs. some (more_patterns c cs)

-- `patternVariables`: what the source appends.
unfoldable mutual
  pub pattern_variables : Pattern → List Bytes
  pattern_variables (pattern_of var p n e t args) = if bytes_eq n (codes "_") then [] else n ∷ []
  pattern_variables (pattern_of bind p n e t args) = n ∷ front_variables args
  pattern_variables (pattern_of seq_wildcard p n e t args) = if bytes_eq n [] then [] else n ∷ []
  pattern_variables (pattern_of alt p n e t args) = []
  pattern_variables (pattern_of k p n e t args) = variables_of args

  pub front_variables : Patterns → List Bytes
  front_variables no_patterns = []
  front_variables (more_patterns p ps) = pattern_variables p

  pub variables_of : Patterns → List Bytes
  variables_of no_patterns = []
  variables_of (more_patterns p ps) = pattern_variables p ++ variables_of ps
