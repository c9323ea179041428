-- ===== src/Frontend/Ast/RebasePlaces.antt =====
-- frontend/AST.cpp, `rebase`: every node that is reached through child slots has the new position.
use proto_scala.Common.{◌≡◌, refl, ◌++◌, All, All-append}
use proto_scala.Frontend.Token.{SourcePos}
use proto_scala.Frontend.Ast.Tree.{
  Node, node, NodePtr, null, ptr, Nodes, no_nodes, more_nodes, Shape, int_lit, float_lit,
  string_lit, char_lit, bool_lit, null_lit, unit_lit, interp_string, ident, select, apply,
  type_apply, infix_op, prefix_op, assign, if_expr, while_loop, return_expr, block, lambda,
  typed_expr, parens, tuple_expr, splice, named_arg, val_def, def_def, import_stat, template_def,
  new_expr, match_expr, for_expr, try_expr, throw_expr, super_ref, extension_def, type_def, Params,
  no_params, more_params, ParamLists, no_lists, more_lists, Parents, no_parents, more_parents,
  EnumCases, no_enum_cases, more_enum_cases, Cases, no_cases, more_cases, Enumerators, no_enums,
  more_enums, position,
}
use proto_scala.Frontend.Ast.Rebase.{
  rebase, rebase_ptr, rebase_nodes, rebase_params, rebase_lists, rebase_parents, rebase_enum_cases,
  rebase_cases, rebase_enums, rebase_shape,
}
use proto_scala.Frontend.Ast.Slots.{
  all_nodes, all_of, all_of_ptr, all_of_params, all_of_lists, all_of_parents, all_of_enum_cases,
  all_of_cases, all_of_enums, below,
}
use proto_scala.Frontend.Ast.Dump.{dump}
use proto_scala.Frontend.Ast.RebaseLaws.{render-rebase}

abbrev At : SourcePos → Node → Type 0
At to n = position n ≡ to

mutual
  unfolding all_nodes all_of all_of_ptr all_of_params all_of_lists all_of_parents all_of_enum_cases
      all_of_cases all_of_enums below rebase rebase_ptr rebase_nodes rebase_params rebase_lists
      rebase_parents rebase_enum_cases rebase_cases rebase_enums rebase_shape

  nodes-At : (to : SourcePos) (x : Node) → All (At to) (all_nodes (rebase to x))
  nodes-At to (node p s) = (refl, shape-At to s)

  All-At : (to : SourcePos) (x : Nodes) → All (At to) (all_of (rebase_nodes to x))
  All-At to no_nodes = tt
  All-At to (more_nodes n ns) =
      All-append (At to) (all_nodes (rebase to n)) (all_of (rebase_nodes to ns)) (nodes-At to n)
        (All-At to ns)

  ptr-At : (to : SourcePos) (x : NodePtr) → All (At to) (all_of_ptr (rebase_ptr to x))
  ptr-At to null = tt
  ptr-At to (ptr n) = nodes-At to n

  params-At : (to : SourcePos) (x : Params) → All (At to) (all_of_params (rebase_params to x))
  params-At to no_params = tt
  params-At to (more_params i d ps) =
      All-append (At to) (all_of_ptr (rebase_ptr to d)) (all_of_params (rebase_params to ps))
        (ptr-At to d) (params-At to ps)

  lists-At : (to : SourcePos) (x : ParamLists) → All (At to) (all_of_lists (rebase_lists to x))
  lists-At to no_lists = tt
  lists-At to (more_lists ps ls) =
      All-append (At to) (all_of_params (rebase_params to ps)) (all_of_lists (rebase_lists to ls))
        (params-At to ps) (lists-At to ls)

  parents-At : (to : SourcePos) (x : Parents) → All (At to) (all_of_parents (rebase_parents to x))
  parents-At to no_parents = tt
  parents-At to (more_parents t args b p ps) =
      All-append (At to) (all_of (rebase_nodes to args)) (all_of_parents (rebase_parents to ps))
        (All-At to args) (parents-At to ps)

  enum_cases-At :
      (to : SourcePos) (x : EnumCases) → All (At to) (all_of_enum_cases (rebase_enum_cases to x))
  enum_cases-At to no_enum_cases = tt
  enum_cases-At to (more_enum_cases n ps args b c p cs) =
      All-append (At to) (all_of_params (rebase_params to ps))
        (all_of (rebase_nodes to args) ++ (all_of_enum_cases (rebase_enum_cases to cs)))
        (params-At to ps)
        (All-append (At to) (all_of (rebase_nodes to args))
          (all_of_enum_cases (rebase_enum_cases to cs)) (All-At to args) (enum_cases-At to cs))

  cases-At : (to : SourcePos) (x : Cases) → All (At to) (all_of_cases (rebase_cases to x))
  cases-At to no_cases = tt
  cases-At to (more_cases pat guard body p cs) =
      All-append (At to) (all_of_ptr (rebase_ptr to guard))
        (all_nodes (rebase to body) ++ (all_of_cases (rebase_cases to cs))) (ptr-At to guard)
        (All-append (At to) (all_nodes (rebase to body)) (all_of_cases (rebase_cases to cs))
          (nodes-At to body) (cases-At to cs))

  enums-At : (to : SourcePos) (x : Enumerators) → All (At to) (all_of_enums (rebase_enums to x))
  enums-At to no_enums = tt
  enums-At to (more_enums k pat e p b es) =
      All-append (At to) (all_nodes (rebase to e)) (all_of_enums (rebase_enums to es))
        (nodes-At to e) (enums-At to es)

  shape-At : (to : SourcePos) (x : Shape) → All (At to) (below (rebase_shape to x))
  shape-At to (int_lit v f d b) = tt
  shape-At to (float_lit v t) = tt
  shape-At to (string_lit v) = tt
  shape-At to (char_lit v) = tt
  shape-At to (bool_lit v) = tt
  shape-At to null_lit = tt
  shape-At to unit_lit = tt
  shape-At to (interp_string i ls args specs) = All-At to args
  shape-At to (ident i) = tt
  shape-At to (select q m) = nodes-At to q
  shape-At to (apply fn args b w) =
      All-append (At to) (all_nodes (rebase to fn)) (all_of (rebase_nodes to args)) (nodes-At to fn)
        (All-At to args)
  shape-At to (type_apply fn ts) = nodes-At to fn
  shape-At to (infix_op l op r) =
      All-append (At to) (all_nodes (rebase to l)) (all_nodes (rebase to r)) (nodes-At to l)
        (nodes-At to r)
  shape-At to (prefix_op op e) = nodes-At to e
  shape-At to (assign t v) =
      All-append (At to) (all_nodes (rebase to t)) (all_nodes (rebase to v)) (nodes-At to t)
        (nodes-At to v)
  shape-At to (if_expr c t e) =
      All-append (At to) (all_nodes (rebase to c))
        (all_nodes (rebase to t) ++ (all_of_ptr (rebase_ptr to e))) (nodes-At to c)
        (All-append (At to) (all_nodes (rebase to t)) (all_of_ptr (rebase_ptr to e)) (nodes-At to t)
          (ptr-At to e))
  shape-At to (while_loop c b) =
      All-append (At to) (all_nodes (rebase to c)) (all_nodes (rebase to b)) (nodes-At to c)
        (nodes-At to b)
  shape-At to (return_expr v) = ptr-At to v
  shape-At to (block stats d) = All-At to stats
  shape-At to (lambda ps body r c) =
      All-append (At to) (all_of_params (rebase_params to ps)) (all_nodes (rebase to body))
        (params-At to ps) (nodes-At to body)
  shape-At to (typed_expr e t) = nodes-At to e
  shape-At to (parens e) = nodes-At to e
  shape-At to (tuple_expr es) = All-At to es
  shape-At to (splice e) = nodes-At to e
  shape-At to (named_arg m v) = nodes-At to v
  shape-At to (val_def i rhs pat) = ptr-At to rhs
  shape-At to (def_def i ls body) =
      All-append (At to) (all_of_lists (rebase_lists to ls)) (all_of_ptr (rebase_ptr to body))
        (lists-At to ls) (ptr-At to body)
  shape-At to (import_stat i) = tt
  shape-At to (template_def i ps parents body cs) =
      All-append (At to) (all_of_params (rebase_params to ps))
        (all_of_parents (rebase_parents to parents)
          ++ (all_of (rebase_nodes to body) ++ (all_of_enum_cases (rebase_enum_cases to cs))))
        (params-At to ps)
        (All-append (At to) (all_of_parents (rebase_parents to parents))
          (all_of (rebase_nodes to body) ++ (all_of_enum_cases (rebase_enum_cases to cs)))
          (parents-At to parents)
          (All-append (At to) (all_of (rebase_nodes to body))
            (all_of_enum_cases (rebase_enum_cases to cs)) (All-At to body) (enum_cases-At to cs)))
  shape-At to (new_expr t args b) = All-At to args
  shape-At to (match_expr s cs) =
      All-append (At to) (all_nodes (rebase to s)) (all_of_cases (rebase_cases to cs))
        (nodes-At to s) (cases-At to cs)
  shape-At to (for_expr es body y) =
      All-append (At to) (all_of_enums (rebase_enums to es)) (all_nodes (rebase to body))
        (enums-At to es) (nodes-At to body)
  shape-At to (try_expr b cs f) =
      All-append (At to) (all_nodes (rebase to b))
        (all_of_cases (rebase_cases to cs) ++ (all_of_ptr (rebase_ptr to f))) (nodes-At to b)
        (All-append (At to) (all_of_cases (rebase_cases to cs)) (all_of_ptr (rebase_ptr to f))
          (cases-At to cs) (ptr-At to f))
  shape-At to (throw_expr v) = nodes-At to v
  shape-At to (super_ref q) = tt
  shape-At to (extension_def m t ms) = All-At to ms
  shape-At to (type_def i) = tt

-- Every node of the rebased tree that is reached through child slots has the position, and the tree
-- renders as it did.
pub dump-rebase :
    (to : SourcePos) (n : Node)
    → All (λ m. position m ≡ to) (all_nodes (rebase to n)) × (dump (rebase to n) ≡ dump n)
dump-rebase to n = (nodes-At to n, render-rebase to n)
