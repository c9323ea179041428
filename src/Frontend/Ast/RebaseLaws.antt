-- ===== src/Frontend/Ast/RebaseLaws.antt =====
-- frontend/AST.cpp, `rebase`: it gives every node the position, and changes nothing that `dump` shows.
use proto_scala.Common.{◌≡◌, refl, true, false, List, Bytes}
use proto_scala.Frontend.Token.{SourcePos}
use proto_scala.Frontend.Ast.Tree.{
  Node, node, NodePtr, null, ptr, Nodes, no_nodes, more_nodes, Shape, int_lit, float_lit,
  string_lit, char_lit, bool_lit, null_lit, unit_lit, interp_string, ident, select, apply,
  type_apply, infix_op, prefix_op, assign, if_expr, while_loop, return_expr, block, lambda,
  typed_expr, parens, tuple_expr, splice, named_arg, val_def, def_def, import_stat, template_def,
  new_expr, match_expr, for_expr, try_expr, throw_expr, super_ref, extension_def, type_def, Params,
  no_params, more_params, ParamLists, no_lists, more_lists, Parents, no_parents, more_parents,
  Cases, no_cases, more_cases, no_pattern, the_pattern, Enumerators, no_enums, more_enums,
}
use proto_scala.Frontend.Ast.Rebase.{
  rebase, rebase_ptr, rebase_nodes, rebase_params, rebase_lists, rebase_parents, rebase_enum_cases,
  rebase_cases, rebase_enums, rebase_shape,
}
use proto_scala.Frontend.Ast.Render.{tail_texts}
use proto_scala.Frontend.Ast.Dump.{
  render, render_children, render_spaced, render_ptr, render_default, render_params,
  render_class_params, render_lists, render_parents, render_guard, render_finally, render_cases,
  render_enums, render_holes, render_shape, some_list, some_parent,
}

some_list_rebase :
    (to : SourcePos) (ls : ParamLists) → some_list (rebase_lists to ls) ≡ some_list ls
unfolding rebase_lists
some_list_rebase to no_lists = refl
some_list_rebase to (more_lists ps ls) = refl

some_parent_rebase :
    (to : SourcePos) (ps : Parents) → some_parent (rebase_parents to ps) ≡ some_parent ps
unfolding rebase_parents
some_parent_rebase to no_parents = refl
some_parent_rebase to (more_parents t args b p ps) = refl

mutual
  unfolding render render_children render_spaced render_ptr render_default render_params
      render_class_params render_lists render_parents render_guard render_finally render_cases
      render_enums render_holes render_shape rebase rebase_ptr rebase_nodes rebase_params
      rebase_lists rebase_parents rebase_enum_cases rebase_cases rebase_enums rebase_shape

  pub render-rebase : (to : SourcePos) (n : Node) → render (rebase to n) ≡ render n
  render-rebase to (node p s) = shape_rebase to s

  children_rebase :
      (to : SourcePos) (ns : Nodes) → render_children (rebase_nodes to ns) ≡ render_children ns
  children_rebase to no_nodes = refl
  children_rebase to (more_nodes n ns) = rw (render-rebase to n, children_rebase to ns) refl

  spaced_rebase : (to : SourcePos) (n : NodePtr) → render_spaced (rebase_ptr to n) ≡ render_spaced n
  spaced_rebase to null = refl
  spaced_rebase to (ptr n) = rw (render-rebase to n) refl

  ptr_rebase : (to : SourcePos) (n : NodePtr) → render_ptr (rebase_ptr to n) ≡ render_ptr n
  ptr_rebase to null = refl
  ptr_rebase to (ptr n) = rw (render-rebase to n) refl

  default_rebase :
      (to : SourcePos) (n : NodePtr) → render_default (rebase_ptr to n) ≡ render_default n
  default_rebase to null = refl
  default_rebase to (ptr n) = rw (render-rebase to n) refl

  guard_rebase : (to : SourcePos) (n : NodePtr) → render_guard (rebase_ptr to n) ≡ render_guard n
  guard_rebase to null = refl
  guard_rebase to (ptr n) = rw (render-rebase to n) refl

  finally_rebase :
      (to : SourcePos) (n : NodePtr) → render_finally (rebase_ptr to n) ≡ render_finally n
  finally_rebase to null = refl
  finally_rebase to (ptr n) = rw (render-rebase to n) refl

  params_rebase :
      (to : SourcePos) (ps : Params) → render_params (rebase_params to ps) ≡ render_params ps
  params_rebase to no_params = refl
  params_rebase to (more_params i d no_params) = rw (default_rebase to d) refl
  params_rebase to (more_params i d (more_params j e ps)) =
      rw (default_rebase to d, params_rebase to (more_params j e ps)) refl

  class_params_rebase :
      (to : SourcePos) (ps : Params)
      → render_class_params (rebase_params to ps) ≡ render_class_params ps
  class_params_rebase to no_params = refl
  class_params_rebase to (more_params i d no_params) = rw (default_rebase to d) refl
  class_params_rebase to (more_params i d (more_params j e ps)) =
      rw (default_rebase to d, class_params_rebase to (more_params j e ps)) refl

  lists_rebase :
      (to : SourcePos) (ls : ParamLists) → render_lists (rebase_lists to ls) ≡ render_lists ls
  lists_rebase to no_lists = refl
  lists_rebase to (more_lists ps no_lists) = rw (params_rebase to ps) refl
  lists_rebase to (more_lists ps (more_lists qs ls)) =
      rw (params_rebase to ps, lists_rebase to (more_lists qs ls)) refl

  parents_rebase :
      (to : SourcePos) (ps : Parents) → render_parents (rebase_parents to ps) ≡ render_parents ps
  parents_rebase to no_parents = refl
  parents_rebase to (more_parents t args true p ps) =
      rw (children_rebase to args, parents_rebase to ps) refl
  parents_rebase to (more_parents t args false p ps) = rw (parents_rebase to ps) refl

  cases_rebase : (to : SourcePos) (cs : Cases) → render_cases (rebase_cases to cs) ≡ render_cases cs
  cases_rebase to no_cases = refl
  cases_rebase to (more_cases pat guard body p cs) =
      rw (guard_rebase to guard, render-rebase to body, cases_rebase to cs) refl

  enums_rebase :
      (to : SourcePos) (es : Enumerators) → render_enums (rebase_enums to es) ≡ render_enums es
  enums_rebase to no_enums = refl
  enums_rebase to (more_enums k pat e p b es) = rw (render-rebase to e, enums_rebase to es) refl

  holes_rebase :
      (to : SourcePos) (ls : List Bytes) (ns : Nodes) (specs : List Bytes)
      → render_holes ls (rebase_nodes to ns) specs ≡ render_holes ls ns specs
  holes_rebase to ls no_nodes specs = refl
  holes_rebase to ls (more_nodes n ns) specs =
      rw (render-rebase to n, holes_rebase to (tail_texts ls) ns (tail_texts specs)) refl

  shape_rebase : (to : SourcePos) (s : Shape) → render_shape (rebase_shape to s) ≡ render_shape s
  shape_rebase to (int_lit v f d b) = refl
  shape_rebase to (float_lit v t) = refl
  shape_rebase to (string_lit v) = refl
  shape_rebase to (char_lit v) = refl
  shape_rebase to (bool_lit v) = refl
  shape_rebase to null_lit = refl
  shape_rebase to unit_lit = refl
  shape_rebase to (interp_string i ls args specs) = rw (holes_rebase to ls args specs) refl
  shape_rebase to (ident i) = refl
  shape_rebase to (select q m) = rw (render-rebase to q) refl
  shape_rebase to (apply fn args b w) = rw (render-rebase to fn, children_rebase to args) refl
  shape_rebase to (type_apply fn ts) = rw (render-rebase to fn) refl
  shape_rebase to (infix_op l op r) = rw (render-rebase to l, render-rebase to r) refl
  shape_rebase to (prefix_op op e) = rw (render-rebase to e) refl
  shape_rebase to (assign t v) = rw (render-rebase to t, render-rebase to v) refl
  shape_rebase to (if_expr c t e) =
      rw (render-rebase to c, render-rebase to t, spaced_rebase to e) refl
  shape_rebase to (while_loop c b) = rw (render-rebase to c, render-rebase to b) refl
  shape_rebase to (return_expr v) = rw (spaced_rebase to v) refl
  shape_rebase to (block stats d) = rw (children_rebase to stats) refl
  shape_rebase to (lambda ps body r c) = rw (params_rebase to ps, render-rebase to body) refl
  shape_rebase to (typed_expr e t) = rw (render-rebase to e) refl
  shape_rebase to (parens e) = rw (render-rebase to e) refl
  shape_rebase to (tuple_expr es) = rw (children_rebase to es) refl
  shape_rebase to (splice e) = rw (render-rebase to e) refl
  shape_rebase to (named_arg m v) = rw (render-rebase to v) refl
  shape_rebase to (val_def i rhs no_pattern) = rw (spaced_rebase to rhs) refl
  shape_rebase to (val_def i rhs (the_pattern p)) = rw (ptr_rebase to rhs) refl
  shape_rebase to (def_def i ls body) =
      rw (lists_rebase to ls, some_list_rebase to ls, spaced_rebase to body) refl
  shape_rebase to (import_stat i) = refl
  shape_rebase to (template_def i ps parents body cs) =
      rw
        (
          class_params_rebase to ps,
          parents_rebase to parents,
          some_parent_rebase to parents,
          children_rebase to body,
        )
        refl
  shape_rebase to (new_expr t args b) = rw (children_rebase to args) refl
  shape_rebase to (match_expr s cs) = rw (render-rebase to s, cases_rebase to cs) refl
  shape_rebase to (for_expr es body y) = rw (enums_rebase to es, render-rebase to body) refl
  shape_rebase to (try_expr b cs f) =
      rw (render-rebase to b, cases_rebase to cs, finally_rebase to f) refl
  shape_rebase to (throw_expr v) = rw (render-rebase to v) refl
  shape_rebase to (super_ref q) = refl
  shape_rebase to (extension_def m t ms) = rw (children_rebase to ms) refl
  shape_rebase to (type_def i) = refl
