-- ===== src/Frontend/Ast/Rebase.antt =====
-- frontend/AST.cpp, `rebase`: every node that is reached through child slots is given one position.
use proto_scala.Frontend.Token.{SourcePos}
use proto_scala.Frontend.Ast.Tree.{
  Node, node, NodePtr, null, ptr, Nodes, no_nodes, more_nodes, Shape, int_lit, float_lit,
  string_lit, char_lit, bool_lit, null_lit, unit_lit, interp_string, ident, select, apply,
  type_apply, infix_op, prefix_op, assign, if_expr, while_loop, return_expr, block, lambda,
  typed_expr, parens, tuple_expr, splice, named_arg, val_def, def_def, import_stat, template_def,
  new_expr, match_expr, for_expr, try_expr, throw_expr, super_ref, extension_def, type_def, Params,
  no_params, more_params, ParamLists, no_lists, more_lists, Parents, no_parents, more_parents,
  EnumCases, no_enum_cases, more_enum_cases, Cases, no_cases, more_cases, Enumerators, no_enums,
  more_enums,
}

unfoldable mutual
  pub rebase : SourcePos → Node → Node
  rebase to (node p s) = node to (rebase_shape to s)

  pub rebase_ptr : SourcePos → NodePtr → NodePtr
  rebase_ptr to null = null
  rebase_ptr to (ptr n) = ptr (rebase to n)

  pub rebase_nodes : SourcePos → Nodes → Nodes
  rebase_nodes to no_nodes = no_nodes
  rebase_nodes to (more_nodes n ns) = more_nodes (rebase to n) (rebase_nodes to ns)

  pub rebase_params : SourcePos → Params → Params
  rebase_params to no_params = no_params
  rebase_params to (more_params i d ps) = more_params i (rebase_ptr to d) (rebase_params to ps)

  pub rebase_lists : SourcePos → ParamLists → ParamLists
  rebase_lists to no_lists = no_lists
  rebase_lists to (more_lists ps ls) = more_lists (rebase_params to ps) (rebase_lists to ls)

  pub rebase_parents : SourcePos → Parents → Parents
  rebase_parents to no_parents = no_parents
  rebase_parents to (more_parents t args b p ps) =
      more_parents t (rebase_nodes to args) b p (rebase_parents to ps)

  pub rebase_enum_cases : SourcePos → EnumCases → EnumCases
  rebase_enum_cases to no_enum_cases = no_enum_cases
  rebase_enum_cases to (more_enum_cases n ps args b c p cs) =
      more_enum_cases n (rebase_params to ps) (rebase_nodes to args) b c p (rebase_enum_cases to cs)

  pub rebase_cases : SourcePos → Cases → Cases
  rebase_cases to no_cases = no_cases
  rebase_cases to (more_cases pat guard body p cs) =
      more_cases pat (rebase_ptr to guard) (rebase to body) p (rebase_cases to cs)

  pub rebase_enums : SourcePos → Enumerators → Enumerators
  rebase_enums to no_enums = no_enums
  rebase_enums to (more_enums k pat e p b es) =
      more_enums k pat (rebase to e) p b (rebase_enums to es)

  pub rebase_shape : SourcePos → Shape → Shape
  rebase_shape to (int_lit v f d b) = int_lit v f d b
  rebase_shape to (float_lit v t) = float_lit v t
  rebase_shape to (string_lit v) = string_lit v
  rebase_shape to (char_lit v) = char_lit v
  rebase_shape to (bool_lit v) = bool_lit v
  rebase_shape to null_lit = null_lit
  rebase_shape to unit_lit = unit_lit
  rebase_shape to (interp_string i ls args specs) = interp_string i ls (rebase_nodes to args) specs
  rebase_shape to (ident name) = ident name
  rebase_shape to (select q name) = select (rebase to q) name
  rebase_shape to (apply fn args b w) = apply (rebase to fn) (rebase_nodes to args) b w
  rebase_shape to (type_apply fn ts) = type_apply (rebase to fn) ts
  rebase_shape to (infix_op l op r) = infix_op (rebase to l) op (rebase to r)
  rebase_shape to (prefix_op op e) = prefix_op op (rebase to e)
  rebase_shape to (assign t v) = assign (rebase to t) (rebase to v)
  rebase_shape to (if_expr c t e) = if_expr (rebase to c) (rebase to t) (rebase_ptr to e)
  rebase_shape to (while_loop c b) = while_loop (rebase to c) (rebase to b)
  rebase_shape to (return_expr v) = return_expr (rebase_ptr to v)
  rebase_shape to (block stats d) = block (rebase_nodes to stats) d
  rebase_shape to (lambda ps body r c) = lambda (rebase_params to ps) (rebase to body) r c
  rebase_shape to (typed_expr e t) = typed_expr (rebase to e) t
  rebase_shape to (parens e) = parens (rebase to e)
  rebase_shape to (tuple_expr es) = tuple_expr (rebase_nodes to es)
  rebase_shape to (splice e) = splice (rebase to e)
  rebase_shape to (named_arg n v) = named_arg n (rebase to v)
  rebase_shape to (val_def i rhs pat) = val_def i (rebase_ptr to rhs) pat
  rebase_shape to (def_def i ls body) = def_def i (rebase_lists to ls) (rebase_ptr to body)
  rebase_shape to (import_stat i) = import_stat i
  rebase_shape to (template_def i ps parents body cs) =
      template_def i (rebase_params to ps) (rebase_parents to parents) (rebase_nodes to body)
        (rebase_enum_cases to cs)
  rebase_shape to (new_expr t args b) = new_expr t (rebase_nodes to args) b
  rebase_shape to (match_expr s cs) = match_expr (rebase to s) (rebase_cases to cs)
  rebase_shape to (for_expr es body y) = for_expr (rebase_enums to es) (rebase to body) y
  rebase_shape to (try_expr b cs f) = try_expr (rebase to b) (rebase_cases to cs) (rebase_ptr to f)
  rebase_shape to (throw_expr v) = throw_expr (rebase to v)
  rebase_shape to (super_ref q) = super_ref q
  rebase_shape to (extension_def n t ms) = extension_def n t (rebase_nodes to ms)
  rebase_shape to (type_def i) = type_def i
