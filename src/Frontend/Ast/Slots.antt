-- ===== src/Frontend/Ast/Slots.antt =====
-- frontend/AST.cpp, `eachChildSlot` and `releaseChildren`: the children of a node in order, and every
-- node of a tree.
use proto_scala.Common.{List, [], ◌∷◌, ◌++◌}
use proto_scala.Frontend.Ast.Tree.{
  Node, node, NodePtr, null, ptr, Nodes, no_nodes, more_nodes, Shape, interp_string, select, apply,
  type_apply, infix_op, prefix_op, assign, if_expr, while_loop, return_expr, block, lambda,
  typed_expr, parens, tuple_expr, splice, named_arg, val_def, def_def, template_def, new_expr,
  match_expr, for_expr, try_expr, throw_expr, extension_def, Params, no_params, more_params,
  ParamLists, no_lists, more_lists, Parents, no_parents, more_parents, EnumCases, no_enum_cases,
  more_enum_cases, Cases, no_cases, more_cases, Enumerators, no_enums, more_enums,
}

abbrev pub node_list : Nodes → List Node
node_list no_nodes = []
node_list (more_nodes n ns) = n ∷ node_list ns

abbrev pub ptr_list : NodePtr → List Node
ptr_list null = []
ptr_list (ptr n) = n ∷ []

-- `takeParams`: the defaults.
abbrev pub param_list : Params → List Node
param_list no_params = []
param_list (more_params i d ps) = ptr_list d ++ param_list ps

abbrev pub params_list : ParamLists → List Node
params_list no_lists = []
params_list (more_lists ps ls) = param_list ps ++ params_list ls

abbrev pub parent_list : Parents → List Node
parent_list no_parents = []
parent_list (more_parents t args b p ps) = node_list args ++ parent_list ps

abbrev pub enum_case_list : EnumCases → List Node
enum_case_list no_enum_cases = []
enum_case_list (more_enum_cases n ps args b c p cs) =
    param_list ps ++ (node_list args ++ enum_case_list cs)

abbrev pub case_list : Cases → List Node
case_list no_cases = []
case_list (more_cases pat guard body p cs) = ptr_list guard ++ (body ∷ case_list cs)

abbrev pub enum_list : Enumerators → List Node
enum_list no_enums = []
enum_list (more_enums k pat e p b es) = e ∷ enum_list es

unfoldable pub release_children : Node → List Node
release_children (node p (interp_string i ls args specs)) = node_list args
release_children (node p (select q name)) = q ∷ []
release_children (node p (apply fn args b w)) = fn ∷ node_list args
release_children (node p (type_apply fn ts)) = fn ∷ []
release_children (node p (infix_op l op r)) = l ∷ r ∷ []
release_children (node p (prefix_op op e)) = e ∷ []
release_children (node p (assign t v)) = t ∷ v ∷ []
release_children (node p (if_expr c t e)) = c ∷ t ∷ ptr_list e
release_children (node p (while_loop c b)) = c ∷ b ∷ []
release_children (node p (return_expr v)) = ptr_list v
release_children (node p (block stats d)) = node_list stats
release_children (node p (lambda ps body r c)) = param_list ps ++ (body ∷ [])
release_children (node p (typed_expr e t)) = e ∷ []
release_children (node p (parens e)) = e ∷ []
release_children (node p (tuple_expr es)) = node_list es
release_children (node p (splice e)) = e ∷ []
release_children (node p (named_arg n v)) = v ∷ []
release_children (node p (val_def i rhs pat)) = ptr_list rhs
release_children (node p (def_def i ls body)) = params_list ls ++ ptr_list body
release_children (node p (template_def i ps parents body cs)) =
    param_list ps ++ (parent_list parents ++ (node_list body ++ enum_case_list cs))
release_children (node p (new_expr t args b)) = node_list args
release_children (node p (match_expr s cs)) = s ∷ case_list cs
release_children (node p (for_expr es body y)) = enum_list es ++ (body ∷ [])
release_children (node p (try_expr b cs f)) = b ∷ (case_list cs ++ ptr_list f)
release_children (node p (throw_expr v)) = v ∷ []
release_children (node p (extension_def n t ms)) = node_list ms
release_children (node p s) = []

-- Every node of a tree that is reached through child slots, each before those below it.
unfoldable mutual
  pub all_nodes : Node → List Node
  all_nodes (node p s) = node p s ∷ below s

  pub all_of : Nodes → List Node
  all_of no_nodes = []
  all_of (more_nodes n ns) = all_nodes n ++ all_of ns

  pub all_of_ptr : NodePtr → List Node
  all_of_ptr null = []
  all_of_ptr (ptr n) = all_nodes n

  pub all_of_params : Params → List Node
  all_of_params no_params = []
  all_of_params (more_params i d ps) = all_of_ptr d ++ all_of_params ps

  pub all_of_lists : ParamLists → List Node
  all_of_lists no_lists = []
  all_of_lists (more_lists ps ls) = all_of_params ps ++ all_of_lists ls

  pub all_of_parents : Parents → List Node
  all_of_parents no_parents = []
  all_of_parents (more_parents t args b p ps) = all_of args ++ all_of_parents ps

  pub all_of_enum_cases : EnumCases → List Node
  all_of_enum_cases no_enum_cases = []
  all_of_enum_cases (more_enum_cases n ps args b c p cs) =
      all_of_params ps ++ (all_of args ++ all_of_enum_cases cs)

  pub all_of_cases : Cases → List Node
  all_of_cases no_cases = []
  all_of_cases (more_cases pat guard body p cs) =
      all_of_ptr guard ++ (all_nodes body ++ all_of_cases cs)

  pub all_of_enums : Enumerators → List Node
  all_of_enums no_enums = []
  all_of_enums (more_enums k pat e p b es) = all_nodes e ++ all_of_enums es

  pub below : Shape → List Node
  below (interp_string i ls args specs) = all_of args
  below (select q name) = all_nodes q
  below (apply fn args b w) = all_nodes fn ++ all_of args
  below (type_apply fn ts) = all_nodes fn
  below (infix_op l op r) = all_nodes l ++ all_nodes r
  below (prefix_op op e) = all_nodes e
  below (assign t v) = all_nodes t ++ all_nodes v
  below (if_expr c t e) = all_nodes c ++ (all_nodes t ++ all_of_ptr e)
  below (while_loop c b) = all_nodes c ++ all_nodes b
  below (return_expr v) = all_of_ptr v
  below (block stats d) = all_of stats
  below (lambda ps body r c) = all_of_params ps ++ all_nodes body
  below (typed_expr e t) = all_nodes e
  below (parens e) = all_nodes e
  below (tuple_expr es) = all_of es
  below (splice e) = all_nodes e
  below (named_arg n v) = all_nodes v
  below (val_def i rhs pat) = all_of_ptr rhs
  below (def_def i ls body) = all_of_lists ls ++ all_of_ptr body
  below (template_def i ps parents body cs) =
      all_of_params ps ++ (all_of_parents parents ++ (all_of body ++ all_of_enum_cases cs))
  below (new_expr t args b) = all_of args
  below (match_expr s cs) = all_nodes s ++ all_of_cases cs
  below (for_expr es body y) = all_of_enums es ++ all_nodes body
  below (try_expr b cs f) = all_nodes b ++ (all_of_cases cs ++ all_of_ptr f)
  below (throw_expr v) = all_nodes v
  below (extension_def n t ms) = all_of ms
  below s = []
