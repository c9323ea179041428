-- ===== src/Frontend/Ast/Forest.antt =====
-- frontend/AST.cpp: the child slots of a node lead to all nodes below it.
use proto_scala.Common.{◌≡◌, refl, sym, List, [], ◌∷◌, ◌++◌, append-nil, append_assoc}
use proto_scala.Frontend.Ast.Tree.{
  Node, node, NodePtr, null, ptr, Nodes, no_nodes, more_nodes, int_lit, float_lit, string_lit,
  char_lit, bool_lit, null_lit, unit_lit, interp_string, ident, import_stat, super_ref, type_def,
  Params, no_params, more_params, ParamLists, no_lists, more_lists, Parents, no_parents,
  more_parents, EnumCases, no_enum_cases, more_enum_cases, Cases, no_cases, more_cases, Enumerators,
  no_enums, more_enums,
}
use proto_scala.Frontend.Ast.Slots.{
  node_list, ptr_list, param_list, params_list, parent_list, enum_case_list, case_list, enum_list,
  release_children, all_nodes, all_of, all_of_ptr, all_of_params, all_of_lists, all_of_parents,
  all_of_enum_cases, all_of_cases, all_of_enums,
}

-- The trees of a list, one behind the other.
abbrev pub forest : List Node → List Node
forest [] = []
forest (n ∷ ns) = all_nodes n ++ forest ns

pub forest-append : (ns ms : List Node) → forest (ns ++ ms) ≡ forest ns ++ forest ms
forest-append [] ms = refl
forest-append (n ∷ ns) ms =
    rw (forest-append ns ms) (sym (append_assoc (all_nodes n) (forest ns) (forest ms)))

forest-node_list : (ns : Nodes) → forest (node_list ns) ≡ all_of ns
unfolding all_of
forest-node_list no_nodes = refl
forest-node_list (more_nodes n ns) = rw (forest-node_list ns) refl

forest-ptr_list : (n : NodePtr) → forest (ptr_list n) ≡ all_of_ptr n
unfolding all_of_ptr
forest-ptr_list null = refl
forest-ptr_list (ptr n) = append-nil (all_nodes n)

forest-param_list : (ps : Params) → forest (param_list ps) ≡ all_of_params ps
unfolding all_of_params
forest-param_list no_params = refl
forest-param_list (more_params i d ps) =
    rw (forest-append (ptr_list d) (param_list ps), forest-ptr_list d, forest-param_list ps) refl

forest-params_list : (ls : ParamLists) → forest (params_list ls) ≡ all_of_lists ls
unfolding all_of_lists
forest-params_list no_lists = refl
forest-params_list (more_lists ps ls) =
    rw (forest-append (param_list ps) (params_list ls), forest-param_list ps, forest-params_list ls)
      refl

forest-parent_list : (ps : Parents) → forest (parent_list ps) ≡ all_of_parents ps
unfolding all_of_parents
forest-parent_list no_parents = refl
forest-parent_list (more_parents t args b p ps) =
    rw
      (
        forest-append (node_list args) (parent_list ps),
        forest-node_list args,
        forest-parent_list ps,
      )
      refl

forest-enum_case_list : (cs : EnumCases) → forest (enum_case_list cs) ≡ all_of_enum_cases cs
unfolding all_of_enum_cases
forest-enum_case_list no_enum_cases = refl
forest-enum_case_list (more_enum_cases n ps args b c p cs) =
    rw
      (
        forest-append (param_list ps) (node_list args ++ enum_case_list cs),
        forest-append (node_list args) (enum_case_list cs),
        forest-param_list ps,
        forest-node_list args,
        forest-enum_case_list cs,
      )
      refl

forest-case_list : (cs : Cases) → forest (case_list cs) ≡ all_of_cases cs
unfolding all_of_cases
forest-case_list no_cases = refl
forest-case_list (more_cases pat guard body p cs) =
    rw
      (
        forest-append (ptr_list guard) (body ∷ case_list cs),
        forest-ptr_list guard,
        forest-case_list cs,
      )
      refl

forest-enum_list : (es : Enumerators) → forest (enum_list es) ≡ all_of_enums es
unfolding all_of_enums
forest-enum_list no_enums = refl
forest-enum_list (more_enums k pat e p b es) = rw (forest-enum_list es) refl

ruleset forests = (
  forest-append, forest-node_list, forest-ptr_list, forest-param_list, forest-params_list,
  forest-parent_list, forest-enum_case_list, forest-case_list, forest-enum_list, append-nil,
)

-- The nodes of a tree are its root and those of its children.
pub forest-release_children : (n : Node) → n ∷ forest (release_children n) ≡ all_nodes n
unfolding all_nodes release_children
forest-release_children (node p (interp_string i ls args specs)) = simp forests
forest-release_children (node p (int_lit v f d b)) = refl
forest-release_children (node p (float_lit v t)) = refl
forest-release_children (node p (string_lit v)) = refl
forest-release_children (node p (char_lit v)) = refl
forest-release_children (node p (bool_lit v)) = refl
forest-release_children (node p (null_lit)) = refl
forest-release_children (node p (unit_lit)) = refl
forest-release_children (node p (ident i)) = refl
forest-release_children (node p (import_stat i)) = refl
forest-release_children (node p (super_ref q)) = refl
forest-release_children (node p (type_def i)) = refl
forest-release_children (node p s) = simp forests
