-- ===== src/Compiler/TailRec/Sites.antt =====
-- compiler/CompileTailRec.cpp: `isStatementOnly`, `collectTail` and `collectReturns`. The source keeps the
-- addresses of the calls; here a call is named by its path from the node that the search begins at.
use proto_scala.Common.{
  Bool, true, false, ◌||◌, if◌then◌else◌, List, [], ◌∷◌, ◌++◌, Bytes, codes, bytes_eq,
}
use proto_scala.Frontend.Ast.Tree.{
  Node, node, NodePtr, null, ptr, Nodes, no_nodes, more_nodes, interp_string, select, apply,
  type_apply, infix_op, prefix_op, assign, if_expr, while_loop, return_expr, block, typed_expr,
  parens, tuple_expr, splice, named_arg, val_def, def_def, import_stat, template_def, new_expr,
  match_expr, try_expr, throw_expr, extension_def, type_def, Cases, no_cases, more_cases,
}

-- A step from a node to a part of it, along a list of parts (`first`, `rest`), or into a case.
pub data Slot : Type 0 where
  fn args qualifier lhs rhs operand target value_of cond thenp elsep body : Slot
  stats expr elems scrutinee arms finally_part first rest guard_of arm_body : Slot

abbrev pub NodePath : Type 0
NodePath = List Slot

abbrev pub under : Slot → List NodePath → List NodePath
under s [] = []
under s (p ∷ ps) = (s ∷ p) ∷ under s ps

unfoldable pub is_statement_only : Node → Bool
is_statement_only (node p (val_def i r pat)) = true
is_statement_only (node p (def_def i ls b)) = true
is_statement_only (node p (import_stat i)) = true
is_statement_only (node p (type_def i)) = true
is_statement_only (node p (template_def i ps _ b cs)) = true
is_statement_only (node p (extension_def m t ms)) = true
is_statement_only (node p s) = false

-- `op == "&&" || op == "||"`
abbrev pub is_logical : Bytes → Bool
is_logical op = bytes_eq op (codes "&&") || bytes_eq op (codes "||")

unfoldable mutual
  unfolding is_statement_only

  pub collect_tail : Node → List NodePath
  collect_tail (node p (if_expr c t e)) =
      under thenp (collect_tail t) ++ under elsep (collect_tail_ptr e)
  collect_tail (node p (block ss true)) = under stats (collect_tail_front ss)
  collect_tail (node p (block ss false)) = under stats (collect_tail_last ss)
  collect_tail (node p (match_expr s cs)) = under arms (collect_tail_cases cs)
  collect_tail (node p (try_expr b cs (ptr f))) = []
  collect_tail (node p (try_expr b cs null)) = under arms (collect_tail_cases cs)
  collect_tail (node p (apply (node r (select q m)) xs b true)) =
      under fn (under qualifier (collect_tail q))
  collect_tail (node p (apply (node r (select q m)) (more_nodes a no_nodes) b false)) =
      if is_logical m then under args (under first (collect_tail a)) else [] ∷ []
  collect_tail (node p (apply f xs b w)) = [] ∷ []
  collect_tail (node p s) = []

  pub collect_tail_ptr : NodePtr → List NodePath
  collect_tail_ptr null = []
  collect_tail_ptr (ptr n) = collect_tail n

  pub collect_tail_front : Nodes → List NodePath
  collect_tail_front no_nodes = []
  collect_tail_front (more_nodes n ns) = under first (collect_tail n)

  pub collect_tail_last : Nodes → List NodePath
  collect_tail_last no_nodes = []
  collect_tail_last (more_nodes n no_nodes) =
      if is_statement_only n then [] else under first (collect_tail n)
  collect_tail_last (more_nodes n (more_nodes m ns)) =
      under rest (collect_tail_last (more_nodes m ns))

  pub collect_tail_cases : Cases → List NodePath
  collect_tail_cases no_cases = []
  collect_tail_cases (more_cases pat g b p cs) =
      under arm_body (collect_tail b) ++ under rest (collect_tail_cases cs)

abbrev pub is_ptr : NodePtr → Bool
is_ptr null = false
is_ptr (ptr n) = true

-- Where the flag says that the node is guarded, a `return` in it is none in tail position.
unfoldable mutual
  unfolding collect_tail collect_tail_ptr

  pub collect_returns : Bool → Node → List NodePath
  collect_returns g (node p (return_expr v)) =
      (if g then [] else under value_of (collect_tail_ptr v))
      ++ under value_of (collect_returns_ptr g v)
  collect_returns g (node p (try_expr b cs f)) =
      under body (collect_returns true b)
      ++ (under arms (collect_returns_cases true (g || is_ptr f) cs)
          ++ under finally_part (collect_returns_ptr true f))
  collect_returns g (node p (match_expr s cs)) =
      under scrutinee (collect_returns g s) ++ under arms (collect_returns_cases g g cs)
  collect_returns g (node p (val_def i r pat)) =
      if i.is_lazy then [] else under rhs (collect_returns_ptr g r)
  collect_returns g (node p (interp_string i ls xs specs)) = under args (collect_returns_nodes g xs)
  collect_returns g (node p (select q m)) = under qualifier (collect_returns g q)
  collect_returns g (node p (apply f xs b w)) =
      under fn (collect_returns g f) ++ (under args (collect_returns_nodes g xs))
  collect_returns g (node p (type_apply f ts)) = under fn (collect_returns g f)
  collect_returns g (node p (infix_op l op r)) =
      under lhs (collect_returns g l) ++ (under rhs (collect_returns g r))
  collect_returns g (node p (prefix_op op e)) = under operand (collect_returns g e)
  collect_returns g (node p (assign t v)) =
      under target (collect_returns g t) ++ (under value_of (collect_returns g v))
  collect_returns g (node p (if_expr c t e)) =
      under cond (collect_returns g c)
      ++ (under thenp (collect_returns g t) ++ (under elsep (collect_returns_ptr g e)))
  collect_returns g (node p (while_loop c b)) =
      under cond (collect_returns g c) ++ (under body (collect_returns g b))
  collect_returns g (node p (block ss d)) = under stats (collect_returns_nodes g ss)
  collect_returns g (node p (typed_expr e t)) = under expr (collect_returns g e)
  collect_returns g (node p (parens e)) = under expr (collect_returns g e)
  collect_returns g (node p (tuple_expr es)) = under elems (collect_returns_nodes g es)
  collect_returns g (node p (splice e)) = under expr (collect_returns g e)
  collect_returns g (node p (named_arg m v)) = under value_of (collect_returns g v)
  collect_returns g (node p (new_expr t xs b)) = under args (collect_returns_nodes g xs)
  collect_returns g (node p (throw_expr v)) = under value_of (collect_returns g v)
  collect_returns g (node p s) = []

  pub collect_returns_ptr : Bool → NodePtr → List NodePath
  collect_returns_ptr g null = []
  collect_returns_ptr g (ptr n) = collect_returns g n

  pub collect_returns_nodes : Bool → Nodes → List NodePath
  collect_returns_nodes g no_nodes = []
  collect_returns_nodes g (more_nodes n ns) =
      under first (collect_returns g n) ++ under rest (collect_returns_nodes g ns)

  -- The flags of the guards and of the bodies of the cases.
  pub collect_returns_cases : Bool → Bool → Cases → List NodePath
  collect_returns_cases g h no_cases = []
  collect_returns_cases g h (more_cases pat guard b p cs) =
      under guard_of (collect_returns_ptr g guard)
      ++ (under arm_body (collect_returns h b) ++ under rest (collect_returns_cases g h cs))

-- `beginTailRec`: the sites of a method's body.
unfoldable pub sites : Node → List NodePath
unfolding collect_tail collect_returns
sites b = collect_tail b ++ collect_returns false b
