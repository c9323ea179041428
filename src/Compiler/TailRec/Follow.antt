-- ===== src/Compiler/TailRec/Follow.antt =====
-- compiler/CompileTailRec.cpp: where a site's path leads, and what it goes through.
use proto_scala.Common.{Bool, true, false, ◌||◌, Option, none, some, [], ◌∷◌}
use proto_scala.Frontend.Ast.Tree.{
  Node, node, NodePtr, null, ptr, Nodes, more_nodes, interp_string, select, apply, type_apply,
  infix_op, prefix_op, assign, if_expr, while_loop, return_expr, block, typed_expr, parens,
  tuple_expr, splice, named_arg, val_def, new_expr, match_expr, try_expr, throw_expr, Cases,
  more_cases,
}
use proto_scala.Compiler.TailRec.Sites.{
  fn, args, qualifier, lhs, rhs, operand, target, value_of, cond, thenp, elsep, body, stats, expr,
  elems, scrutinee, arms, finally_part, first, rest, guard_of, arm_body, NodePath, is_ptr,
}

-- The node at the end of a path, and whether the path goes through code after which more must run:
-- the body of a `try`, a guard of its cases, its `finally` part, or, where there is one, a case of it.
abbrev pub mark : Bool → Option (Bool × Node) → Option (Bool × Node)
mark g none = none
mark g (some (h, n)) = some (g || h, n)

unfoldable mutual
  pub follow : NodePath → Node → Option (Bool × Node)
  follow [] n = some (false, n)
  follow (args ∷ way) (node p (interp_string i ls xs specs)) = follow_nodes way xs
  follow (qualifier ∷ way) (node p (select q m)) = follow way q
  follow (fn ∷ way) (node p (apply f xs b w)) = follow way f
  follow (args ∷ way) (node p (apply f xs b w)) = follow_nodes way xs
  follow (fn ∷ way) (node p (type_apply f ts)) = follow way f
  follow (lhs ∷ way) (node p (infix_op l op r)) = follow way l
  follow (rhs ∷ way) (node p (infix_op l op r)) = follow way r
  follow (operand ∷ way) (node p (prefix_op op e)) = follow way e
  follow (target ∷ way) (node p (assign t v)) = follow way t
  follow (value_of ∷ way) (node p (assign t v)) = follow way v
  follow (cond ∷ way) (node p (if_expr c t e)) = follow way c
  follow (thenp ∷ way) (node p (if_expr c t e)) = follow way t
  follow (elsep ∷ way) (node p (if_expr c t e)) = follow_ptr way e
  follow (cond ∷ way) (node p (while_loop c b)) = follow way c
  follow (body ∷ way) (node p (while_loop c b)) = follow way b
  follow (stats ∷ way) (node p (block ss d)) = follow_nodes way ss
  follow (expr ∷ way) (node p (typed_expr e t)) = follow way e
  follow (expr ∷ way) (node p (parens e)) = follow way e
  follow (elems ∷ way) (node p (tuple_expr es)) = follow_nodes way es
  follow (expr ∷ way) (node p (splice e)) = follow way e
  follow (value_of ∷ way) (node p (named_arg m v)) = follow way v
  follow (args ∷ way) (node p (new_expr t xs b)) = follow_nodes way xs
  follow (value_of ∷ way) (node p (throw_expr v)) = follow way v
  follow (value_of ∷ way) (node p (return_expr v)) = follow_ptr way v
  follow (rhs ∷ way) (node p (val_def i r pat)) = follow_ptr way r
  follow (scrutinee ∷ way) (node p (match_expr s cs)) = follow way s
  follow (arms ∷ way) (node p (match_expr s cs)) = follow_cases false false way cs
  follow (body ∷ way) (node p (try_expr b cs f)) = mark true (follow way b)
  follow (arms ∷ way) (node p (try_expr b cs f)) = follow_cases true (is_ptr f) way cs
  follow (finally_part ∷ way) (node p (try_expr b cs f)) = mark true (follow_ptr way f)
  follow (s ∷ way) n = none

  pub follow_ptr : NodePath → NodePtr → Option (Bool × Node)
  follow_ptr way null = none
  follow_ptr way (ptr n) = follow way n

  pub follow_nodes : NodePath → Nodes → Option (Bool × Node)
  follow_nodes (first ∷ way) (more_nodes n ns) = follow way n
  follow_nodes (rest ∷ way) (more_nodes n ns) = follow_nodes way ns
  follow_nodes way ns = none

  -- The flags say whether the guards and the bodies of the cases are such code.
  pub follow_cases : Bool → Bool → NodePath → Cases → Option (Bool × Node)
  follow_cases g h (guard_of ∷ way) (more_cases pat d b p cs) = mark g (follow_ptr way d)
  follow_cases g h (arm_body ∷ way) (more_cases pat d b p cs) = mark h (follow way b)
  follow_cases g h (rest ∷ way) (more_cases pat d b p cs) = follow_cases g h way cs
  follow_cases g h way cs = none
