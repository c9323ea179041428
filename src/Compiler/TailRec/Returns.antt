-- ===== src/Compiler/TailRec/Returns.antt =====
-- compiler/CompileTailRec.cpp: the values of the `return`s of a method, and its sites in all.
use proto_scala.Common.{
  ◌≡◌, sym, subst, Bool, true, false, Option, List, [], ◌∷◌, ◌++◌, All-append, if-holds,
}
use proto_scala.Frontend.Ast.Tree.{
  Node, node, NodePtr, null, ptr, Nodes, no_nodes, more_nodes, int_lit, float_lit, string_lit,
  char_lit, bool_lit, null_lit, unit_lit, interp_string, ident, select, apply, type_apply, infix_op,
  prefix_op, assign, if_expr, while_loop, return_expr, block, typed_expr, parens, tuple_expr,
  splice, named_arg, val_def, new_expr, match_expr, try_expr, throw_expr, Cases, no_cases,
  more_cases,
}
use proto_scala.Compiler.TailRec.Sites.{
  fn, args, qualifier, lhs, rhs, operand, target, value_of, cond, thenp, elsep, body, stats, expr,
  elems, scrutinee, arms, finally_part, first, rest, guard_of, arm_body, NodePath, is_ptr, under,
  collect_tail_ptr, collect_returns, collect_returns_ptr, collect_returns_nodes,
  collect_returns_cases,
}
use proto_scala.Compiler.TailRec.Follow.{mark, follow, follow_ptr, follow_nodes, follow_cases}
use proto_scala.Compiler.TailRec.Laws.{
  is_call, IsSite, under-IsSite, mark-is_call, tail_ptr-IsSite, guarded-none, guarded_ptr-none,
}

module _ (at : NodePath → Option (Bool × Node)) where
  join : (us ts : List NodePath) → IsSite at us → IsSite at ts → IsSite at (us ++ ts)
  join us ts = All-append (λ w. is_call (at w) ≡ true) us ts

  marked : (ways : List NodePath) → IsSite at ways → IsSite (λ w. mark false (at w)) ways
  marked [] h = tt
  marked (w ∷ ways) h = (mark-is_call (at w) h.0, marked ways h.1)

-- A part that is guarded has no site, and one that is not has those that it has alone.
flagged-IsSite :
    (g : Bool) (n : Node)
    → IsSite (λ w. follow w n) (collect_returns false n)
    → IsSite (λ w. mark g (follow w n)) (collect_returns g n)
flagged-IsSite true n h = subst (IsSite (λ w. mark true (follow w n))) (sym (guarded-none n)) tt
flagged-IsSite false n h = marked (λ w. follow w n) (collect_returns false n) h

flagged_ptr-IsSite :
    (g : Bool) (n : NodePtr)
    → IsSite (λ w. follow_ptr w n) (collect_returns_ptr false n)
    → IsSite (λ w. mark g (follow_ptr w n)) (collect_returns_ptr g n)
flagged_ptr-IsSite true n h =
    subst (IsSite (λ w. mark true (follow_ptr w n))) (sym (guarded_ptr-none n)) tt
flagged_ptr-IsSite false n h = marked (λ w. follow_ptr w n) (collect_returns_ptr false n) h

mutual
  unfolding collect_returns collect_returns_ptr collect_returns_nodes collect_returns_cases follow
      follow_ptr follow_nodes follow_cases

  returns-IsSite : (n : Node) → IsSite (λ w. follow w n) (collect_returns false n)
  returns-IsSite (node p (int_lit v f d b)) = tt
  returns-IsSite (node p (float_lit v t)) = tt
  returns-IsSite (node p (string_lit v)) = tt
  returns-IsSite (node p (char_lit v)) = tt
  returns-IsSite (node p (bool_lit v)) = tt
  returns-IsSite (node p null_lit) = tt
  returns-IsSite (node p unit_lit) = tt
  returns-IsSite (node p (ident i)) = tt
  returns-IsSite (node p (return_expr v)) =
      join (λ w. follow w (node p (return_expr v))) (under value_of (collect_tail_ptr v))
        (under value_of (collect_returns_ptr false v))
        (under-IsSite value_of (λ w. follow w (node p (return_expr v))) (λ w. follow_ptr w v)
          (collect_tail_ptr v) (λ w h. h) (tail_ptr-IsSite v))
        (under-IsSite value_of (λ w. follow w (node p (return_expr v))) (λ w. follow_ptr w v)
          (collect_returns_ptr false v) (λ w h. h) (returns_ptr-IsSite v))
  returns-IsSite (node p (try_expr b cs f)) =
      join (λ w. follow w (node p (try_expr b cs f))) (under body (collect_returns true b))
        (under arms (collect_returns_cases true (is_ptr f) cs)
          ++ (under finally_part (collect_returns_ptr true f)))
        (under-IsSite body (λ w. follow w (node p (try_expr b cs f))) (λ w. mark true (follow w b))
          (collect_returns true b) (λ w h. h) (flagged-IsSite true b (returns-IsSite b)))
        (join (λ w. follow w (node p (try_expr b cs f)))
          (under arms (collect_returns_cases true (is_ptr f) cs))
          (under finally_part (collect_returns_ptr true f))
          (under-IsSite arms (λ w. follow w (node p (try_expr b cs f)))
            (λ w. follow_cases true (is_ptr f) w cs) (collect_returns_cases true (is_ptr f) cs)
            (λ w h. h) (returns_cases-IsSite true (is_ptr f) cs))
          (under-IsSite finally_part (λ w. follow w (node p (try_expr b cs f)))
            (λ w. mark true (follow_ptr w f)) (collect_returns_ptr true f) (λ w h. h)
            (flagged_ptr-IsSite true f (returns_ptr-IsSite f))))
  returns-IsSite (node p (match_expr s cs)) =
      join (λ w. follow w (node p (match_expr s cs))) (under scrutinee (collect_returns false s))
        (under arms (collect_returns_cases false false cs))
        (under-IsSite scrutinee (λ w. follow w (node p (match_expr s cs))) (λ w. follow w s)
          (collect_returns false s) (λ w h. h) (returns-IsSite s))
        (under-IsSite arms (λ w. follow w (node p (match_expr s cs)))
          (λ w. follow_cases false false w cs) (collect_returns_cases false false cs) (λ w h. h)
          (returns_cases-IsSite false false cs))
  returns-IsSite (node p (val_def i r pat)) =
      if-holds (IsSite (λ w. follow w (node p (val_def i r pat)))) i.is_lazy (λ e. tt)
        (λ e.
          (under-IsSite rhs (λ w. follow w (node p (val_def i r pat))) (λ w. follow_ptr w r)
            (collect_returns_ptr false r) (λ w h. h) (returns_ptr-IsSite r)))
  returns-IsSite (node p (interp_string i ls xs specs)) =
      under-IsSite args (λ w. follow w (node p (interp_string i ls xs specs)))
        (λ w. follow_nodes w xs) (collect_returns_nodes false xs) (λ w h. h)
        (returns_nodes-IsSite xs)
  returns-IsSite (node p (select q m)) =
      under-IsSite qualifier (λ w. follow w (node p (select q m))) (λ w. follow w q)
        (collect_returns false q) (λ w h. h) (returns-IsSite q)
  returns-IsSite (node p (apply f xs b d)) =
      join (λ w. follow w (node p (apply f xs b d))) (under fn (collect_returns false f))
        (under args (collect_returns_nodes false xs))
        (under-IsSite fn (λ w. follow w (node p (apply f xs b d))) (λ w. follow w f)
          (collect_returns false f) (λ w h. h) (returns-IsSite f))
        (under-IsSite args (λ w. follow w (node p (apply f xs b d))) (λ w. follow_nodes w xs)
          (collect_returns_nodes false xs) (λ w h. h) (returns_nodes-IsSite xs))
  returns-IsSite (node p (type_apply f ts)) =
      under-IsSite fn (λ w. follow w (node p (type_apply f ts))) (λ w. follow w f)
        (collect_returns false f) (λ w h. h) (returns-IsSite f)
  returns-IsSite (node p (infix_op l op r)) =
      join (λ w. follow w (node p (infix_op l op r))) (under lhs (collect_returns false l))
        (under rhs (collect_returns false r))
        (under-IsSite lhs (λ w. follow w (node p (infix_op l op r))) (λ w. follow w l)
          (collect_returns false l) (λ w h. h) (returns-IsSite l))
        (under-IsSite rhs (λ w. follow w (node p (infix_op l op r))) (λ w. follow w r)
          (collect_returns false r) (λ w h. h) (returns-IsSite r))
  returns-IsSite (node p (prefix_op op e)) =
      under-IsSite operand (λ w. follow w (node p (prefix_op op e))) (λ w. follow w e)
        (collect_returns false e) (λ w h. h) (returns-IsSite e)
  returns-IsSite (node p (assign t v)) =
      join (λ w. follow w (node p (assign t v))) (under target (collect_returns false t))
        (under value_of (collect_returns false v))
        (under-IsSite target (λ w. follow w (node p (assign t v))) (λ w. follow w t)
          (collect_returns false t) (λ w h. h) (returns-IsSite t))
        (under-IsSite value_of (λ w. follow w (node p (assign t v))) (λ w. follow w v)
          (collect_returns false v) (λ w h. h) (returns-IsSite v))
  returns-IsSite (node p (if_expr c t e)) =
      join (λ w. follow w (node p (if_expr c t e))) (under cond (collect_returns false c))
        (under thenp (collect_returns false t) ++ (under elsep (collect_returns_ptr false e)))
        (under-IsSite cond (λ w. follow w (node p (if_expr c t e))) (λ w. follow w c)
          (collect_returns false c) (λ w h. h) (returns-IsSite c))
        (join (λ w. follow w (node p (if_expr c t e))) (under thenp (collect_returns false t))
          (under elsep (collect_returns_ptr false e))
          (under-IsSite thenp (λ w. follow w (node p (if_expr c t e))) (λ w. follow w t)
            (collect_returns false t) (λ w h. h) (returns-IsSite t))
          (under-IsSite elsep (λ w. follow w (node p (if_expr c t e))) (λ w. follow_ptr w e)
            (collect_returns_ptr false e) (λ w h. h) (returns_ptr-IsSite e)))
  returns-IsSite (node p (while_loop c b)) =
      join (λ w. follow w (node p (while_loop c b))) (under cond (collect_returns false c))
        (under body (collect_returns false b))
        (under-IsSite cond (λ w. follow w (node p (while_loop c b))) (λ w. follow w c)
          (collect_returns false c) (λ w h. h) (returns-IsSite c))
        (under-IsSite body (λ w. follow w (node p (while_loop c b))) (λ w. follow w b)
          (collect_returns false b) (λ w h. h) (returns-IsSite b))
  returns-IsSite (node p (block ss d)) =
      under-IsSite stats (λ w. follow w (node p (block ss d))) (λ w. follow_nodes w ss)
        (collect_returns_nodes false ss) (λ w h. h) (returns_nodes-IsSite ss)
  returns-IsSite (node p (typed_expr e t)) =
      under-IsSite expr (λ w. follow w (node p (typed_expr e t))) (λ w. follow w e)
        (collect_returns false e) (λ w h. h) (returns-IsSite e)
  returns-IsSite (node p (parens e)) =
      under-IsSite expr (λ w. follow w (node p (parens e))) (λ w. follow w e)
        (collect_returns false e) (λ w h. h) (returns-IsSite e)
  returns-IsSite (node p (tuple_expr es)) =
      under-IsSite elems (λ w. follow w (node p (tuple_expr es))) (λ w. follow_nodes w es)
        (collect_returns_nodes false es) (λ w h. h) (returns_nodes-IsSite es)
  returns-IsSite (node p (splice e)) =
      under-IsSite expr (λ w. follow w (node p (splice e))) (λ w. follow w e)
        (collect_returns false e) (λ w h. h) (returns-IsSite e)
  returns-IsSite (node p (named_arg m v)) =
      under-IsSite value_of (λ w. follow w (node p (named_arg m v))) (λ w. follow w v)
        (collect_returns false v) (λ w h. h) (returns-IsSite v)
  returns-IsSite (node p (new_expr t xs b)) =
      under-IsSite args (λ w. follow w (node p (new_expr t xs b))) (λ w. follow_nodes w xs)
        (collect_returns_nodes false xs) (λ w h. h) (returns_nodes-IsSite xs)
  returns-IsSite (node p (throw_expr v)) =
      under-IsSite value_of (λ w. follow w (node p (throw_expr v))) (λ w. follow w v)
        (collect_returns false v) (λ w h. h) (returns-IsSite v)
  returns-IsSite (node p s) = tt

  returns_ptr-IsSite : (n : NodePtr) → IsSite (λ w. follow_ptr w n) (collect_returns_ptr false n)
  returns_ptr-IsSite null = tt
  returns_ptr-IsSite (ptr n) = returns-IsSite n

  returns_nodes-IsSite :
      (ns : Nodes) → IsSite (λ w. follow_nodes w ns) (collect_returns_nodes false ns)
  returns_nodes-IsSite no_nodes = tt
  returns_nodes-IsSite (more_nodes n ns) =
      join (λ w. follow_nodes w (more_nodes n ns)) (under first (collect_returns false n))
        (under rest (collect_returns_nodes false ns))
        (under-IsSite first (λ w. follow_nodes w (more_nodes n ns)) (λ w. follow w n)
          (collect_returns false n) (λ w h. h) (returns-IsSite n))
        (under-IsSite rest (λ w. follow_nodes w (more_nodes n ns)) (λ w. follow_nodes w ns)
          (collect_returns_nodes false ns) (λ w h. h) (returns_nodes-IsSite ns))

  returns_cases-IsSite :
      (g h : Bool) (cs : Cases) → IsSite (λ w. follow_cases g h w cs) (collect_returns_cases g h cs)
  returns_cases-IsSite g h no_cases = tt
  returns_cases-IsSite g h (more_cases pat d b p cs) =
      join (λ w. follow_cases g h w (more_cases pat d b p cs))
        (under guard_of (collect_returns_ptr g d))
        (under arm_body (collect_returns h b) ++ under rest (collect_returns_cases g h cs))
        (under-IsSite guard_of (λ w. follow_cases g h w (more_cases pat d b p cs))
          (λ w. mark g (follow_ptr w d)) (collect_returns_ptr g d) (λ w e. e)
          (flagged_ptr-IsSite g d (returns_ptr-IsSite d)))
        (join (λ w. follow_cases g h w (more_cases pat d b p cs))
          (under arm_body (collect_returns h b)) (under rest (collect_returns_cases g h cs))
          (under-IsSite arm_body (λ w. follow_cases g h w (more_cases pat d b p cs))
            (λ w. mark h (follow w b)) (collect_returns h b) (λ w e. e)
            (flagged-IsSite h b (returns-IsSite b)))
          (under-IsSite rest (λ w. follow_cases g h w (more_cases pat d b p cs))
            (λ w. follow_cases g h w cs) (collect_returns_cases g h cs) (λ w e. e)
            (returns_cases-IsSite g h cs)))
