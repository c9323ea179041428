-- ===== src/Compiler/TailRec/Laws.antt =====
-- compiler/CompileTailRec.cpp: every site is a call, and nothing has to run behind it.
use proto_scala.Common.{
  ◌≡◌, refl, Bool, true, false, if◌then◌else◌, Option, none, some, List, [], ◌∷◌, All, All-append,
  if-holds,
}
use proto_scala.Frontend.Ast.Tree.{
  Node, node, NodePtr, null, ptr, Nodes, no_nodes, more_nodes, int_lit, float_lit, string_lit,
  char_lit, bool_lit, null_lit, unit_lit, interp_string, ident, select, apply, type_apply, infix_op,
  prefix_op, assign, if_expr, while_loop, return_expr, block, typed_expr, parens, tuple_expr,
  splice, named_arg, val_def, new_expr, match_expr, try_expr, throw_expr, Cases, no_cases,
  more_cases,
}
use proto_scala.Compiler.TailRec.Sites.{
  Slot, fn, args, qualifier, thenp, elsep, stats, arms, first, rest, arm_body, NodePath, under,
  is_logical, is_statement_only, collect_tail, collect_tail_ptr, collect_tail_front,
  collect_tail_last, collect_tail_cases, collect_returns, collect_returns_ptr,
  collect_returns_nodes, collect_returns_cases,
}
use proto_scala.Compiler.TailRec.Follow.{mark, follow, follow_ptr, follow_nodes, follow_cases}

-- A path that leads to a call, and through nothing behind which more must run.
abbrev pub is_call : Option (Bool × Node) → Bool
is_call (some (false, node p (apply f xs b w))) = true
is_call o = false

abbrev pub IsSite : (NodePath → Option (Bool × Node)) → List NodePath → Type 0
IsSite at ways = All (λ w. is_call (at w) ≡ true) ways

pub under-IsSite :
    (s : Slot) (at to : NodePath → Option (Bool × Node)) (ways : List NodePath)
    → ((w : NodePath) → is_call (to w) ≡ true → is_call (at (s ∷ w)) ≡ true)
    → IsSite to ways
    → IsSite at (under s ways)
under-IsSite s at to [] f h = tt
under-IsSite s at to (w ∷ ways) f h = (f w h.0, under-IsSite s at to ways f h.1)

pub mark-is_call : (o : Option (Bool × Node)) → is_call o ≡ true → is_call (mark false o) ≡ true
mark-is_call none h = h
mark-is_call (some (g, n)) h = h

mutual
  unfolding collect_tail collect_tail_ptr collect_tail_front collect_tail_last collect_tail_cases
      follow follow_ptr follow_nodes follow_cases

  pub tail-IsSite : (n : Node) → IsSite (λ w. follow w n) (collect_tail n)
  tail-IsSite (node p (if_expr c t e)) =
      All-append (λ w. is_call (follow w (node p (if_expr c t e))) ≡ true)
        (under thenp (collect_tail t)) (under elsep (collect_tail_ptr e))
        (under-IsSite thenp (λ w. follow w (node p (if_expr c t e))) (λ w. follow w t)
          (collect_tail t) (λ w h. h) (tail-IsSite t))
        (under-IsSite elsep (λ w. follow w (node p (if_expr c t e))) (λ w. follow_ptr w e)
          (collect_tail_ptr e) (λ w h. h) (tail_ptr-IsSite e))
  tail-IsSite (node p (block ss true)) =
      under-IsSite stats (λ w. follow w (node p (block ss true))) (λ w. follow_nodes w ss)
        (collect_tail_front ss) (λ w h. h) (tail_front-IsSite ss)
  tail-IsSite (node p (block ss false)) =
      under-IsSite stats (λ w. follow w (node p (block ss false))) (λ w. follow_nodes w ss)
        (collect_tail_last ss) (λ w h. h) (tail_last-IsSite ss)
  tail-IsSite (node p (match_expr s cs)) =
      under-IsSite arms (λ w. follow w (node p (match_expr s cs)))
        (λ w. follow_cases false false w cs) (collect_tail_cases cs) (λ w h. h)
        (tail_cases-IsSite false cs)
  tail-IsSite (node p (try_expr b cs (ptr f))) = tt
  tail-IsSite (node p (try_expr b cs null)) =
      under-IsSite arms (λ w. follow w (node p (try_expr b cs null)))
        (λ w. follow_cases true false w cs) (collect_tail_cases cs) (λ w h. h)
        (tail_cases-IsSite true cs)
  tail-IsSite (node p (apply (node r (select q m)) xs b true)) =
      under-IsSite fn (λ w. follow w (node p (apply (node r (select q m)) xs b true)))
        (λ w. follow w (node r (select q m))) (under qualifier (collect_tail q)) (λ w h. h)
        (under-IsSite qualifier (λ w. follow w (node r (select q m))) (λ w. follow w q)
          (collect_tail q) (λ w h. h) (tail-IsSite q))
  tail-IsSite (node p (apply (node r (select q m)) (more_nodes a no_nodes) b false)) =
      if-holds
        (IsSite
          (λ w. follow w (node p (apply (node r (select q m)) (more_nodes a no_nodes) b false))))
        (is_logical m)
        (λ e.
          under-IsSite args
            (λ w. follow w (node p (apply (node r (select q m)) (more_nodes a no_nodes) b false)))
            (λ w. follow_nodes w (more_nodes a no_nodes)) (under first (collect_tail a)) (λ w h. h)
            (under-IsSite first (λ w. follow_nodes w (more_nodes a no_nodes)) (λ w. follow w a)
              (collect_tail a) (λ w h. h) (tail-IsSite a)))
        (λ e. (refl, tt))
  tail-IsSite (node p (apply f xs b w)) = (refl, tt)
  tail-IsSite (node p s) = tt

  pub tail_ptr-IsSite : (n : NodePtr) → IsSite (λ w. follow_ptr w n) (collect_tail_ptr n)
  tail_ptr-IsSite null = tt
  tail_ptr-IsSite (ptr n) = tail-IsSite n

  tail_front-IsSite : (ns : Nodes) → IsSite (λ w. follow_nodes w ns) (collect_tail_front ns)
  tail_front-IsSite no_nodes = tt
  tail_front-IsSite (more_nodes n ns) =
      under-IsSite first (λ w. follow_nodes w (more_nodes n ns)) (λ w. follow w n) (collect_tail n)
        (λ w h. h) (tail-IsSite n)

  tail_last-IsSite : (ns : Nodes) → IsSite (λ w. follow_nodes w ns) (collect_tail_last ns)
  tail_last-IsSite no_nodes = tt
  tail_last-IsSite (more_nodes n no_nodes) =
      if-holds (IsSite (λ w. follow_nodes w (more_nodes n no_nodes))) (is_statement_only n)
        (λ e. tt)
        (λ e.
          under-IsSite first (λ w. follow_nodes w (more_nodes n no_nodes)) (λ w. follow w n)
            (collect_tail n) (λ w h. h) (tail-IsSite n))
  tail_last-IsSite (more_nodes n (more_nodes m ns)) =
      under-IsSite rest (λ w. follow_nodes w (more_nodes n (more_nodes m ns)))
        (λ w. follow_nodes w (more_nodes m ns)) (collect_tail_last (more_nodes m ns)) (λ w h. h)
        (tail_last-IsSite (more_nodes m ns))

  tail_cases-IsSite :
      (g : Bool) (cs : Cases) → IsSite (λ w. follow_cases g false w cs) (collect_tail_cases cs)
  tail_cases-IsSite g no_cases = tt
  tail_cases-IsSite g (more_cases pat d b p cs) =
      All-append (λ w. is_call (follow_cases g false w (more_cases pat d b p cs)) ≡ true)
        (under arm_body (collect_tail b)) (under rest (collect_tail_cases cs))
        (under-IsSite arm_body (λ w. follow_cases g false w (more_cases pat d b p cs))
          (λ w. follow w b) (collect_tail b) (λ w h. mark-is_call (follow w b) h) (tail-IsSite b))
        (under-IsSite rest (λ w. follow_cases g false w (more_cases pat d b p cs))
          (λ w. follow_cases g false w cs) (collect_tail_cases cs) (λ w h. h)
          (tail_cases-IsSite g cs))

if_none : (b : Bool) → ◌≡◌ {A = List NodePath} (if b then [] else []) []
if_none true = refl
if_none false = refl

-- Where the node is guarded, no `return` in it is a site.
mutual
  unfolding collect_returns collect_returns_ptr collect_returns_nodes collect_returns_cases

  pub guarded-none : (n : Node) → collect_returns true n ≡ []
  guarded-none (node p (int_lit v f d b)) = refl
  guarded-none (node p (float_lit v t)) = refl
  guarded-none (node p (string_lit v)) = refl
  guarded-none (node p (char_lit v)) = refl
  guarded-none (node p (bool_lit v)) = refl
  guarded-none (node p null_lit) = refl
  guarded-none (node p unit_lit) = refl
  guarded-none (node p (ident i)) = refl
  guarded-none (node p (return_expr v)) = rw (guarded_ptr-none v) refl
  guarded-none (node p (try_expr b cs f)) =
      rw (guarded-none b, guarded_cases-none cs, guarded_ptr-none f) refl
  guarded-none (node p (match_expr s cs)) = rw (guarded-none s, guarded_cases-none cs) refl
  guarded-none (node p (val_def i r pat)) = rw (guarded_ptr-none r) (if_none i.is_lazy)
  guarded-none (node p (interp_string i ls xs specs)) = rw (guarded_nodes-none xs) refl
  guarded-none (node p (select q m)) = rw (guarded-none q) refl
  guarded-none (node p (apply f xs b w)) = rw (guarded-none f, guarded_nodes-none xs) refl
  guarded-none (node p (type_apply f ts)) = rw (guarded-none f) refl
  guarded-none (node p (infix_op l op r)) = rw (guarded-none l, guarded-none r) refl
  guarded-none (node p (prefix_op op e)) = rw (guarded-none e) refl
  guarded-none (node p (assign t v)) = rw (guarded-none t, guarded-none v) refl
  guarded-none (node p (if_expr c t e)) =
      rw (guarded-none c, guarded-none t, guarded_ptr-none e) refl
  guarded-none (node p (while_loop c b)) = rw (guarded-none c, guarded-none b) refl
  guarded-none (node p (block ss d)) = rw (guarded_nodes-none ss) refl
  guarded-none (node p (typed_expr e t)) = rw (guarded-none e) refl
  guarded-none (node p (parens e)) = rw (guarded-none e) refl
  guarded-none (node p (tuple_expr es)) = rw (guarded_nodes-none es) refl
  guarded-none (node p (splice e)) = rw (guarded-none e) refl
  guarded-none (node p (named_arg m v)) = rw (guarded-none v) refl
  guarded-none (node p (new_expr t xs b)) = rw (guarded_nodes-none xs) refl
  guarded-none (node p (throw_expr v)) = rw (guarded-none v) refl
  guarded-none (node p s) = refl

  pub guarded_ptr-none : (n : NodePtr) → collect_returns_ptr true n ≡ []
  guarded_ptr-none null = refl
  guarded_ptr-none (ptr n) = guarded-none n

  guarded_nodes-none : (ns : Nodes) → collect_returns_nodes true ns ≡ []
  guarded_nodes-none no_nodes = refl
  guarded_nodes-none (more_nodes n ns) = rw (guarded-none n, guarded_nodes-none ns) refl

  guarded_cases-none : (cs : Cases) → collect_returns_cases true true cs ≡ []
  guarded_cases-none no_cases = refl
  guarded_cases-none (more_cases pat d b p cs) =
      rw (guarded_ptr-none d, guarded-none b, guarded_cases-none cs) refl
