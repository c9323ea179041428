-- ===== src/Frontend/Ast/Destroy.antt =====
-- frontend/AST.cpp, `destroyTree`: a tree is freed by a loop over a stack of nodes, with no recursion.
use mathlib.Core.List.{Perm, perm_append_comm}
use mathlib.Core.List.Perm
use proto_scala.Common.{
  ℕ, zero, suc, ◌+◌, ◌<◌, ◌≡◌, sym, ap, subst, Option, none, some, List, [], ◌∷◌, ◌++◌, append-nil,
  append_assoc, length, length-append, arith, Gives, gives,
}
use proto_scala.Frontend.Ast.Tree.{Node, NodePtr, null, ptr}
use proto_scala.Frontend.Ast.Slots.{release_children, all_nodes}
use proto_scala.Frontend.Ast.Forest.{forest, forest-release_children}

-- `releaseChildren` pushes the children in order; the top of the stack stands first.
pub push_all : List Node → List Node → List Node
push_all [] work = work
push_all (c ∷ cs) work = push_all cs (c ∷ work)

abbrev freed_first : Node → Option (List Node) → Option (List Node)
freed_first n none = none
freed_first n (some freed) = some (n ∷ freed)

-- The loop: the nodes in the order in which they are freed, and none where the fuel runs out.
pub destroy : ℕ → List Node → Option (List Node)
unfolding push_all release_children
destroy f [] = some []
destroy zero (n ∷ work) = none
destroy (suc f) (n ∷ work) = freed_first n (destroy f (push_all (release_children n) work))

unfoldable pub destroy_tree : ℕ → NodePtr → Option (List Node)
unfolding destroy
destroy_tree f null = some []
destroy_tree f (ptr n) = destroy f (n ∷ [])

-- Two parts in front of a third change places.
swap-Perm : (xs ys zs : List Node) → Perm (xs ++ (ys ++ zs)) (ys ++ (xs ++ zs))
swap-Perm xs ys zs =
    subst (λ l. Perm l (ys ++ (xs ++ zs))) (append_assoc xs ys zs)
      (subst (Perm ((xs ++ ys) ++ zs)) (append_assoc ys xs zs)
        (Perm.append_right zs (perm_append_comm xs ys)))

push_all-Perm : (cs work : List Node) → Perm (forest (push_all cs work)) (forest cs ++ forest work)
unfolding push_all
push_all-Perm [] work = Perm.refl (forest work)
push_all-Perm (c ∷ cs) work = Perm.trans (push_all-Perm cs (c ∷ work)) (
    subst (Perm (forest cs ++ (all_nodes c ++ forest work)))
      (sym (append_assoc (all_nodes c) (forest cs) (forest work)))
      (swap-Perm (forest cs) (all_nodes c) (forest work)))

length-push_all :
    (cs work : List Node)
    → length (forest (push_all cs work)) ≡ length (forest cs) + length (forest work)
unfolding push_all
length-push_all [] work = omega arith
length-push_all (c ∷ cs) work = omega (
  arith,
  length-push_all cs (c ∷ work),
  length-append (all_nodes c) (forest work),
  length-append (all_nodes c) (forest cs),
)

length-all_nodes : (n : Node) → length (all_nodes n) ≡ suc (length (forest (release_children n)))
length-all_nodes n = ap length (sym (forest-release_children n))

-- Enough fuel is one for each node that is left.
destroy-Perm :
    (f : ℕ) (work : List Node)
    → length (forest work) < suc f
    → Gives (λ freed. Perm freed (forest work)) (destroy f work)
unfolding destroy
destroy-Perm zero [] lt = gives (Perm.refl [])
destroy-Perm (suc f) [] lt = gives (Perm.refl [])
destroy-Perm zero (n ∷ work) lt =
    absurd (omega (arith, length-all_nodes n, length-append (all_nodes n) (forest work)))
destroy-Perm (suc f) (n ∷ work) lt = first (
    destroy-Perm f (push_all (release_children n) work) (
      omega (
        arith,
        length-push_all (release_children n) work,
        length-all_nodes n,
        length-append (all_nodes n) (forest work),
      )))
  where
    first :
        {o : Option (List Node)}
        → Gives (λ freed. Perm freed (forest (push_all (release_children n) work))) o
        → Gives (λ freed. Perm freed (all_nodes n ++ forest work)) (freed_first n o)
    first (gives {a = freed} perm) = gives (
        subst (λ l. Perm (n ∷ freed) (l ++ forest work)) (forest-release_children n)
          (Perm.cons n (Perm.trans perm (push_all-Perm (release_children n) work))))

-- With fuel for each node, the loop ends, and it has freed every node of the tree that is reached
-- through child slots, each once.
pub destroy_tree-Perm :
    (n : Node)
    → Gives (λ freed. Perm freed (all_nodes n)) (destroy_tree (length (all_nodes n)) (ptr n))
unfolding destroy_tree
destroy_tree-Perm n =
    subst (λ l. Gives (λ freed. Perm freed l) (destroy (length (all_nodes n)) (n ∷ [])))
      (append-nil (all_nodes n))
      (destroy-Perm (length (all_nodes n)) (n ∷ []) (omega (arith, length-append (all_nodes n) [])))
