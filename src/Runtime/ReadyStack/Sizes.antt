-- ===== src/Runtime/ReadyStack/Sizes.antt =====
-- runtime/ReadyStack.h: `size_` against the values of the stack.
use proto_scala.Common.{
  ℕ, zero, suc, ◌+◌, ◌≡◌, refl, ap, subst, Option, none, some, List, [], ◌∷◌, ◌++◌, map, length,
  sum_of, sum_of-append, replicate, arith, All,
}
use proto_scala.Runtime.ReadyStack.State.{
  in_use, Event, pushed, popped, found_empty, Memory, for_push, for_pop, Link, of_push, of_pop, Pc,
  taking, link_loop, link_saw, link_set, counting, approx_size,
}
use proto_scala.Runtime.ReadyStack.Moves.{
  OnTime, Move, push, pop, finds_none, finds_empty, sees, reads, unlinks, unlink_fails, fetches,
  fetch_throws, finds_chunk, lacks_chunk, installs, fills, takes, link_sees, stores, links,
  link_fails, counts, World, step, Reaches, at_first, after,
}
use proto_scala.Runtime.ReadyStack.Kept.{Chain, Legal}
use proto_scala.Runtime.ReadyStack.Linear.{Reaches-Legal}

-- The pushes and the pops that took effect
abbrev pushes : {V : Type 0} → Event V → ℕ
pushes (pushed x) = 1
pushes _ = 0

abbrev pops : {V : Type 0} → Event V → ℕ
pops (popped x) = 1
pops _ = 0

length-map : {V : Type 0} (f : ℕ → V) (xs : List ℕ) → length (map f xs) ≡ length xs
length-map f [] = refl
length-map f (x ∷ xs) = omega (arith, length-map f xs)

Legal-length :
    {V : Type 0} (es : List (Event V)) (vs : List V)
    → Legal es vs
    → sum_of pushes es ≡ sum_of pops es + length vs
Legal-length [] vs e = omega (arith, ap length e)
Legal-length (pushed x ∷ es) vs (us, e, h) = omega (arith, ap length e, Legal-length es us h)
Legal-length (popped x ∷ es) vs h = omega (arith, Legal-length es (x ∷ vs) h)
Legal-length (found_empty ∷ es) vs (e, h) = omega (arith, Legal-length es vs h)

-- Whether a call has pushed, or popped, and not yet changed `size_`.
abbrev not_added : {V : Type 0} → Option (Pc V) → ℕ
not_added (some (counting (of_push x))) = 1
not_added _ = 0

abbrev popping : {V : Type 0} → Link V → ℕ
popping (of_push x) = 0
popping (of_pop x) = 1

abbrev not_subtracted : {V : Type 0} → Option (Pc V) → ℕ
not_subtracted (some (taking idx x)) = 1
not_subtracted (some (link_loop l idx)) = popping l
not_subtracted (some (link_saw l idx old)) = popping l
not_subtracted (some (link_set l idx old)) = popping l
not_subtracted (some (counting l)) = popping l
not_subtracted _ = 0

module _ {V : Type 0} where
  -- What `size_` leaves to count
  abbrev Counts : Memory V → ℕ → ℕ → Type 0
  Counts m a s =
      (sum_of pushes m.history ≡ m.added + a) × (sum_of pops m.history ≡ m.subtracted + s)

  Move-Counts :
      {m m' : Memory V} {pre post : Option (Pc V)} (a s : ℕ)
      → Move m pre m' post
      → Counts m (not_added pre + a) (not_subtracted pre + s)
      → Counts m' (not_added post + a) (not_subtracted post + s)
  Move-Counts a s (push x) h = h
  Move-Counts a s pop h = h
  Move-Counts a s (finds_none e) h = h
  Move-Counts a s (finds_empty e) h = (omega arith, omega arith)
  Move-Counts a s (sees ne) h = h
  Move-Counts a s reads h = h
  Move-Counts a s (unlinks {u = for_push x} e) h = h
  Move-Counts a s (unlinks {u = for_pop} e) h = (omega arith, omega arith)
  Move-Counts a s unlink_fails h = h
  Move-Counts a s (fetches lt) h = h
  Move-Counts a s (fetch_throws le) h = h
  Move-Counts a s (finds_chunk e) h = h
  Move-Counts a s (lacks_chunk e) h = h
  Move-Counts a s installs h = h
  Move-Counts a s fills h = h
  Move-Counts a s takes h = h
  Move-Counts a s link_sees h = h
  Move-Counts a s stores h = h
  Move-Counts a s (links {l = of_push x} e) h = (omega arith, omega arith)
  Move-Counts a s (links {l = of_pop x} e) h = h
  Move-Counts a s link_fails h = h
  Move-Counts a s (counts {l = of_push x}) h = (omega arith, omega arith)
  Move-Counts a s (counts {l = of_pop x}) h = (omega arith, omega arith)

  sum_of-at :
      (f : Option (Pc V) → ℕ) (us ts : List (Option (Pc V))) (p : Option (Pc V))
      → sum_of f (us ++ p ∷ ts) ≡ f p + (sum_of f us + sum_of f ts)
  sum_of-at f us ts p = omega (arith, sum_of-append f us (p ∷ ts))

  sum_of-idle :
      (f : Option (Pc V) → ℕ) (ts : List (Option (Pc V)))
      → f none ≡ 0
      → All (λ t. t ≡ none) ts
      → sum_of f ts ≡ 0
  sum_of-idle f [] z h = refl
  sum_of-idle f (t ∷ ts) z (e, h) = omega (arith, ap f e, sum_of-idle f ts z h)

  sum_of-replicate : (f : Option (Pc V) → ℕ) (n : ℕ) → f none ≡ 0 → sum_of f (replicate n none) ≡ 0
  sum_of-replicate f zero z = refl
  sum_of-replicate f (suc n) z = omega (arith, z, sum_of-replicate f n z)

  Reaches-Counts :
      {P : World V → Type 0} {w : World V}
      → Reaches P w
      → Counts w.memory (sum_of not_added w.threads) (sum_of not_subtracted w.threads)
  Reaches-Counts (at_first x n) = (
    omega (arith, sum_of-replicate not_added n refl),
    omega (arith, sum_of-replicate not_subtracted n refl),
  )
  Reaches-Counts (after {w} r p (step us ts {pre} {post} {m} at move)) =
      let h =
        subst (λ l. Counts w.memory (sum_of not_added l) (sum_of not_subtracted l)) at
          (Reaches-Counts r) in
      let h' =
        Move-Counts (sum_of not_added us + sum_of not_added ts)
          (sum_of not_subtracted us + sum_of not_subtracted ts) move
          (
            omega (arith, h.0, sum_of-at not_added us ts pre),
            omega (arith, h.1, sum_of-at not_subtracted us ts pre),
          ) in
      (
        omega (arith, h'.0, sum_of-at not_added us ts post),
        omega (arith, h'.1, sum_of-at not_subtracted us ts post),
      )

  -- As long as no `unlinkFront` sleeps through 2 ^ 32 changes of its word, when every thread is
  -- outside of a call, `approxSize` is the number of the nodes that `head_` leads to.
  pub approx_size-length :
      {w : World V}
      → Reaches (λ w. All (OnTime w.memory) w.threads) w
      → All (λ t. t ≡ none) w.threads
      → (nodes : List ℕ) × Chain w.memory.next (w.memory.head in_use).index nodes
        × (approx_size w.memory ≡ length nodes)
  approx_size-length {w} r idle =
      let (nodes, chain, legal) = Reaches-Legal r in
      let (more, less) = Reaches-Counts r in
      (
        nodes,
        chain,
        omega (
          arith,
          more,
          less,
          Legal-length w.memory.history (map w.memory.value nodes) legal,
          length-map w.memory.value nodes,
          sum_of-idle not_added w.threads refl idle,
          sum_of-idle not_subtracted w.threads refl idle,
        ),
      )
