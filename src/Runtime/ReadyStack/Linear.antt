-- ===== src/Runtime/ReadyStack/Linear.antt =====
-- runtime/ReadyStack.h: the stack of all threads, which behaves as one stack that is used by one.
use proto_scala.Common.{
  ℕ, zero, suc, ◌+◌, ◌<◌, ◌≤◌, ◌≡◌, ◌≢◌, refl, sym, count, subst, Option, none, some, List, [], ◌∷◌,
  ◌++◌, map, All, All-append, sum_of, arith, replicate, sum_of-append,
}
use proto_scala.Runtime.ReadyStack.Nodes.{k_nil}
use proto_scala.Runtime.ReadyStack.State.{
  Side, in_use, spare, Memory, for_push, for_pop, of_push, of_pop, unlink_side, Pc, taking,
}
use proto_scala.Runtime.ReadyStack.Moves.{
  OnTime, Move, push, pop, finds_none, finds_empty, sees, reads, unlinks, unlink_fails, fetches,
  fetch_throws, fills, finds_chunk, lacks_chunk, installs, takes, link_sees, stores, links,
  link_fails, counts, World, Step, step, Reaches, at_first, after, new_stack,
}
use proto_scala.Runtime.ReadyStack.Kept.{
  Chain, Legal, owns, Placed, Knows, Knows-frame, IsKept, IsFrame,
}
use proto_scala.Runtime.ReadyStack.Owned.{Chain-pop, IsFrame-rest, IsFrame-same}
use proto_scala.Runtime.ReadyStack.Unlinks.{Carries, unlinks-push, unlinks-pop}
use proto_scala.Runtime.ReadyStack.Links.{
  installs-chunk, links-push, links-pop, fills-own, stores-own, fetches-new, fetches-none,
  empty-found,
}

count-head : (c js : List ℕ) (i : ℕ) → c ≡ i ∷ js → 0 < count i c
count-head c js i e = subst (λ l. 0 < count i l) (sym e) (ground arith)

none_owned : (V : Type 0) (n i : ℕ) → sum_of (owns {V = V} i) (replicate n none) ≡ 0
none_owned V zero i = refl
none_owned V (suc n) i = omega (arith, none_owned V n i)

module _ {V : Type 0} where
  -- With other counts of values, and the calls that have a node counted otherwise
  recounted :
      {m : Memory V} {o p : ℕ → ℕ} (more less : ℕ)
      → IsKept m o
      → ((i : ℕ) → o i ≡ p i)
      → IsKept (record m { added = more; subtracted = less }) p
  recounted more less k same = record {
    chain = k.chain;
    chained = k.chained;
    generations = k.generations;
    once = λ i. omega (arith, k.once i, same i);
    placed = k.placed;
    legal = k.legal;
  }

  again : {m : Memory V} {o p : ℕ → ℕ} → IsKept m o → ((i : ℕ) → o i ≡ p i) → IsKept m p
  again {m} k same = recounted m.added m.subtracted k same

  idle : {m : Memory V} {o : ℕ → ℕ} → IsKept m (λ i. 0 + o i) → IsKept m o
  idle k = again k (λ i. omega arith)

  held :
      {m : Memory V} {o : ℕ → ℕ} (i : ℕ) (k : IsKept m o) (s : Side)
      → 0 < count i (k.chain s)
      → 0 < count i (k.chain in_use) + count i (k.chain spare)
  held i k in_use lt = omega arith
  held i k spare lt = omega arith

  top-Placed :
      {m : Memory V} {o : ℕ → ℕ} (s : Side)
      → IsKept m o
      → (m.head s).index ≢ k_nil
      → Placed m (m.head s).index
  top-Placed {m} s k ne =
      let (js, c, _) = Chain-pop m.next (m.head s).index (k.chain s) (k.chained s) ne in
      k.placed (m.head s).index
        (held (m.head s).index k s (count-head (k.chain s) js (m.head s).index c))

  Move-Carries :
      {m m' : Memory V} (o : ℕ → ℕ) {pre post : Option (Pc V)}
      → Move m pre m' post
      → IsKept m (λ i. owns i pre + o i)
      → Knows m pre
      → OnTime m pre
      → Carries m o m' post
  Move-Carries o (push x) k h lt = (k, tt, IsFrame-same)
  Move-Carries o pop k h lt = (k, tt, IsFrame-same)
  Move-Carries o (finds_none e) k h lt = (k, tt, IsFrame-same)
  Move-Carries o (finds_empty e) k h lt = empty-found (idle k) e
  Move-Carries o (sees {u} ne) k h lt = (
    k,
    ((omega arith, k.generations (unlink_side u), λ e. refl), ne, top-Placed (unlink_side u) k ne),
    IsFrame-same,
  )
  Move-Carries o reads k (saw, ne, there) lt = (k, (saw, ne, λ e. refl, there), IsFrame-same)
  Move-Carries o (unlinks {u = for_push x} e) k (saw, ne, at, there) lt =
      unlinks-push x (idle k) saw ne at there lt e
  Move-Carries o (unlinks {u = for_pop} e) k (saw, ne, at, there) lt =
      unlinks-pop (idle k) saw ne at there lt e
  Move-Carries o unlink_fails k h lt = (k, tt, IsFrame-same)
  Move-Carries o (fetches {x} fresh) k h lt = fetches-new x (idle k) fresh
  Move-Carries o (fetch_throws le) k h lt = fetches-none (idle k) le
  Move-Carries o (fills {x} {idx}) k h lt = fills-own idx x k h
  Move-Carries o takes k (same, there) lt = (k, (tt, there), IsFrame-same)
  Move-Carries o (finds_chunk e) k h lt = (k, (h, e), IsFrame-same)
  Move-Carries o (lacks_chunk e) k h lt = (k, h, IsFrame-same)
  Move-Carries o (installs {x} {idx}) k h lt = installs-chunk idx x k h
  Move-Carries o (link_sees {l}) k h lt = (k, h, IsFrame-same)
  Move-Carries o (stores {l} {idx} {old}) k (filled, there) lt = stores-own old idx l k filled there
  Move-Carries o (links {l = of_push x} e) k (filled, at, there) lt =
      links-push x k filled at there e
  Move-Carries o (links {l = of_pop x} e) k (filled, at, there) lt = links-pop x k at there e
  Move-Carries o link_fails k (filled, at, there) lt = (k, (filled, there), IsFrame-same)
  Move-Carries {m} o (counts {l = of_push x}) k h lt = (
    recounted (suc m.added) m.subtracted k (λ i. refl),
    tt,
    IsFrame-rest m.next_fresh (suc m.added) m.subtracted m.history IsFrame-same,
  )
  Move-Carries {m} o (counts {l = of_pop x}) k h lt = (
    recounted m.added (suc m.subtracted) k (λ i. refl),
    tt,
    IsFrame-rest m.next_fresh m.added (suc m.subtracted) m.history IsFrame-same,
  )

  -- Between any two accesses
  abbrev pub Holds : World V → Type 0
  Holds w = IsKept w.memory (λ i. sum_of (owns i) w.threads) × All (Knows w.memory) w.threads

  pub All-split :
      (P : Option (Pc V) → Type 0) (us : List (Option (Pc V))) {t : Option (Pc V)}
      (ts : List (Option (Pc V)))
      → All P (us ++ t ∷ ts)
      → All P us × P t × All P ts
  All-split P [] ts (h, hs) = (tt, h, hs)
  All-split P (u ∷ us) ts (h, hs) =
      let (before, at, behind) = All-split P us ts hs in ((h, before), at, behind)

  All-none : (m : Memory V) (n : ℕ) → All (Knows m) (replicate n none)
  All-none m zero = tt
  All-none m (suc n) = (tt, All-none m n)

  All-frame :
      {m m' : Memory V} {o : ℕ → ℕ} (ts : List (Option (Pc V)))
      → IsFrame m m' o
      → ((i : ℕ) → sum_of (owns i) ts ≤ o i)
      → All (Knows m) ts
      → All (Knows m') ts
  All-frame [] f le h = tt
  All-frame (t ∷ ts) f le (k, h) =
      (Knows-frame f t (λ i. omega (arith, le i)) k, All-frame ts f (λ i. omega (arith, le i)) h)

  Step-Holds : {w v : World V} → Holds w → All (OnTime w.memory) w.threads → Step w v → Holds v
  Step-Holds {w} (k, h) on_time (step us ts {pre} {post} at move) =
      let (before, knows, behind) = All-split _ us ts (subst (λ l. All (Knows w.memory) l) at h) in
      let lt = (All-split _ us ts (subst (λ l. All (OnTime w.memory) l) at on_time)).1 in
      let k' = subst (λ l. IsKept w.memory (λ i. sum_of (owns i) l)) at k in
      let (kept, knows', f) =
        Move-Carries (λ i. sum_of (owns i) us + sum_of (owns i) ts) move
          (again k' (λ i. omega (arith, sum_of-append (owns i) us (pre ∷ ts)))) knows lt in
      (
        again kept (λ i. omega (arith, sum_of-append (owns i) us (post ∷ ts))),
        All-append _ us (post ∷ ts) (All-frame us f (λ i. omega arith) before)
            (knows', All-frame ts f (λ i. omega arith) behind),
      )

  pub Reaches-Holds : {w : World V} → Reaches (λ w. All (OnTime w.memory) w.threads) w → Holds w
  Reaches-Holds (at_first x n) = (
    record {
      chain = λ s. [];
      chained = λ s. refl;
      generations = λ s. refl;
      once = λ i. grind (arith, none_owned V n i);
      placed = λ i lt. absurd (omega arith);
      legal = refl;
    },
    All-none (new_stack x n).memory n,
  )
  Reaches-Holds (after r lt st) = Step-Holds (Reaches-Holds r) lt st

  -- As long as no `unlinkFront` sleeps through 2 ^ 32 changes of its word, between any two accesses the
  -- links lead from `head_` through nodes that hold just the values which the pushes and pops so far, each
  -- taken as done at the compare-exchange that succeeded (or at the load that found the stack empty),
  -- leave on a stack that is used by one thread, in the same order: a pop took the value on the top
  -- then, and found nothing only when there was none.
  pub Reaches-Legal :
      {w : World V}
      → Reaches (λ w. All (OnTime w.memory) w.threads) w
      → (nodes : List ℕ) × Chain w.memory.next (w.memory.head in_use).index nodes
        × Legal w.memory.history (map w.memory.value nodes)
  Reaches-Legal r = let k = (Reaches-Holds r).0 in (k.chain in_use, k.chained in_use, k.legal)

  -- As long as no `unlinkFront` sleeps through 2 ^ 32 changes of its word, between any two accesses each
  -- node that was given out stands once in the list of `head_` or in the list of `free_`, or belongs to
  -- one call, and to only one of these three; no other node does; and the generation of a word is the
  -- number of its changes modulo 2 ^ 32.
  pub Reaches-IsKept :
      {w : World V}
      → Reaches (λ w. All (OnTime w.memory) w.threads) w
      → IsKept w.memory (λ i. sum_of (owns i) w.threads)
  Reaches-IsKept r = (Reaches-Holds r).0

  -- As long as no `unlinkFront` sleeps through 2 ^ 32 changes of its word, a pop that is about to read the
  -- value of its node reads, and returns, the value that it took off the stack at its compare-exchange,
  -- whatever the other threads did since.
  pub Reaches-taking :
      {w : World V} (us ts : List (Option (Pc V))) {idx : ℕ} {x : V}
      → Reaches (λ w. All (OnTime w.memory) w.threads) w
      → w.threads ≡ us ++ some (taking idx x) ∷ ts
      → w.memory.value idx ≡ x
  Reaches-taking {w} us ts r at =
      (All-split _ us ts (subst (λ l. All (Knows w.memory) l) at (Reaches-Holds r).1)).1.0
