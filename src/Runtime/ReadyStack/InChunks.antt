-- ===== src/Runtime/ReadyStack/InChunks.antt =====
-- runtime/ReadyStack.h: where the nodes are that the calls read and write.
use proto_scala.Common.{ℕ, true, ◌+◌, ◌^◌, ◌<◌, ◌≡◌, subst, Option, some, List, ◌∷◌, ◌++◌, All}
use proto_scala.Runtime.ReadyStack.Nodes.{
  k_max_chunks, k_first_chunk_bits, chunk_of, offset_of, offset_of-bounds,
}
use proto_scala.Runtime.ReadyStack.State.{
  Word, Unlink, Link, Memory, Pc, unlink_saw, filling, link_saw, taking,
}
use proto_scala.Runtime.ReadyStack.Moves.{OnTime, World, Reaches}
use proto_scala.Runtime.ReadyStack.Kept.{Placed, Knows}
use proto_scala.Runtime.ReadyStack.Linear.{All-split, Reaches-Holds}

module _ {V : Type 0} where
  -- The next access of a call reads or writes the node.
  pub data Accesses : Option (Pc V) → ℕ → Type 0 where
    reads_link :
        {u : Unlink V} {old : Word} {n i : ℕ}
        → old.index ≡ i
        → Accesses (some (unlink_saw u old n)) i
    writes_value : {x : V} {idx : ℕ} → Accesses (some (filling x idx)) idx
    reads_value : {x : V} {idx : ℕ} → Accesses (some (taking idx x)) idx
    writes_link : {l : Link V} {idx : ℕ} {old : Word} → Accesses (some (link_saw l idx old)) idx

  Accesses-Placed :
      (m : Memory V) (p : Option (Pc V)) (i : ℕ) → Accesses p i → Knows m p → Placed m i
  Accesses-Placed m p i (reads_link e) (_, _, there) = subst (Placed m) e there
  Accesses-Placed m p i writes_value there = there
  Accesses-Placed m p i reads_value (_, there) = there
  Accesses-Placed m p i writes_link (_, there) = there

  -- As long as no `unlinkFront` sleeps through 2 ^ 32 changes of its word, whatever node a call is about to
  -- read or write, through an index that may be out of date too, the node's chunk is one of the 24, it
  -- is installed, and the node is inside of it.
  pub Reaches-in_chunk :
      {w : World V} (us ts : List (Option (Pc V))) (p : Option (Pc V)) (i : ℕ)
      → Reaches (λ w. All (OnTime w.memory) w.threads) w
      → w.threads ≡ us ++ p ∷ ts
      → Accesses p i
      → (chunk_of i < k_max_chunks)
        × (w.memory.installed (chunk_of i) ≡ true)
        × (offset_of i < 2 ^ (k_first_chunk_bits + chunk_of i))
  Reaches-in_chunk {w} us ts p i r at e =
      let knows =
        (All-split _ us ts (subst (λ l. All (Knows w.memory) l) at (Reaches-Holds r).1)).1 in
      let (lt, there) = Accesses-Placed w.memory p i e knows in
      let (inside, below, _) = offset_of-bounds i lt in (inside, there, below)
