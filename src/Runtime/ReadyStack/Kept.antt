-- ===== src/Runtime/ReadyStack/Kept.antt =====
-- runtime/ReadyStack.h: what holds of the nodes, the words and the calls between any two accesses.
use proto_scala.Common.{
  true, ℕ, ◌+◌, ◌%◌, ◌^◌, ◌<◌, ◌≤◌, ◌≡◌, ◌≢◌, sym, subst, ◌∙◌, ◌&&◌, ltb, ◌==◌, if◌then◌else◌,
  Option, none, some, List, [], ◌∷◌, map, count, arith,
}
use proto_scala.Runtime.ReadyStack.Nodes.{k_nil, k_capacity, chunk_of}
use proto_scala.Runtime.ReadyStack.State.{
  Word, Side, in_use, spare, Event, pushed, popped, found_empty, Memory, Link, of_push, of_pop,
  unlink_side, Pc, unlink_loop, unlink_saw, unlink_read, fetching, finding_chunk, installing,
  filling, taking, link_loop, link_saw, link_set, counting,
}

-- The nodes from an index on, through their links
abbrev pub Chain : (ℕ → ℕ) → ℕ → List ℕ → Type 0
Chain next i [] = i ≡ k_nil
Chain next i (j ∷ js) = (i ≡ j) × (i ≢ k_nil) × Chain next (next j) js

-- The events, the latest first, are those of a stack that holds these values in the end.
abbrev pub Legal : {V : Type 0} → List (Event V) → List V → Type 0
Legal [] vs = vs ≡ []
Legal {V} (pushed x ∷ es) vs = (us : List V) × (vs ≡ x ∷ us) × Legal es us
Legal (popped x ∷ es) vs = Legal es (x ∷ vs)
Legal (found_empty ∷ es) vs = (vs ≡ []) × Legal es vs

-- Whether a call has a node of its own.
abbrev pub owns : {V : Type 0} → ℕ → Option (Pc V) → ℕ
owns i (some (finding_chunk x idx)) = if idx == i then 1 else 0
owns i (some (installing x idx)) = if idx == i then 1 else 0
owns i (some (filling x idx)) = if idx == i then 1 else 0
owns i (some (taking idx x)) = if idx == i then 1 else 0
owns i (some (link_loop l idx)) = if idx == i then 1 else 0
owns i (some (link_saw l idx old)) = if idx == i then 1 else 0
owns i (some (link_set l idx old)) = if idx == i then 1 else 0
owns i _ = 0

of_own : (i : ℕ) {n : ℕ} → (if i == i then 1 else 0) ≤ n → 0 < n
of_own i h = ground arith

module _ {V : Type 0} where
  -- How many nodes have the index: `acquireNode` has given it out, or not.
  abbrev pub allocated : Memory V → ℕ → ℕ
  allocated m i = if ltb i m.next_fresh && ltb i k_capacity then 1 else 0

  -- The node has an index that may be given out, and is in a chunk that is there.
  abbrev pub Placed : Memory V → ℕ → Type 0
  Placed m i = (i < k_capacity) × (m.installed (chunk_of i) ≡ true)

  -- A word that was read when it had changed `n` times
  abbrev pub Saw : Memory V → Side → Word → ℕ → Type 0
  Saw m s old n =
      (n ≤ m.updates s) × (old.generation ≡ n % 2 ^ 32) × (n ≡ m.updates s → m.head s ≡ old)

  abbrev pub Filled : (ℕ → V) → Link V → ℕ → Type 0
  Filled value (of_push x) idx = value idx ≡ x
  Filled value (of_pop x) idx = Unit

  -- What a call knows of the memory.
  abbrev pub Knows : Memory V → Option (Pc V) → Type 0
  Knows m (some (unlink_saw u old n)) =
      Saw m (unlink_side u) old n × (old.index ≢ k_nil) × Placed m old.index
  Knows m (some (unlink_read u old n next)) =
      Saw m (unlink_side u) old n
      × (old.index ≢ k_nil)
      × (n ≡ m.updates (unlink_side u) → next ≡ m.next old.index)
      × Placed m old.index
  Knows m (some (finding_chunk x idx)) = idx < k_capacity
  Knows m (some (installing x idx)) = idx < k_capacity
  Knows m (some (filling x idx)) = Placed m idx
  Knows m (some (taking idx x)) = (m.value idx ≡ x) × Placed m idx
  Knows m (some (link_loop l idx)) = Filled m.value l idx × Placed m idx
  Knows m (some (link_saw l idx old)) = Filled m.value l idx × Placed m idx
  Knows m (some (link_set l idx old)) =
      Filled m.value l idx × (m.next idx ≡ old.index) × Placed m idx
  Knows m _ = Unit

  -- The nodes stand in one of the two lists each, or belong to one call: `o i` calls have node `i`.
  pub record IsKept (m : Memory V) (o : ℕ → ℕ) : Type 0 where
    pub chain : Side → List ℕ
    pub chained : (s : Side) → Chain m.next (m.head s).index (chain s)
    pub generations : (s : Side) → (m.head s).generation ≡ m.updates s % 2 ^ 32
    pub once : (i : ℕ) → count i (chain in_use) + count i (chain spare) + o i ≡ allocated m i
    pub placed : (i : ℕ) → 0 < count i (chain in_use) + count i (chain spare) → Placed m i
    pub legal : Legal m.history (map m.value (chain in_use))

  -- What another call sees of a change, when `o i` calls have node `i` that do not make it.
  pub record IsFrame (m m' : Memory V) (o : ℕ → ℕ) : Type 0 where
    pub values : (i : ℕ) → 0 < o i → m'.value i ≡ m.value i
    pub nexts : (i : ℕ) → 0 < o i → m'.next i ≡ m.next i
    pub chunks : (i : ℕ) → Placed m i → Placed m' i
    pub later : (s : Side) → m.updates s ≤ m'.updates s
    pub heads : (s : Side) → m.updates s ≡ m'.updates s → m'.head s ≡ m.head s
    pub tops :
        (s : Side)
        → m.updates s ≡ m'.updates s
        → (m.head s).index ≢ k_nil
        → m'.next (m.head s).index ≡ m.next (m.head s).index

  Saw-frame :
      {m m' : Memory V} {o : ℕ → ℕ} (s : Side) (old : Word) (n : ℕ)
      → IsFrame m m' o
      → Saw m s old n
      → Saw m' s old n
  Saw-frame s old n f (le, gen, same) = (
    omega (arith, f.later s),
    gen,
    λ e. f.heads s (omega (arith, f.later s)) ∙ same (omega (arith, f.later s)),
  )

  Filled-frame :
      {m m' : Memory V} {o : ℕ → ℕ} (l : Link V) (idx : ℕ)
      → IsFrame m m' o
      → 0 < o idx
      → Filled m.value l idx
      → Filled m'.value l idx
  Filled-frame (of_push x) idx f lt h = f.values idx lt ∙ h
  Filled-frame (of_pop x) idx f lt h = tt

  pub Knows-frame :
      {m m' : Memory V} {o : ℕ → ℕ}
      → IsFrame m m' o
      → (p : Option (Pc V)) → ((i : ℕ) → owns i p ≤ o i)
      → Knows m p
      → Knows m' p
  Knows-frame f none le k = tt
  Knows-frame f (some (unlink_loop u)) le k = tt
  Knows-frame f (some (unlink_saw u old n)) le (saw, ne, placed) =
      (Saw-frame (unlink_side u) old n f saw, ne, f.chunks old.index placed)
  Knows-frame {m} {m'} f (some (unlink_read u old n next)) le (saw, ne, at, placed) = (
    Saw-frame (unlink_side u) old n f saw,
    ne,
    λ e.
        let unchanged : m.updates (unlink_side u) ≡ m'.updates (unlink_side u) =
          omega (arith, saw.0, f.later (unlink_side u)) in
        let same = saw.2 (omega (arith, saw.0, f.later (unlink_side u))) in
        at (omega (arith, saw.0, f.later (unlink_side u)))
        ∙ sym (
            subst (λ w. m'.next w.index ≡ m.next w.index) same
              (f.tops (unlink_side u) unchanged (subst (λ w. w.index ≢ k_nil) (sym same) ne))),
    f.chunks old.index placed,
  )
  Knows-frame f (some (fetching x)) le k = tt
  Knows-frame f (some (finding_chunk x idx)) le k = k
  Knows-frame f (some (installing x idx)) le k = k
  Knows-frame f (some (filling x idx)) le k = f.chunks idx k
  Knows-frame f (some (taking idx x)) le (same, placed) =
      (f.values idx (of_own idx (le idx)) ∙ same, f.chunks idx placed)
  Knows-frame f (some (link_loop l idx)) le (filled, placed) =
      (Filled-frame l idx f (of_own idx (le idx)) filled, f.chunks idx placed)
  Knows-frame f (some (link_saw l idx old)) le (filled, placed) =
      (Filled-frame l idx f (of_own idx (le idx)) filled, f.chunks idx placed)
  Knows-frame f (some (link_set l idx old)) le (filled, at, placed) = (
    Filled-frame l idx f (of_own idx (le idx)) filled,
    f.nexts idx (of_own idx (le idx)) ∙ at,
    f.chunks idx placed,
  )
  Knows-frame f (some (counting l)) le k = tt
