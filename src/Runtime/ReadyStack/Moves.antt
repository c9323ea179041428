-- ===== src/Runtime/ReadyStack/Moves.antt =====
-- runtime/ReadyStack.h: `push`, `pop`, `acquireNode`, `linkFront` and `unlinkFront` as the moves of a
-- thread, a shared access at a time.
use proto_scala.Common.{
  ℕ, ◌+◌, ◌^◌, ◌<◌, ◌≤◌, ◌≡◌, ◌≢◌, true, false, Option, none, some, List, [], ◌∷◌, ◌++◌, replicate,
}
use proto_scala.Runtime.ReadyStack.Nodes.{k_nil, k_capacity, chunk_of}
use proto_scala.Runtime.ReadyStack.State.{
  Link, Memory, Pc, Unlink, Word, bumped, count_in, counting, fetch_fresh, fetching, filling,
  finding_chunk, for_pop, for_push, found_empty, in_use, install, installing, link_loop, link_saw,
  link_set, link_side, linked, note, of_pop, of_push, set_head, set_next, set_value, spare, taking,
  unlink_loop, unlink_read, unlink_saw, unlink_side, unlinked,
}

module _ {V : Type 0} where
  -- A move of a thread, which is in no call or in one. A compare-exchange may fail at any time, and
  -- reads the word again, as the head of the loop does.
  pub data Move (m : Memory V) : Option (Pc V) → Memory V → Option (Pc V) → Type 0 where
    push : (x : V) → Move m none m (some (unlink_loop (for_push x)))
    pop : Move m none m (some (unlink_loop for_pop))
    finds_none :
        {x : V}
        → (m.head spare).index ≡ k_nil
        → Move m (some (unlink_loop (for_push x))) m (some (fetching x))
    finds_empty :
        (m.head in_use).index ≡ k_nil
        → Move m (some (unlink_loop for_pop)) (note found_empty m) none
    sees :
        {u : Unlink V}
        → (m.head (unlink_side u)).index ≢ k_nil
        → Move m
            (some (unlink_loop u))
            m
            (some (unlink_saw u (m.head (unlink_side u)) (m.updates (unlink_side u))))
    reads :
        {u : Unlink V} {old : Word} {n : ℕ}
        → Move m (some (unlink_saw u old n)) m (some (unlink_read u old n (m.next old.index)))
    unlinks :
        {u : Unlink V} {old : Word} {n next : ℕ}
        → m.head (unlink_side u) ≡ old
        → Move m
            (some (unlink_read u old n next))
            (unlinked u old.index (set_head (unlink_side u) (bumped old next) m)).0
            (some (unlinked u old.index (set_head (unlink_side u) (bumped old next) m)).1)
    unlink_fails :
        {u : Unlink V} {old : Word} {n next : ℕ}
        → Move m (some (unlink_read u old n next)) m (some (unlink_loop u))
    fetches :
        {x : V}
        → m.next_fresh < k_capacity
        → Move m (some (fetching x)) (fetch_fresh m) (some (finding_chunk x m.next_fresh))
    fetch_throws :
        {x : V} → k_capacity ≤ m.next_fresh → Move m (some (fetching x)) (fetch_fresh m) none
    finds_chunk :
        {x : V} {idx : ℕ}
        → m.installed (chunk_of idx) ≡ true
        → Move m (some (finding_chunk x idx)) m (some (filling x idx))
    lacks_chunk :
        {x : V} {idx : ℕ}
        → m.installed (chunk_of idx) ≡ false
        → Move m (some (finding_chunk x idx)) m (some (installing x idx))
    installs :
        {x : V} {idx : ℕ}
        → Move m (some (installing x idx)) (install (chunk_of idx) m) (some (filling x idx))
    fills :
        {x : V} {idx : ℕ}
        → Move m (some (filling x idx)) (set_value idx x m) (some (link_loop (of_push x) idx))
    takes :
        {idx : ℕ} {x : V}
        → Move m (some (taking idx x)) m (some (link_loop (of_pop (m.value idx)) idx))
    link_sees :
        {l : Link V} {idx : ℕ}
        → Move m (some (link_loop l idx)) m (some (link_saw l idx (m.head (link_side l))))
    stores :
        {l : Link V} {idx : ℕ} {old : Word}
        → Move m (some (link_saw l idx old)) (set_next idx old.index m) (some (link_set l idx old))
    links :
        {l : Link V} {idx : ℕ} {old : Word}
        → m.head (link_side l) ≡ old
        → Move m
            (some (link_set l idx old))
            (linked l (set_head (link_side l) (bumped old idx) m))
            (some (counting l))
    link_fails :
        {l : Link V} {idx : ℕ} {old : Word}
        → Move m (some (link_set l idx old)) m (some (link_loop l idx))
    counts : {l : Link V} → Move m (some (counting l)) (count_in l m) none

-- A stack and where each thread stands
pub record World (V : Type 0) : Type 0 where
  pub memory : Memory V
  pub threads : List (Option (Pc V))

module _ {V : Type 0} where
  pub data Step (w : World V) : World V → Type 0 where
    step :
        (us ts : List (Option (Pc V))) {pre post : Option (Pc V)} {m : Memory V}
        → w.threads ≡ us ++ pre ∷ ts
        → Move w.memory pre m post
        → Step w (record { memory = m; threads = us ++ post ∷ ts })

  -- A new stack; `x` is what its nodes hold at first.
  abbrev pub new_stack : V → ℕ → World V
  new_stack x n = record {
    memory = record {
      head = λ s. record { generation = 0; index = k_nil };
      updates = λ s. 0;
      value = λ i. x;
      next = λ i. k_nil;
      installed = λ k. false;
      next_fresh = 0;
      added = 0;
      subtracted = 0;
      history = [];
    };
    threads = replicate n none;
  }

  -- What is reached through worlds that have the property.
  pub data Reaches (P : World V → Type 0) : World V → Type 0 where
    at_first : (x : V) (n : ℕ) → Reaches P (new_stack x n)
    after : {w v : World V} → Reaches P w → P w → Step w v → Reaches P v

  -- Fewer than 2 ^ 32 changes of its word have passed an `unlinkFront` that has read it.
  abbrev pub OnTime : Memory V → Option (Pc V) → Type 0
  OnTime m (some (unlink_saw u old n)) = m.updates (unlink_side u) < n + 2 ^ 32
  OnTime m (some (unlink_read u old n next)) = m.updates (unlink_side u) < n + 2 ^ 32
  OnTime m _ = Unit
