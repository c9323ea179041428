-- ===== src/Runtime/ReadyStack/Tests.antt =====
-- runtime/ReadyStack.h: a push and a pop, an access at a time.
use proto_scala.Common.{
  true, none, some, ◌≤◌, ℕ, ◌+◌, ◌^◌, ◌<◌, ◌≡◌, ◌≢◌, refl, Option, List, [], ◌∷◌, All, arith, map,
  length, sum_of,
}
use proto_scala.Runtime.ReadyStack.Nodes.{
  k_nil, k_first_chunk_bits, k_max_chunks, chunk_of, offset_of, bit_width,
}
use proto_scala.Runtime.ReadyStack.State.{
  taking, Word, unlink_read, for_pop, in_use, pushed, popped, Memory, Pc, approx_size,
}
use proto_scala.Runtime.ReadyStack.Moves.{
  lacks_chunk, installs, Move, push, pop, finds_none, sees, reads, unlinks, fetches, fills,
  link_sees, stores, links, counts, World, step, Reaches, at_first, after, OnTime,
}
use proto_scala.Runtime.ReadyStack.Kept.{Chain, Legal, IsKept, owns}
use proto_scala.Runtime.ReadyStack.Linear.{Reaches-Legal, Reaches-IsKept, Reaches-taking}
use proto_scala.Runtime.ReadyStack.InChunks.{reads_value, Reaches-in_chunk}
use proto_scala.Runtime.ReadyStack.Progress.{Alone, Alone-ends}
use proto_scala.Runtime.ReadyStack.Sizes.{approx_size-length}

abbrev AllOnTime : World ℕ → Type 0
AllOnTime w = All (OnTime w.memory) w.threads

-- The only thread makes a move.
abbrev alone : Memory ℕ → Option (Pc ℕ) → World ℕ
alone m p = record { memory = m; threads = p ∷ [] }

moves :
    {m m' : Memory ℕ} {pre post : Option (Pc ℕ)}
    → Reaches AllOnTime (alone m pre)
    → OnTime m pre
    → Move m pre m' post
    → Reaches AllOnTime (alone m' post)
moves r lt move = after r (lt, tt) (step [] [] refl move)

zero-ne_nil : 0 ≢ k_nil
zero-ne_nil e = ground arith

abbrev after_push : (w : World ℕ) × Reaches AllOnTime w
after_push =
    let r = moves (moves (at_first 0 1) tt (push 7)) tt (finds_none refl) in
    let r = moves (moves r tt (fetches (omega arith))) tt (lacks_chunk refl) in
    let r = moves (moves r tt installs) tt fills in
    let r = moves (moves r tt link_sees) tt stores in (_, moves (moves r tt (links refl)) tt counts)

abbrev stale : Word
stale = record { generation = 0; index = 0 }

-- A pop that has taken the node off, and not yet read its value
abbrev before_take : (w : World ℕ) × Reaches AllOnTime w
before_take =
    let r = moves (moves after_push.1 tt pop) tt (sees zero-ne_nil) in
    (_, moves (moves r (omega arith) reads) (omega arith) (unlinks refl))

places : (chunk_of 700 ≡ 1) × (offset_of 700 ≡ 444)
unfolding chunk_of offset_of bit_width
places = (refl, refl)

Reaches-Legal_example :
    (nodes : List ℕ) × Chain before_take.0.memory.next
      (before_take.0.memory.head in_use).index
      nodes
    × Legal before_take.0.memory.history (map before_take.0.memory.value nodes)
Reaches-Legal_example = Reaches-Legal before_take.1

took : before_take.0.memory.history ≡ popped 7 ∷ pushed 7 ∷ []
took = refl

Reaches-IsKept_example : IsKept before_take.0.memory (λ i. sum_of (owns i) before_take.0.threads)
Reaches-IsKept_example = Reaches-IsKept before_take.1

Reaches-taking_example : before_take.0.memory.value 0 ≡ 7
Reaches-taking_example = Reaches-taking [] [] before_take.1 refl

Reaches-in_chunk_example :
    (chunk_of 0 < k_max_chunks)
    × (before_take.0.memory.installed (chunk_of 0) ≡ true)
    × (offset_of 0 < 2 ^ (k_first_chunk_bits + chunk_of 0))
Reaches-in_chunk_example =
    Reaches-in_chunk [] [] (some (taking 0 7)) 0 before_take.1 refl reads_value

approx_size-length_example :
    (nodes : List ℕ) × Chain after_push.0.memory.next (after_push.0.memory.head in_use).index nodes
    × (approx_size after_push.0.memory ≡ length nodes)
approx_size-length_example = approx_size-length after_push.1 (refl, tt)

-- A pop that is stopped before its compare-exchange, when a push has changed the word
Alone-ends_example :
    ((n : ℕ) × (m' : Memory ℕ) × Alone after_push.0.memory
        (some (unlink_read for_pop stale 0 k_nil))
        m'
        none
        n)
    × ((m' : Memory ℕ) (q : Option (Pc ℕ)) (n : ℕ)
        → Alone after_push.0.memory (some (unlink_read for_pop stale 0 k_nil)) m' q n
        → n ≤ 12)
Alone-ends_example = Alone-ends after_push.0.memory (unlink_read for_pop stale 0 k_nil)
