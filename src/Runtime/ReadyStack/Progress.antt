-- ===== src/Runtime/ReadyStack/Progress.antt =====
-- runtime/ReadyStack.h: a call that runs alone ends.
use proto_scala.Common.{
  ℕ, zero, suc, ◌+◌, ◌<◌, ◌≤◌, ◌≡◌, ◌≢◌, refl, ap, Bool, true, false, ◌&&◌, ltb, ◌==◌,
  if◌then◌else◌, Option, none, some, arith, Bool-cases, inl, inr,
}
use proto_scala.Runtime.ReadyStack.Nodes.{chunk_of, k_nil, k_capacity}
use proto_scala.Runtime.ReadyStack.State.{
  Word, Memory, Unlink, for_push, for_pop, Link, unlink_side, link_side, Pc, unlink_loop,
  unlink_saw, unlink_read, fetching, finding_chunk, installing, filling, taking, link_loop,
  link_saw, link_set, counting,
}
use proto_scala.Runtime.ReadyStack.Moves.{
  Move, finds_none, finds_empty, sees, reads, unlinks, unlink_fails, fetches, fetch_throws,
  finds_chunk, lacks_chunk, installs, fills, takes, link_sees, stores, links, link_fails, counts,
}

abbrev same_word : Word → Word → Bool
same_word w old = w.generation == old.generation && w.index == old.index

same_word→≡ : (w old : Word) → same_word w old ≡ true → w ≡ old
same_word→≡ w old h =
    let g : w.generation ≡ old.generation = ground arith in
    let x : w.index ≡ old.index = ground arith in λ i. record { generation = g i; index = x i }

true-ne-false : {b : Bool} → b ≡ false → b ≡ true → ⊥
true-ne-false e d = cc

same_word-≡ : (w old : Word) → w ≡ old → same_word w old ≡ true
same_word-≡ w old e = ground (arith, ap (λ v. v.generation) e, ap (λ v. v.index) e)

other_word : (w old : Word) → w ≢ old → same_word w old ≡ false
other_word w old ne = elim (Bool-cases (same_word w old)) [
  | inl e ↦ absurd (ne (same_word→≡ w old e))
  | inr e ↦ e
]

module _ {V : Type 0} where
  -- A compare-exchange fails only where the word has changed.
  abbrev pub IsFirm : {m m' : Memory V} {pre post : Option (Pc V)} → Move m pre m' post → Type 0
  IsFirm {m} (unlink_fails {u} {old}) = m.head (unlink_side u) ≢ old
  IsFirm {m} (link_fails {l} {old = old}) = m.head (link_side l) ≢ old
  IsFirm _ = Unit

  -- How many more accesses a call makes at most, when it runs alone.
  abbrev pub left : Memory V → Option (Pc V) → ℕ
  left m none = 0
  left m (some (unlink_loop u)) = 10
  left m (some (unlink_saw u old n)) = if same_word (m.head (unlink_side u)) old then 8 else 12
  left m (some (unlink_read u old n next)) =
      if same_word (m.head (unlink_side u)) old then 7 else 11
  left m (some (fetching x)) = 9
  left m (some (finding_chunk x idx)) = 8
  left m (some (installing x idx)) = 7
  left m (some (filling x idx)) = 6
  left m (some (taking idx x)) = 6
  left m (some (link_loop l idx)) = 4
  left m (some (link_saw l idx old)) = if same_word (m.head (link_side l)) old then 3 else 6
  left m (some (link_set l idx old)) = if same_word (m.head (link_side l)) old then 2 else 5
  left m (some (counting l)) = 1

  Move-left :
      {m m' : Memory V} {p : Pc V} {post : Option (Pc V)} (move : Move m (some p) m' post)
      → IsFirm move
      → left m' post < left m (some p)
  Move-left (finds_none e) h = omega arith
  Move-left (finds_empty e) h = omega arith
  Move-left {m} (sees {u} ne) h = rw (same_word-≡ (m.head (unlink_side u)) _ refl) (omega arith)
  Move-left {m} (reads {u} {old}) h = ground arith
  Move-left {m} (unlinks {u = for_push x} e) h = rw (same_word-≡ _ _ e) (omega arith)
  Move-left {m} (unlinks {u = for_pop} e) h = rw (same_word-≡ _ _ e) (omega arith)
  Move-left {m} (unlink_fails {u} {old}) h =
      rw (other_word (m.head (unlink_side u)) old h) (omega arith)
  Move-left (fetches lt) h = omega arith
  Move-left (fetch_throws le) h = omega arith
  Move-left (finds_chunk e) h = omega arith
  Move-left (lacks_chunk e) h = omega arith
  Move-left installs h = omega arith
  Move-left fills h = omega arith
  Move-left takes h = omega arith
  Move-left {m} (link_sees {l}) h = rw (same_word-≡ (m.head (link_side l)) _ refl) (omega arith)
  Move-left {m} (stores {l} {old = old}) h = ground arith
  Move-left {m} (links e) h = rw (same_word-≡ _ _ e) (omega arith)
  Move-left {m} (link_fails {l} {old = old}) h =
      rw (other_word (m.head (link_side l)) old h) (omega arith)
  Move-left counts h = omega arith

  abbrev Firm : Memory V → Pc V → Type 0
  Firm m p =
      (m' : Memory V) × (post : Option (Pc V)) × (move : Move m (some p) m' post) × IsFirm move

  found_nothing :
      (m : Memory V) (u : Unlink V)
      → (m.head (unlink_side u)).index ≡ k_nil
      → Firm m (unlink_loop u)
  found_nothing m (for_push x) e = (_, _, finds_none e, tt)
  found_nothing m for_pop e = (_, _, finds_empty e, tt)

  word_read : (m : Memory V) (u : Unlink V) → Firm m (unlink_loop u)
  word_read m u = elim (Bool-cases ((m.head (unlink_side u)).index == k_nil)) [
    | inl e ↦ found_nothing m u (ground arith)
    | inr e ↦ (_, _, sees (ground arith), tt)
  ]

  fresh_fetched : (m : Memory V) (x : V) → Firm m (fetching x)
  fresh_fetched m x = elim (Bool-cases (ltb m.next_fresh k_capacity)) [
    | inl e ↦ (_, _, fetches (ground arith), tt)
    | inr e ↦ (_, _, fetch_throws (ground arith), tt)
  ]

  chunk_sought : (m : Memory V) (x : V) (idx : ℕ) → Firm m (finding_chunk x idx)
  chunk_sought m x idx = elim (Bool-cases (m.installed (chunk_of idx))) [
    | inl e ↦ (_, _, finds_chunk e, tt)
    | inr e ↦ (_, _, lacks_chunk e, tt)
  ]

  unlink_tried :
      (m : Memory V) (u : Unlink V) (old : Word) (n next : ℕ) → Firm m (unlink_read u old n next)
  unlink_tried m u old n next = elim (Bool-cases (same_word (m.head (unlink_side u)) old)) [
    | inl e ↦ (_, _, unlinks (same_word→≡ _ old e), tt)
    | inr e ↦ (_, _, unlink_fails, λ d. true-ne-false e (same_word-≡ _ old d))
  ]

  link_tried : (m : Memory V) (l : Link V) (idx : ℕ) (old : Word) → Firm m (link_set l idx old)
  link_tried m l idx old = elim (Bool-cases (same_word (m.head (link_side l)) old)) [
    | inl e ↦ (_, _, links (same_word→≡ _ old e), tt)
    | inr e ↦ (_, _, link_fails, λ d. true-ne-false e (same_word-≡ _ old d))
  ]

  next_access : (m : Memory V) (p : Pc V) → Firm m p
  next_access m (unlink_loop u) = word_read m u
  next_access m (unlink_saw u old n) = (_, _, reads, tt)
  next_access m (unlink_read u old n next) = unlink_tried m u old n next
  next_access m (fetching x) = fresh_fetched m x
  next_access m (finding_chunk x idx) = chunk_sought m x idx
  next_access m (installing x idx) = (_, _, installs, tt)
  next_access m (filling x idx) = (_, _, fills, tt)
  next_access m (taking idx x) = (_, _, takes, tt)
  next_access m (link_loop l idx) = (_, _, link_sees, tt)
  next_access m (link_saw l idx old) = (_, _, stores, tt)
  next_access m (link_set l idx old) = link_tried m l idx old
  next_access m (counting l) = (_, _, counts, tt)

  -- A call makes a number of accesses, and no other does.
  pub data Alone : Memory V → Option (Pc V) → Memory V → Option (Pc V) → ℕ → Type 0 where
    still : {m : Memory V} {p : Option (Pc V)} → Alone m p m p 0
    on :
        {m m' m'' : Memory V} {p : Pc V} {q r : Option (Pc V)} {n : ℕ} (move : Move m (some p) m' q)
        → IsFirm move
        → Alone m' q m'' r n
        → Alone m (some p) m'' r (suc n)

  Alone-left :
      {m m' : Memory V} {p q : Option (Pc V)} {n : ℕ} → Alone m p m' q n → n + left m' q ≤ left m p
  Alone-left still = omega arith
  Alone-left (on move firm a) = omega (arith, Move-left move firm, Alone-left a)

  abbrev Ended : Memory V → Option (Pc V) → Type 0
  Ended m p = (n : ℕ) × (m' : Memory V) × Alone m p m' none n

  ended : (k : ℕ) (m : Memory V) (p : Option (Pc V)) → left m p ≤ k → Ended m p
  ended k m none le = (0, m, still)
  ended zero m (some p) le =
      let (m', q, move, firm) = next_access m p in absurd (omega (arith, Move-left move firm))
  ended (suc k) m (some p) le =
      let (m', q, move, firm) = next_access m p in
      let (n, m'', a) = ended k m' q (omega (arith, Move-left move firm)) in
      (suc n, m'', on move firm a)

  left-le : (m : Memory V) (p : Option (Pc V)) → left m p ≤ 12
  left-le m none = omega arith
  left-le m (some (unlink_loop u)) = omega arith
  left-le m (some (unlink_saw u old n)) = ground arith
  left-le m (some (unlink_read u old n next)) = ground arith
  left-le m (some (fetching x)) = omega arith
  left-le m (some (finding_chunk x idx)) = omega arith
  left-le m (some (installing x idx)) = omega arith
  left-le m (some (filling x idx)) = omega arith
  left-le m (some (taking idx x)) = omega arith
  left-le m (some (link_loop l idx)) = omega arith
  left-le m (some (link_saw l idx old)) = ground arith
  left-le m (some (link_set l idx old)) = ground arith
  left-le m (some (counting l)) = omega arith

  -- From any memory, and wherever the others were stopped, a call that runs alone ends, and it makes no
  -- more than twelve accesses, when its compare-exchanges fail only where the word has changed.
  pub Alone-ends :
      (m : Memory V) (p : Pc V)
      → ((n : ℕ) × (m' : Memory V) × Alone m (some p) m' none n)
        × ((m' : Memory V) (q : Option (Pc V)) (n : ℕ) → Alone m (some p) m' q n → n ≤ 12)
  Alone-ends m p = (
    ended 12 m (some p) (left-le m (some p)),
    λ m' q n a. omega (arith, left-le m (some p), Alone-left a),
  )
