-- ===== src/Runtime/ReadyStack/Unlinks.antt =====
-- runtime/ReadyStack.h: what takes a node off a list keeps the nodes in their lists or with their calls.
use proto_scala.Common.{
  ℕ, suc, ◌+◌, ◌%◌, ◌^◌, ◌<◌, ◌≡◌, ◌≢◌, refl, sym, ap, subst, Option, some, List, ◌∷◌, map, count,
  arith,
}
use proto_scala.Runtime.ReadyStack.Nodes.{k_nil}
use proto_scala.Runtime.ReadyStack.State.{
  Word, bumped, Side, in_use, spare, popped, Memory, Pc, filling, taking, set_head, note,
}
use proto_scala.Runtime.ReadyStack.Kept.{
  Chain, Legal, owns, allocated, Saw, Placed, Knows, IsKept, IsFrame,
}
use proto_scala.Runtime.ReadyStack.Owned.{sides, both, Chain-pop, IsFrame-rest, IsFrame-head}

module _ {V : Type 0} where
  -- What a move of one call gives, when `o i` other calls have node `i`.
  abbrev pub Carries : Memory V → (ℕ → ℕ) → Memory V → Option (Pc V) → Type 0
  Carries m o m' post = IsKept m' (λ i. owns i post + o i) × Knows m' post × IsFrame m m' o

  -- The word is still the one that was read, for its generation cannot come round on time.
  unchanged :
      {m : Memory V} {o : ℕ → ℕ} (s : Side) {old : Word} {n : ℕ}
      → IsKept m o
      → Saw m s old n
      → m.updates s < n + 2 ^ 32
      → m.head s ≡ old
      → n ≡ m.updates s
  unchanged s k (le, gen, _) lt e =
      omega (arith, k.generations s, ap (λ w. w.generation) e, gen, le, lt)

  -- What `unlinkFront` leaves of a list
  left :
      {m : Memory V} {o : ℕ → ℕ} (s : Side) {old : Word} {n next : ℕ}
      → (k : IsKept m o) → Saw m s old n
      → old.index ≢ k_nil
      → (n ≡ m.updates s → next ≡ m.next old.index)
      → m.updates s < n + 2 ^ 32
      → m.head s ≡ old
      → (js : List ℕ) × (k.chain s ≡ old.index ∷ js)
        × Chain m.next next js
        × ((bumped old next).generation ≡ suc (m.updates s) % 2 ^ 32)
  left {m} s {old} k saw ne at lt e =
      let front = subst (λ w. Chain m.next w.index (k.chain s)) e (k.chained s) in
      let (js, c, rest) = Chain-pop m.next old.index (k.chain s) front ne in
      let read = at (unchanged s k saw lt e) in
      (
        js,
        c,
        subst (λ i. Chain m.next i js) (sym read) rest,
        omega (arith, k.generations s, ap (λ w. w.generation) e),
      )

  pub unlinks-push :
      {m : Memory V} {o : ℕ → ℕ} {old : Word} {n next : ℕ} (x : V)
      → IsKept m o
      → Saw m spare old n
      → old.index ≢ k_nil
      → (n ≡ m.updates spare → next ≡ m.next old.index)
      → Placed m old.index
      → m.updates spare < n + 2 ^ 32
      → m.head spare ≡ old
      → Carries m o (set_head spare (bumped old next) m) (some (filling x old.index))
  unlinks-push {m} {o} {old} {n} {next} x k saw ne at there lt e =
      let (js, c, rest, gen) = left spare {next = next} k saw ne at lt e in
      (
        record {
          chain = sides (k.chain in_use) js;
          chained = both _ (k.chained in_use) rest;
          generations = both _ (k.generations in_use) gen;
          once = λ i. omega (
            arith,
            subst (λ c. count i (k.chain in_use) + count i c + o i ≡ allocated m i) c (k.once i),
          );
          placed = λ i lt.
              k.placed i
                (subst (λ c. 0 < count i (k.chain in_use) + count i c) (sym c) (omega arith));
          legal = k.legal;
        },
        there,
        IsFrame-head spare (bumped old next),
      )

  pub unlinks-pop :
      {m : Memory V} {o : ℕ → ℕ} {old : Word} {n next : ℕ}
      → IsKept m o
      → Saw m in_use old n
      → old.index ≢ k_nil
      → (n ≡ m.updates in_use → next ≡ m.next old.index)
      → Placed m old.index
      → m.updates in_use < n + 2 ^ 32
      → m.head in_use ≡ old
      → Carries m o
          (note (popped (m.value old.index)) (set_head in_use (bumped old next) m))
          (some (taking old.index (m.value old.index)))
  unlinks-pop {m} {o} {old} {n} {next} k saw ne at there lt e =
      let (js, c, rest, gen) = left in_use {next = next} k saw ne at lt e in
      (
        record {
          chain = sides js (k.chain spare);
          chained = both _ rest (k.chained spare);
          generations = both _ gen (k.generations spare);
          once = λ i. omega (
            arith,
            subst (λ c. count i c + count i (k.chain spare) + o i ≡ allocated m i) c (k.once i),
          );
          placed = λ i lt.
              k.placed i
                (subst (λ c. 0 < count i c + count i (k.chain spare)) (sym c) (omega arith));
          legal = subst (λ c. Legal m.history (map m.value c)) c k.legal;
        },
        (refl, there),
        IsFrame-rest m.next_fresh m.added m.subtracted _ (IsFrame-head in_use (bumped old next)),
      )
