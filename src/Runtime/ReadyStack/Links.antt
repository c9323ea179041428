-- ===== src/Runtime/ReadyStack/Links.antt =====
-- runtime/ReadyStack.h: what puts a node into a list, or is about a node of a call.
use proto_scala.Common.{
  Bool-cases, inl, inr, true, ℕ, suc, ◌+◌, ◌<◌, ◌≤◌, ◌≡◌, ◌≢◌, refl, sym, ap, subst, ◌∙◌, ◌==◌,
  if◌then◌else◌, none, some, List, ◌∷◌, map, count, arith,
}
use proto_scala.Runtime.ReadyStack.Nodes.{chunk_of, k_nil, k_capacity}
use proto_scala.Runtime.ReadyStack.State.{
  Word, bumped, Side, in_use, spare, pushed, found_empty, Memory, Link, of_push, of_pop,
  finding_chunk, filling, install, link_loop, link_set, counting, set_value, set_next, set_head,
  note, fetch_fresh,
}
use proto_scala.Runtime.ReadyStack.Kept.{Chain, Legal, Placed, Filled, IsKept}
use proto_scala.Runtime.ReadyStack.Unlinks.{Carries}
use proto_scala.Runtime.ReadyStack.Owned.{
  sides, both, Chain-nil, Chain-top, Chain-update, map-update, update-same, owned-alone,
  IsFrame-rest, IsFrame-chunk, IsFrame-same, IsFrame-value, IsFrame-next, IsFrame-head,
}

module _ {V : Type 0} where
  -- The node of the call itself
  alone :
      {m : Memory V} (o : ℕ → ℕ) (i : ℕ) (k : IsKept m (λ j. (if i == j then 1 else 0) + o j))
      → (count i (k.chain in_use) ≡ 0) × (count i (k.chain spare) ≡ 0) × (o i ≡ 0) × (i ≢ k_nil)
  alone o i k =
      let (used, unused, once, ne) = owned-alone k i (ground arith) in
      (used, unused, ground arith, ne)

  Placed-or : (m : Memory V) (i idx : ℕ) → Placed m idx → (idx ≢ i → Placed m i) → Placed m i
  Placed-or m i idx there h = elim (Bool-cases (idx == i)) [
    | inl e ↦ subst (λ j. Placed m j) (ground arith) there
    | inr ne ↦ h (ground arith)
  ]

  -- What `linkFront` makes of a list
  longer :
      (m : Memory V) (s : Side) {old : Word} {idx : ℕ} (c : List ℕ)
      → Chain m.next (m.head s).index c
      → idx ≢ k_nil
      → m.next idx ≡ old.index
      → m.head s ≡ old
      → Chain m.next idx (idx ∷ c)
  longer m s c h ne at e =
      (refl, ne, subst (λ i. Chain m.next i c) (ap (λ w. w.index) e ∙ sym at) h)

  pub links-push :
      {m : Memory V} {o : ℕ → ℕ} {old : Word} {idx : ℕ} (x : V)
      → IsKept m (λ i. (if idx == i then 1 else 0) + o i)
      → m.value idx ≡ x
      → m.next idx ≡ old.index
      → Placed m idx
      → m.head in_use ≡ old
      → Carries m o
          (note (pushed x) (set_head in_use (bumped old idx) m))
          (some (counting (of_push x)))
  links-push {m} {o} {old} {idx} x k filled at there e = (
    record {
      chain = sides (idx ∷ k.chain in_use) (k.chain spare);
      chained =
          both _ (longer m in_use (k.chain in_use) (k.chained in_use) (alone _ idx k).3 at e)
            (k.chained spare);
      generations =
          both _ (omega (arith, k.generations in_use, ap (λ w. w.generation) e))
            (k.generations spare);
      once = λ i. omega (arith, k.once i);
      placed = λ i lt. Placed-or m i idx there (λ ne. k.placed i (ground arith));
      legal = (
        map m.value (k.chain in_use),
        ap (λ y. y ∷ map m.value (k.chain in_use)) filled,
        k.legal,
      );
    },
    tt,
    IsFrame-rest m.next_fresh m.added m.subtracted _ (IsFrame-head in_use (bumped old idx)),
  )

  pub links-pop :
      {m : Memory V} {o : ℕ → ℕ} {old : Word} {idx : ℕ} (x : V)
      → IsKept m (λ i. (if idx == i then 1 else 0) + o i)
      → m.next idx ≡ old.index
      → Placed m idx
      → m.head spare ≡ old
      → Carries m o (set_head spare (bumped old idx) m) (some (counting (of_pop x)))
  links-pop {m} {o} {old} {idx} x k at there e = (
    record {
      chain = sides (k.chain in_use) (idx ∷ k.chain spare);
      chained =
          both _ (k.chained in_use)
            (longer m spare (k.chain spare) (k.chained spare) (alone _ idx k).3 at e);
      generations =
          both _ (k.generations in_use)
            (omega (arith, k.generations spare, ap (λ w. w.generation) e));
      once = λ i. omega (arith, k.once i);
      placed = λ i lt. Placed-or m i idx there (λ ne. k.placed i (ground arith));
      legal = k.legal;
    },
    tt,
    IsFrame-head spare (bumped old idx),
  )

  pub fills-own :
      {m : Memory V} {o : ℕ → ℕ} (idx : ℕ) (x : V)
      → IsKept m (λ i. (if idx == i then 1 else 0) + o i)
      → Placed m idx
      → Carries m o (set_value idx x m) (some (link_loop (of_push x) idx))
  fills-own {m} {o} idx x k there = (
    record {
      chain = k.chain;
      chained = k.chained;
      generations = k.generations;
      once = k.once;
      placed = k.placed;
      legal =
          subst (λ vs. Legal m.history vs)
            (sym (map-update m.value idx x (k.chain in_use) (alone _ idx k).0)) k.legal;
    },
    (update-same idx x m.value, there),
    IsFrame-value idx x (alone _ idx k).2,
  )

  pub stores-own :
      {m : Memory V} {o : ℕ → ℕ} (old : Word) (idx : ℕ) (l : Link V)
      → IsKept m (λ i. (if idx == i then 1 else 0) + o i)
      → Filled m.value l idx
      → Placed m idx
      → Carries m o (set_next idx old.index m) (some (link_set l idx old))
  stores-own {m} {o} old idx l k filled there =
      let (used, unused, z, ne) = alone _ idx k in
      let absent : (s : Side) → count idx (k.chain s) ≡ 0 = both _ used unused in
      (
        record {
          chain = k.chain;
          chained = λ s.
              Chain-update m.next idx old.index (m.head s).index (k.chain s) (absent s)
                (k.chained s);
          generations = k.generations;
          once = k.once;
          placed = k.placed;
          legal = k.legal;
        },
        (filled, update-same idx old.index m.next, there),
        IsFrame-next idx old.index z
            (λ s ne. Chain-top m.next idx (m.head s).index (k.chain s) (k.chained s) (absent s) ne),
      )

  pub fetches-new :
      {m : Memory V} {o : ℕ → ℕ} (x : V)
      → IsKept m o
      → m.next_fresh < k_capacity
      → Carries m o (fetch_fresh m) (some (finding_chunk x m.next_fresh))
  fetches-new {m} {o} x k lt = (
    record {
      chain = k.chain;
      chained = k.chained;
      generations = k.generations;
      once = λ i. ground (arith, k.once i);
      placed = k.placed;
      legal = k.legal;
    },
    lt,
    IsFrame-rest (suc m.next_fresh) m.added m.subtracted m.history IsFrame-same,
  )

  pub fetches-none :
      {m : Memory V} {o : ℕ → ℕ}
      → IsKept m o
      → k_capacity ≤ m.next_fresh
      → Carries m o (fetch_fresh m) none
  fetches-none {m} {o} k le = (
    record {
      chain = k.chain;
      chained = k.chained;
      generations = k.generations;
      once = λ i. ground (arith, k.once i);
      placed = k.placed;
      legal = k.legal;
    },
    tt,
    IsFrame-rest (suc m.next_fresh) m.added m.subtracted m.history IsFrame-same,
  )

  pub empty-found :
      {m : Memory V} {o : ℕ → ℕ}
      → IsKept m o
      → (m.head in_use).index ≡ k_nil
      → Carries m o (note found_empty m) none
  empty-found {m} {o} k e =
      let none_left =
        Chain-nil m.next (m.head in_use).index (k.chain in_use) (k.chained in_use) e in
      (
        record {
          chain = k.chain;
          chained = k.chained;
          generations = k.generations;
          once = λ i. omega (arith, k.once i);
          placed = k.placed;
          legal = (ap (map m.value) none_left, k.legal);
        },
        tt,
        IsFrame-rest m.next_fresh m.added m.subtracted _ IsFrame-same,
      )

  pub installs-chunk :
      {m : Memory V} {o : ℕ → ℕ} (idx : ℕ) (x : V)
      → IsKept m (λ i. (if idx == i then 1 else 0) + o i)
      → idx < k_capacity
      → Carries m o (install (chunk_of idx) m) (some (filling x idx))
  installs-chunk {m} idx x k lt =
      let f = IsFrame-chunk (chunk_of idx) in
      (
        record {
          chain = k.chain;
          chained = k.chained;
          generations = k.generations;
          once = k.once;
          placed = λ i c. f.chunks i (k.placed i c);
          legal = k.legal;
        },
        (lt, update-same (chunk_of idx) true m.installed),
        f,
      )
