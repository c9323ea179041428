-- ===== src/Runtime/ReadyStack/Owned.antt =====
-- runtime/ReadyStack.h: a node belongs to one list or one call, through every access.
use proto_scala.Common.{
  Bool, true, ℕ, ◌+◌, ◌<◌, ◌≡◌, ◌≢◌, refl, sym, ap, subst, ◌∙◌, ◌==◌, if◌then◌else◌, List, [], ◌∷◌,
  map, count, arith,
}
use proto_scala.Runtime.ReadyStack.Nodes.{k_nil, chunk_of}
use proto_scala.Runtime.ReadyStack.State.{
  Word, Side, in_use, spare, Event, Memory, update, set_value, set_next, set_head, install,
}
use proto_scala.Runtime.ReadyStack.Kept.{Chain, IsKept, IsFrame}

abbrev pub sides : {A : Type 0} → A → A → Side → A
sides a b in_use = a
sides a b spare = b

pub both : (P : Side → Type 0) → P in_use → P spare → (s : Side) → P s
both P p q in_use = p
both P p q spare = q

distinct : (i j n : ℕ) → (if j == i then 1 else 0) + n ≡ 0 → j ≢ i
distinct i j n z e = ground arith

pub update-other : {A : Type 0} (i j : ℕ) (v : A) (f : ℕ → A) → j ≢ i → update i v f j ≡ f j
update-other i j v f ne = ground arith

pub update-same : {A : Type 0} (i : ℕ) (v : A) (f : ℕ → A) → update i v f i ≡ v
update-same i v f = ground arith

update-true : (i j : ℕ) (f : ℕ → Bool) → f j ≡ true → update i true f j ≡ true
update-true i j f h = ground arith

pub Chain-pop :
    (next : ℕ → ℕ) (i : ℕ) (c : List ℕ)
    → Chain next i c
    → i ≢ k_nil
    → (js : List ℕ) × (c ≡ i ∷ js) × Chain next (next i) js
Chain-pop next i [] h ne = absurd (ne h)
Chain-pop next i (j ∷ js) (e, lt, h) ne =
    (js, ap (λ x. x ∷ js) (sym e), subst (λ x. Chain next (next x) js) (sym e) h)

pub Chain-update :
    (next : ℕ → ℕ) (i v h : ℕ) (c : List ℕ)
    → count i c ≡ 0
    → Chain next h c
    → Chain (update i v next) h c
Chain-update next i v h [] z k = k
Chain-update next i v h (j ∷ js) z (e, ne, k) = (
  e,
  ne,
  subst (λ x. Chain (update i v next) x js) (sym (update-other i j v next (distinct i j _ z)))
      (Chain-update next i v (next j) js (omega arith) k),
)

-- The list is empty at a word without a node.
pub Chain-nil : (next : ℕ → ℕ) (i : ℕ) (c : List ℕ) → Chain next i c → i ≡ k_nil → c ≡ []
Chain-nil next i [] h e = refl
Chain-nil next i (j ∷ js) (same, ne, h) e = absurd (ne e)

pub Chain-top :
    (next : ℕ → ℕ) (i h : ℕ) (c : List ℕ) → Chain next h c → count i c ≡ 0 → h ≢ k_nil → h ≢ i
Chain-top next i h [] k z ne = absurd (ne k)
Chain-top next i h (j ∷ js) (same, _, k) z ne = λ e. distinct i j _ z (sym same ∙ e)

pub map-update :
    {V : Type 0} (f : ℕ → V) (i : ℕ) (x : V) (c : List ℕ)
    → count i c ≡ 0
    → map (update i x f) c ≡ map f c
map-update f i x [] z = refl
map-update f i x (j ∷ js) z =
    ap (λ y. y ∷ map (update i x f) js) (update-other i j x f (distinct i j _ z))
    ∙ ap (λ ys. f j ∷ ys) (map-update f i x js (omega arith))

unowned : (o : ℕ → ℕ) (i : ℕ) → o i ≡ 0 → (j : ℕ) → 0 < o j → j ≢ i
unowned o i z j lt e = omega (arith, z, subst (λ a. 0 < o a) e lt)

module _ {V : Type 0} where
  -- A node of a call stands in no list, and is no `k_nil`.
  pub owned-alone :
      {m : Memory V} {o : ℕ → ℕ} (k : IsKept m o) (i : ℕ)
      → 0 < o i
      → (count i (k.chain in_use) ≡ 0) × (count i (k.chain spare) ≡ 0) × (o i ≡ 1) × (i ≢ k_nil)
  owned-alone k i lt = ground (arith, k.once i)

  pub IsFrame-rest :
      {m m' : Memory V} {o : ℕ → ℕ} (fresh more less : ℕ) (es : List (Event V))
      → IsFrame m m' o
      → IsFrame m
          (record m' { next_fresh = fresh; added = more; subtracted = less; history = es })
          o
  IsFrame-rest fresh more less es f = record {
    values = f.values;
    nexts = f.nexts;
    chunks = f.chunks;
    later = f.later;
    heads = f.heads;
    tops = f.tops;
  }

  pub IsFrame-same : {m : Memory V} {o : ℕ → ℕ} → IsFrame m m o
  IsFrame-same = record {
    values = λ i lt. refl;
    nexts = λ i lt. refl;
    chunks = λ i h. h;
    later = λ s. omega arith;
    heads = λ s e. refl;
    tops = λ s e ne. refl;
  }

  pub IsFrame-value :
      {m : Memory V} {o : ℕ → ℕ} (i : ℕ) (x : V) → o i ≡ 0 → IsFrame m (set_value i x m) o
  IsFrame-value {m} {o} i x z = record {
    values = λ j lt. update-other i j x m.value (unowned o i z j lt);
    nexts = λ j lt. refl;
    chunks = λ i h. h;
    later = λ s. omega arith;
    heads = λ s e. refl;
    tops = λ s e ne. refl;
  }

  pub IsFrame-next :
      {m : Memory V} {o : ℕ → ℕ} (i v : ℕ)
      → o i ≡ 0
      → ((s : Side) → (m.head s).index ≢ k_nil → (m.head s).index ≢ i)
      → IsFrame m (set_next i v m) o
  IsFrame-next {m} {o} i v z top = record {
    values = λ j lt. refl;
    nexts = λ j lt. update-other i j v m.next (unowned o i z j lt);
    chunks = λ i h. h;
    later = λ s. omega arith;
    heads = λ s e. refl;
    tops = λ s e ne. update-other i (m.head s).index v m.next (top s ne);
  }

  pub IsFrame-head : {m : Memory V} {o : ℕ → ℕ} (s : Side) (w : Word) → IsFrame m (set_head s w m) o
  IsFrame-head {m} in_use w = record {
    values = λ i lt. refl;
    nexts = λ i lt. refl;
    chunks = λ i h. h;
    later = both _ (omega arith) (omega arith);
    heads = both _ (λ e. absurd (omega (arith, e))) (λ e. refl);
    tops = λ s e ne. refl;
  }
  IsFrame-head {m} spare w = record {
    values = λ i lt. refl;
    nexts = λ i lt. refl;
    chunks = λ i h. h;
    later = both _ (omega arith) (omega arith);
    heads = both _ (λ e. refl) (λ e. absurd (omega (arith, e)));
    tops = λ s e ne. refl;
  }

  pub IsFrame-chunk : {m : Memory V} {o : ℕ → ℕ} (k : ℕ) → IsFrame m (install k m) o
  IsFrame-chunk {m} k = record {
    values = λ i lt. refl;
    nexts = λ i lt. refl;
    chunks = λ i (lt, h). (lt, update-true k (chunk_of i) m.installed h);
    later = λ s. omega arith;
    heads = λ s e. refl;
    tops = λ s e ne. refl;
  }
