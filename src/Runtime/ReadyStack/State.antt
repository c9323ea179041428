-- ===== src/Runtime/ReadyStack/State.antt =====
-- runtime/ReadyStack.h: the words, the nodes and the fields of a stack, and where a call of it stands.
use proto_scala.Common.{
  ℕ, suc, ◌+◌, ◌-◌, ◌%◌, ◌^◌, Bool, true, false, ◌==◌, if◌then◌else◌, List, ◌∷◌,
}

-- `generation` and `index` of a 64-bit word
pub record Word : Type 0 where
  pub generation : ℕ
  pub index : ℕ

-- `pack(generationOf(old) + 1, idx)`
abbrev pub bumped : Word → ℕ → Word
bumped old idx = record { generation = (old.generation + 1) % 2 ^ 32; index = idx }

-- `head_` and `free_`
pub data Side : Type 0 where
  in_use spare : Side

abbrev pub same_side : Side → Side → Bool
same_side in_use in_use = true
same_side spare spare = true
same_side _ _ = false

-- Where a push and a pop took effect. The code keeps no history.
pub data Event (V : Type 0) : Type 0 where
  pushed popped : V → Event V
  found_empty : Event V

-- The shared memory: the two words, the nodes, which chunks are installed, `nextFresh_`, and `size_` as
-- what was added and what was subtracted. `updates` counts the changes of a word and `history` has the latest event first; the code
-- has neither.
pub record Memory (V : Type 0) : Type 0 where
  pub head : Side → Word
  pub updates : Side → ℕ
  pub value : ℕ → V
  pub next : ℕ → ℕ
  pub installed : ℕ → Bool
  pub next_fresh : ℕ
  pub added : ℕ
  pub subtracted : ℕ
  pub history : List (Event V)

-- Whose `unlinkFront` or `linkFront` it is, with the value that a push stores, or that a pop returns.
pub data Unlink (V : Type 0) : Type 0 where
  for_push : V → Unlink V
  for_pop : Unlink V

pub data Link (V : Type 0) : Type 0 where
  of_push of_pop : V → Link V

abbrev pub unlink_side : {V : Type 0} → Unlink V → Side
unlink_side (for_push x) = spare
unlink_side for_pop = in_use

abbrev pub link_side : {V : Type 0} → Link V → Side
link_side (of_push x) = in_use
link_side (of_pop x) = spare

-- Where a call stands, with the locals that are live there. `n` is how often the word of `unlinkFront` had
-- changed when it was read, and the value at `taking` is the one that the history says was popped: neither is in the
-- code.
pub data Pc (V : Type 0) : Type 0 where
  unlink_loop : (u : Unlink V) → Pc V  -- `unlinkFront`: before the word is read
  unlink_saw : (u : Unlink V) (old : Word) (n : ℕ) → Pc V  -- before the successor is read
  unlink_read : (u : Unlink V) (old : Word) (n next : ℕ) → Pc V  -- before the compare-exchange
  fetching : (x : V) → Pc V  -- `acquireNode`: before `nextFresh_.fetch_add`
  finding_chunk : (x : V) (idx : ℕ) → Pc V  -- `acquireNode`: before the chunk is looked up
  installing : (x : V) (idx : ℕ) → Pc V  -- `acquireNode`: before the chunk is installed
  filling : (x : V) (idx : ℕ) → Pc V  -- `push`: before the value is stored
  taking : (idx : ℕ) (x : V) → Pc V  -- `pop`: before the value is read
  link_loop : (l : Link V) (idx : ℕ) → Pc V  -- `linkFront`: before the word is read
  link_saw : (l : Link V) (idx : ℕ) (old : Word) → Pc V  -- before the link is stored
  link_set : (l : Link V) (idx : ℕ) (old : Word) → Pc V  -- before the compare-exchange
  counting : (l : Link V) → Pc V  -- before `size_` is changed

abbrev pub at_side {ℓ} : {A : Type ℓ} → Side → A → (Side → A) → Side → A
at_side s v f = λ t. if same_side t s then v else f t

abbrev pub update {ℓ} : {A : Type ℓ} → ℕ → A → (ℕ → A) → ℕ → A
update i v f = λ j. if j == i then v else f j

module _ {V : Type 0} where
  abbrev pub set_value : ℕ → V → Memory V → Memory V
  set_value i x m = record m { value = update i x m.value }

  abbrev pub set_next : ℕ → ℕ → Memory V → Memory V
  set_next i j m = record m { next = update i j m.next }

  -- A compare-exchange that succeeds
  abbrev pub set_head : Side → Word → Memory V → Memory V
  set_head s w m = record m {
    head = at_side s w m.head;
    updates = at_side s (suc (m.updates s)) m.updates;
  }

  -- The compare-exchange of a chunk: where it fails, another thread has installed the chunk.
  abbrev pub install : ℕ → Memory V → Memory V
  install k m = record m { installed = update k true m.installed }

  abbrev pub fetch_fresh : Memory V → Memory V
  fetch_fresh m = record m { next_fresh = suc m.next_fresh }

  abbrev pub note : Event V → Memory V → Memory V
  note e m = record m { history = e ∷ m.history }

  abbrev pub count_in : Link V → Memory V → Memory V
  count_in (of_push x) m = record m { added = suc m.added }
  count_in (of_pop x) m = record m { subtracted = suc m.subtracted }

  -- `approxSize`
  abbrev pub approx_size : Memory V → ℕ
  approx_size m = m.added - m.subtracted

  -- Behind `unlinkFront`, which took a node off the list
  abbrev pub unlinked : Unlink V → ℕ → Memory V → Memory V × Pc V
  unlinked (for_push x) idx m = (m, filling x idx)
  unlinked for_pop idx m = (note (popped (m.value idx)) m, taking idx (m.value idx))

  -- Behind the compare-exchange of `linkFront`
  abbrev pub linked : Link V → Memory V → Memory V
  linked (of_push x) m = note (pushed x) m
  linked (of_pop x) m = m
