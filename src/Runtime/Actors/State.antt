-- ===== src/Runtime/Actors/State.antt =====
-- runtime/ActorScheduler.h and .cpp: an actor with its scheduling state, its mailboxes and its
-- cursors, and the functions that read or change them.
use proto_scala.Common.{
  ℕ, suc, Bool, true, false, not, ◌||◌, ltb, ◌==◌, if◌then◌else◌, Option, none, some, List, [], ◌∷◌,
  ◌++◌, length, get_elem?,
}

-- `kBands`: a band is 0 (High), 1 (Medium) or 2 (Low).
abbrev pub k_bands : ℕ
k_bands = 3

abbrev pub medium : ℕ
medium = 1

-- `kBatchSize`
abbrev pub k_batch_size : ℕ
k_batch_size = 8

-- An actor object with its ActorState. `sched` is 0 idle, 1 claimed, 2 claimed with a wake marked, 3
-- suspended; `snapshot` tells whether it has suspended frames. The code keeps no history: `sent` and
-- `delivered` are what a band's mailbox was given and what its handler was run on.
pub record Actor (M : Type 0) : Type 0 where
  pub sched : ℕ
  pub mailbox : ℕ → List M
  pub pending : ℕ → List M
  pub pending_idx : ℕ → ℕ
  pub snapshot : Bool
  pub sent : ℕ → List M
  pub delivered : ℕ → List M

abbrev pub at_band {ℓ} : {A : Type ℓ} → ℕ → A → (ℕ → A) → ℕ → A
at_band b v f = λ c. if c == b then v else f c

abbrev pub is_empty {ℓ} : {A : Type ℓ} → List A → Bool
is_empty [] = true
is_empty (x ∷ xs) = false

module _ {M : Type 0} where
  -- A new actor, as `spawn` makes it.
  abbrev pub new_actor : Actor M
  new_actor = record {
    sched = 0;
    mailbox = λ b. [];
    pending = λ b. [];
    pending_idx = λ b. 0;
    snapshot = false;
    sent = λ b. [];
    delivered = λ b. [];
  }

  abbrev pub set_sched : ℕ → Actor M → Actor M
  set_sched s x = record x { sched = s }

  abbrev pub set_snapshot : Bool → Actor M → Actor M
  set_snapshot v x = record x { snapshot = v }

  -- `Mailbox::push` on the mailbox of a band
  abbrev pub push_mailbox : ℕ → M → Actor M → Actor M
  push_mailbox b m x = record x {
    mailbox = at_band b (x.mailbox b ++ m ∷ []) x.mailbox;
    sent = at_band b (x.sent b ++ m ∷ []) x.sent;
  }

  -- The test that `hasWork` and `highestPendingBand` make of each band.
  unfoldable pub has_band : Actor M → ℕ → Bool
  has_band x b = ltb (x.pending_idx b) (length (x.pending b)) || not (is_empty (x.mailbox b))

  -- The leftover at the cursor, for the handler.
  unfoldable pub take_leftover : ℕ → M → Actor M → M × Actor M
  take_leftover b m x = (
    m,
    record x {
      pending_idx = at_band b (suc (x.pending_idx b)) x.pending_idx;
      delivered = at_band b (x.delivered b ++ m ∷ []) x.delivered;
    },
  )

  -- The first message of a batch that the mailbox gave up; the batch becomes the leftovers.
  unfoldable pub take_batch : ℕ → List M → Actor M → Option (M × Actor M)
  take_batch b [] x = none
  take_batch b (m ∷ rest) x = some (
    m,
    record x {
      mailbox = at_band b [] x.mailbox;
      pending = at_band b (m ∷ rest) x.pending;
      pending_idx = at_band b 1 x.pending_idx;
      delivered = at_band b (x.delivered b ++ m ∷ []) x.delivered;
    },
  )

  -- `nextMessage`: the leftover that the cursor points to, else the head of what `takeAll` gives.
  unfoldable pub next_message : Actor M → ℕ → Option (M × Actor M)
  unfolding take_leftover take_batch
  next_message x b = elim (get_elem? (x.pending b) (x.pending_idx b)) [
    | some m ↦ some (take_leftover b m x)
    | none ↦ take_batch b (x.mailbox b) x
  ]
