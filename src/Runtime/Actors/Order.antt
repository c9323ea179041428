-- ===== src/Runtime/Actors/Order.antt =====
-- runtime/ActorScheduler.cpp: what `send` queues on a band is what the handler is run on, once and in
-- order.
use proto_scala.Common.{
  ℕ, zero, suc, ◌≡◌, refl, sym, subst, ap, ◌∙◌, Bool-cases, Option-cases, inl, inr, ==_iff,
  if-holds, false, ◌==◌, none, some, some-injective, List, [], ◌∷◌, ◌++◌, append-nil, append_assoc,
  get_elem?, drop, arith,
}
use proto_scala.Runtime.Actors.State.{
  Actor, at_band, push_mailbox, next_message, take_leftover, take_batch,
}
use proto_scala.Runtime.Actors.Moves.{
  Pc, Move, send, fetch, World, Step, step, Reachable, at_first, after, Effect,
}

module _ {ℓ} {A : Type ℓ} where
  drop-get_elem? :
      (n : ℕ) (xs : List A) {m : A} → get_elem? xs n ≡ some m → drop n xs ≡ m ∷ drop (suc n) xs
  drop-get_elem? zero [] h = cc
  drop-get_elem? zero (x ∷ xs) h = ground arith
  drop-get_elem? (suc n) [] h = cc
  drop-get_elem? (suc n) (x ∷ xs) h = drop-get_elem? n xs h

  drop-end : (n : ℕ) (xs : List A) → get_elem? xs n ≡ none → drop n xs ≡ []
  drop-end zero [] h = refl
  drop-end zero (x ∷ xs) h = cc
  drop-end (suc n) [] h = refl
  drop-end (suc n) (x ∷ xs) h = drop-end n xs h

module _ {M : Type 0} where
  -- What a band still has to hand to the handler: the leftovers of the last batch, then the mailbox.
  abbrev pub waiting : Actor M → ℕ → List M
  waiting x b = drop (x.pending_idx b) (x.pending b) ++ x.mailbox b

  -- What was delivered and what waits is what was sent.
  abbrev AtBand : Actor M → ℕ → Type 0
  AtBand x b = x.delivered b ++ waiting x b ≡ x.sent b

  IsOrdered : Actor M → Type 0
  IsOrdered x = (b : ℕ) → AtBand x b

  append-one :
      (ds ls ms ss : List M) (m : M)
      → ds ++ (ls ++ ms) ≡ ss
      → ds ++ (ls ++ (ms ++ m ∷ [])) ≡ ss ++ m ∷ []
  append-one ds ls ms ss m h = rw (← h) (simp append_assoc)

  -- A band that an operation on band `c` is about, or another.
  by_band : (y : Actor M) (b c : ℕ) → AtBand y c → ((b == c) ≡ false → AtBand y b) → AtBand y b
  by_band y b c here others = elim (Bool-cases (b == c)) [
    | inl same ↦ subst (AtBand y) (sym ((==_iff b c).0 same)) here
    | inr other ↦ others other
  ]

  push_mailbox-IsOrdered :
      (x : Actor M) (c : ℕ) (m : M) → IsOrdered x → IsOrdered (push_mailbox c m x)
  unfolding IsOrdered
  push_mailbox-IsOrdered x c m o b =
      by_band (push_mailbox c m x) b c
        (rw ((==_iff c c).1 refl) (
          append-one (x.delivered c) (drop (x.pending_idx c) (x.pending c)) (x.mailbox c) (x.sent c)
            m (o c)))
        (λ other. rw other (o b))

  shift :
      (ds : List M) (m : M) (ls ms : List M) {ss : List M}
      → ds ++ ((m ∷ ls) ++ ms) ≡ ss
      → (ds ++ m ∷ []) ++ (ls ++ ms) ≡ ss
  shift ds m ls ms h = append_assoc ds (m ∷ []) (ls ++ ms) ∙ h

  batch :
      (ds ps : List M) (i : ℕ) (m : M) (ms : List M) {ss : List M}
      → get_elem? ps i ≡ none
      → ds ++ (drop i ps ++ m ∷ ms) ≡ ss
      → (ds ++ m ∷ []) ++ (ms ++ []) ≡ ss
  batch ds ps i m ms {ss} none_left h = rw (append-nil ms) (
      append_assoc ds (m ∷ []) ms
      ∙ subst (λ l. ds ++ (l ++ m ∷ ms) ≡ ss) (drop-end i ps none_left) h)

  take_leftover-IsOrdered :
      (x : Actor M) (c : ℕ) {m : M}
      → get_elem? (x.pending c) (x.pending_idx c) ≡ some m
      → IsOrdered x
      → IsOrdered (take_leftover c m x).1
  unfolding IsOrdered take_leftover
  take_leftover-IsOrdered x c {m} h o b =
      by_band (take_leftover c m x).1 b c
        (rw ((==_iff c c).1 refl) (
          shift (x.delivered c) m (drop (suc (x.pending_idx c)) (x.pending c)) (x.mailbox c) (
            subst (λ l. x.delivered c ++ (l ++ x.mailbox c) ≡ x.sent c)
              (drop-get_elem? (x.pending_idx c) (x.pending c) h) (o c))))
        (λ other. rw other (o b))

  abbrev batch_taken : Actor M → ℕ → M → List M → Actor M
  batch_taken x b m rest = record x {
    mailbox = at_band b [] x.mailbox;
    pending = at_band b (m ∷ rest) x.pending;
    pending_idx = at_band b 1 x.pending_idx;
    delivered = at_band b (x.delivered b ++ m ∷ []) x.delivered;
  }

  take_batch-IsOrdered :
      (x : Actor M) (c : ℕ) (ms : List M) {m : M} {y : Actor M}
      → x.mailbox c ≡ ms
      → get_elem? (x.pending c) (x.pending_idx c) ≡ none
      → take_batch c ms x ≡ some (m, y)
      → IsOrdered x
      → IsOrdered y
  unfolding IsOrdered take_batch
  take_batch-IsOrdered x c [] e h t o b = cc
  take_batch-IsOrdered x c (m' ∷ ms) e h t o b =
      subst (λ y. AtBand y b) (ap (λ p. p.1) (some-injective _ _ t))
        (by_band (batch_taken x c m' ms) b c
          (rw ((==_iff c c).1 refl) (
            batch (x.delivered c) (x.pending c) (x.pending_idx c) m' ms h (
              subst (λ l. x.delivered c ++ (drop (x.pending_idx c) (x.pending c) ++ l) ≡ x.sent c) e
                (o c))))
          (λ other. rw other (o b)))

  next_message-IsOrdered :
      (x : Actor M) (c : ℕ) {m : M} {y : Actor M}
      → next_message x c ≡ some (m, y)
      → IsOrdered x
      → IsOrdered y
  unfolding next_message
  next_message-IsOrdered x c {m} h o =
      elim (Option-cases (get_elem? (x.pending c) (x.pending_idx c))) [
        | inl none_left ↦
            take_batch-IsOrdered x c (x.mailbox c) refl none_left
              (rw (none_left, next_message) at h) o
        | inr (m', left) ↦
            subst IsOrdered (ap (λ p. p.1) (some-injective _ _ (rw (left, next_message) at h)))
              (take_leftover-IsOrdered x c left o)
      ]

  Move-IsOrdered :
      {x y : Actor M} {pre post : List Pc} {e : Effect}
      → Move x pre y post e
      → IsOrdered x
      → IsOrdered y
  unfolding IsOrdered
  Move-IsOrdered {x} (send c m lt) o = push_mailbox-IsOrdered x c m o
  Move-IsOrdered {x} (fetch {b = c} m y lt h) o = next_message-IsOrdered x c h o
  Move-IsOrdered mv o = o

  Step-IsOrdered :
      {w v : World M}
      → ((a : ℕ) → IsOrdered (w.actors a))
      → Step w v
      → (a : ℕ) → IsOrdered (v.actors a)
  Step-IsOrdered o (step a us ts under {y = y} r at may mv eff) c =
      if-holds IsOrdered (c == a) (λ s. Move-IsOrdered mv (o a)) (λ s. o c)

  Reachable-IsOrdered : {w : World M} → Reachable w → (a : ℕ) → IsOrdered (w.actors a)
  unfolding IsOrdered
  Reachable-IsOrdered (at_first n) a b = refl
  Reachable-IsOrdered (after r s) a b = Step-IsOrdered (Reachable-IsOrdered r) s a b

  -- However the threads' accesses interleave, the messages that an actor's handler was run on from a
  -- band, followed by those that wait there, are the messages that were sent to that band, each once
  -- and in the order in which they were queued.
  pub Reachable-in_order :
      {w : World M} (a b : ℕ)
      → Reachable w
      → (w.actors a).delivered b ++ waiting (w.actors a) b ≡ (w.actors a).sent b
  unfolding IsOrdered
  Reachable-in_order a b r = Reachable-IsOrdered r a b
