-- ===== src/Runtime/Actors/Claims.antt =====
-- runtime/ActorScheduler.cpp: an actor is claimed for one turn at a time, and a message that waits
-- keeps it claimed, suspended or about to be claimed.
use proto_scala.Common.{
  ℕ, ◌+◌, ◌<◌, ◌≡◌, ◌≢◌, sym, subst, ◌∙◌, Bool-cases, inl, inr, ==_iff, true, ◌==◌, if◌then◌else◌,
  List, ◌∷◌, ◌++◌, arith,
}
use proto_scala.Runtime.Actors.State.{Actor, k_bands, has_band}
use proto_scala.Runtime.Actors.Moves.{
  Pc, Move, enqueue, dequeue, World, Step, step, Reachable, at_first, after, Effect, Applied, Frame,
  frames, update,
}
use proto_scala.Runtime.Actors.Kept.{IsKept, Move-IsKept}
use proto_scala.Runtime.Actors.Counts.{
  holds, in_flight, passed, passed-le-holds, in_flight-le, holds-le, total-le, off_band, sum_pcs,
  total, rest, total_self, total_other, rest-le, total-idle, queued, OnBand, queued-effect,
  effect-balance,
}

module _ {M : Type 0} where
  IsKept-recount :
      {x : Actor M} {q h f o q' h' f' o' : ℕ} {p p' : ℕ → ℕ}
      → q ≡ q'
      → h ≡ h'
      → f ≡ f'
      → ((b : ℕ) → p b ≡ p' b)
      → o ≡ o'
      → IsKept x q h f p o
      → IsKept x q' h' f' p' o'
  IsKept-recount eq eh ef ep eo k = record {
    small = k.small;
    claimed = omega (arith, k.claimed);
    awake = λ b l w. omega (arith, k.awake b l w);
    marked = λ b l n w. omega (arith, k.marked b l (omega (arith, ep b)) w);
    on_bands = omega (arith, k.on_bands);
  }

  -- What is kept of actor `c` in a world.
  Keeps : World M → ℕ → Type 0
  Keeps w c =
      IsKept (w.actors c) (queued c w.ready) (total holds c w.threads) (total in_flight c w.threads)
        (λ b. total (passed b) c w.threads) (total off_band c w.threads)

  Move-OnBand :
      {x y : Actor M} {pre post : List Pc} {e : Effect} (n : ℕ)
      → Move x pre y post e
      → sum_pcs off_band pre + n ≡ 0
      → OnBand e
  Move-OnBand n (dequeue b lt) z = lt
  Move-OnBand n (enqueue {b}) z = ground arith
  Move-OnBand n mv z = tt

  module _ (w : World M) (a : ℕ) (us ts : List (List Frame)) (under : List Frame)
      {pre post : List Pc} {y : Actor M} {e : Effect} (r : ℕ → List ℕ)
      (at : w.threads ≡ us ++ (frames a pre ++ under) ∷ ts) (mv : Move (w.actors a) pre y post e)
      (eff : Applied e a w.ready r) where
    total-before : (f : Pc → ℕ) → total f a w.threads ≡ sum_pcs f pre + rest f a us under ts
    total-before f = rw at (total_self f a us ts under pre)

    abbrev stepped : World M
    stepped = record {
      actors = update a y w.actors;
      ready = r;
      threads = us ++ (frames a post ++ under) ∷ ts;
    }

    update_self : stepped.actors a ≡ y
    update_self = ground arith

    step_self : Keeps w a → Keeps stepped a
    unfolding Keeps
    step_self k =
        let on : OnBand e =
          Move-OnBand (rest off_band a us under ts) mv (sym (total-before off_band) ∙ k.on_bands) in
        let (n, was, now) = effect-balance e a w.ready r on eff in
        subst
          (λ x.
            IsKept x (queued a r) (total holds a stepped.threads)
              (total in_flight a stepped.threads) (λ b. total (passed b) a stepped.threads)
              (total off_band a stepped.threads))
          (sym update_self)
          (IsKept-recount (sym now) (sym (total_self holds a us ts under post))
            (sym (total_self in_flight a us ts under post))
            (λ b. sym (total_self (passed b) a us ts under post))
            (sym (total_self off_band a us ts under post))
            (Move-IsKept n (rest holds a us under ts) (rest in_flight a us under ts)
              (rest off_band a us under ts) (λ b. rest (passed b) a us under ts)
              (λ b. rest-le (passed b) holds a us ts under (passed-le-holds b)) mv
              (IsKept-recount was (total-before holds) (total-before in_flight)
                (λ b. total-before (passed b)) (total-before off_band) k)))

    module _ (c : ℕ) (ne : a ≢ c) where
      total_other_step : (f : Pc → ℕ) → total f c w.threads ≡ total f c stepped.threads
      total_other_step f =
          rw at (total_other f a c us ts under pre ne ∙ sym (total_other f a c us ts under post ne))

      update_other : stepped.actors c ≡ w.actors c
      update_other = ground arith

      step_other : OnBand e → Keeps w c → Keeps stepped c
      unfolding Keeps
      step_other on k =
          subst
            (λ x.
              IsKept x (queued c r) (total holds c stepped.threads)
                (total in_flight c stepped.threads) (λ b. total (passed b) c stepped.threads)
                (total off_band c stepped.threads))
            (sym update_other)
            (IsKept-recount (ground (arith, queued-effect a c e w.ready r on eff))
              (total_other_step holds) (total_other_step in_flight)
              (λ b. total_other_step (passed b)) (total_other_step off_band) k)

  Step-Keeps : {w v : World M} → ((c : ℕ) → Keeps w c) → Step w v → (c : ℕ) → Keeps v c
  unfolding Keeps
  Step-Keeps {w} k (step a us ts under {e = e} r at may mv eff) c = elim (Bool-cases (a == c)) [
    | inl same ↦
        subst (Keeps (stepped w a us ts under r at mv eff)) ((==_iff a c).0 same)
          (step_self w a us ts under r at mv eff (k a))
    | inr differ ↦
        step_other w a us ts under r at mv eff c (λ s. ground arith)
          (Move-OnBand (rest off_band a us under ts) mv
            (sym (total-before w a us ts under r at mv eff off_band) ∙ (k a).on_bands))
          (k c)
  ]

  Reachable-Keeps : {w : World M} → Reachable w → (c : ℕ) → Keeps w c
  unfolding Keeps has_band
  Reachable-Keeps (at_first n) c = record {
    small = omega arith;
    claimed = omega (arith, total-idle holds c n);
    awake = λ b l h. ground arith;
    marked = λ b l p h. ground arith;
    on_bands = total-idle off_band c n;
  }
  Reachable-Keeps (after r s) c = Step-Keeps (Reachable-Keeps r) s c

module _ {M : Type 0} {w : World M} where
  -- However the threads' accesses interleave, an actor stands on the ready stacks and in the calls
  -- that take its turn once in all while `sched` is 1 or 2, and not at all while it is 0 or 3.
  pub Reachable-claimed_once :
      (a : ℕ)
      → Reachable w
      → queued a w.ready + total holds a w.threads
        ≡ (if (w.actors a).sched == 1 then 1 else if (w.actors a).sched == 2 then 1 else 0)
  unfolding Keeps
  Reachable-claimed_once a r = (Reachable-Keeps r a).claimed

  -- However the threads' accesses interleave, an actor with a message that waits is suspended when
  -- it stands on no ready stack and no thread is in a call on it.
  pub Reachable-none_forgotten :
      (a b : ℕ)
      → Reachable w
      → b < k_bands
      → has_band (w.actors a) b ≡ true
      → queued a w.ready ≡ 0
      → total (λ p. 1) a w.threads ≡ 0
      → (w.actors a).sched ≡ 3
  unfolding Keeps
  Reachable-none_forgotten a b r lt work none_queued no_call = ground (
    arith,
    (Reachable-Keeps r a).claimed,
    (Reachable-Keeps r a).small,
    (Reachable-Keeps r a).awake b lt work,
    total-le in_flight (λ p. 1) a w.threads in_flight-le,
    total-le holds (λ p. 1) a w.threads holds-le,
  )

  -- However the threads' accesses interleave, an actor with a message that waits is idle only while
  -- a call of `send` that has queued its message has not yet seen the actor claimed.
  Reachable-awake :
      (a b : ℕ)
      → Reachable w
      → b < k_bands
      → has_band (w.actors a) b ≡ true
      → (w.actors a).sched ≡ 0
      → 0 < total in_flight a w.threads
  unfolding Keeps
  Reachable-awake a b r lt work idle = ground (arith, (Reachable-Keeps r a).awake b lt work)
