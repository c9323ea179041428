-- ===== src/Runtime/Futures/Waiters.antt =====
-- runtime/Futures.cpp, `addWaiter` and `complete`: no actor that was told to suspend is left behind.
use proto_scala.Common.{
  ℕ, ◌+◌, ◌≤◌, ◌≡◌, ◌≢◌, refl, sym, subst, ap, Bool, true, false, ◌==◌, if◌then◌else◌, List, [],
  ◌∷◌, arith, sum_of, total_of, rest_of, count, count-append, total_of-focus, total_of-empty,
  rest_of-le, total_of-none,
}
use proto_scala.Runtime.Futures.Moves.{
  Future, state, Pc, reading, waking, waiter_check, Move, complete, claims, settles, waiter_adds,
  waiter_parks, final_state, World, Step, step, Reachable, at_first, after, k_pending,
}

module _ {V : Type 0} (a : ℕ) where
  -- A call of `addWaiter` for the actor that may still tell it to suspend.
  abbrev checks : Pc V → ℕ
  checks (waiter_check b) = if b == a then 1 else 0
  checks _ = 0

  -- How often a call will resume the actor, with the list of waiters as it is.
  abbrev owed : List ℕ → Pc V → ℕ
  owed ws reading = count a ws
  owed ws (waking left) = count a left
  owed ws _ = 0

  record IsRemembered (f : Future V) (c o : ℕ) : Type 0 where
    listed : count a f.parked + c ≤ count a f.waiters
    paid : state f ≢ k_pending → count a f.parked ≤ count a f.resumed + o

  owed_mono :
      {f g : Future V} {pre post : List (Pc V)}
      → Move f pre g post
      → (p : Pc V) → owed f.waiters p ≤ owed g.waiters p
  owed_mono (complete v failed) p = omega arith
  owed_mono {f} (waiter_adds {a = b} {ws = ws} e) reading =
      rw e (omega (arith, count-append a ws (b ∷ [])))
  owed_mono {f} (waiter_adds {a = b} {ws = ws} e) p = omega arith
  owed_mono mv p = omega arith

  state-final : (failed : Bool) (f : Future V) → (final_state failed ≡ 3) → ⊥
  state-final true f h = omega arith
  state-final false f h = omega arith

  module _ (RC RO RO' : ℕ) (le : RO ≤ RO') where
    Move-IsRemembered :
        {f g : Future V} {pre post : List (Pc V)}
        → Move f pre g post
        → IsRemembered f (sum_of checks pre + RC) (sum_of (owed f.waiters) pre + RO)
        → IsRemembered g (sum_of checks post + RC) (sum_of (owed g.waiters) post + RO')
    Move-IsRemembered (complete v failed) k = record {
      listed = k.listed;
      paid = λ s. omega (arith, k.paid s);
    }
    Move-IsRemembered (claims e) k = record { listed = k.listed; paid = λ s. ground arith }
    Move-IsRemembered settles k = record { listed = k.listed; paid = λ s. omega (arith, k.listed) }
    Move-IsRemembered (waiter_adds {a = b} {ws = ws} e) k = record {
      listed = ground (arith, count-append a ws (b ∷ []), ap (count a) e, k.listed);
      paid = λ s. omega (arith, k.paid s);
    }
    Move-IsRemembered (waiter_parks e) k = record {
      listed = omega (arith, k.listed);
      paid = λ s. absurd (s e);
    }
    Move-IsRemembered mv k = record {
      listed = omega (arith, k.listed);
      paid = λ s. omega (arith, k.paid s);
    }

  IsRemembered-recount :
      {f : Future V} {c o c' o' : ℕ} → c ≡ c' → o ≡ o' → IsRemembered f c o → IsRemembered f c' o'
  IsRemembered-recount {f} {c} {o' = o'} e d k =
      subst (λ m. IsRemembered f m o') e (subst (λ l. IsRemembered f c l) d k)

  Keeps : World V → Type 0
  Keeps w =
      IsRemembered w.future (total_of checks w.threads) (total_of (owed w.future.waiters) w.threads)

  Step-Keeps : {w v : World V} → Keeps w → Step w v → Keeps v
  unfolding Keeps
  Step-Keeps {w} k (step us ts under {pre} {post} {g} at may mv) =
      IsRemembered-recount (sym (total_of-focus checks us ts under post))
        (sym (total_of-focus (owed g.waiters) us ts under post))
        (Move-IsRemembered (rest_of checks us under ts)
          (rest_of (owed w.future.waiters) us under ts) (rest_of (owed g.waiters) us under ts)
          (rest_of-le (owed w.future.waiters) (owed g.waiters) us under ts (owed_mono mv)) mv
          (IsRemembered-recount (rw at (total_of-focus checks us ts under pre))
            (rw at (total_of-focus (owed w.future.waiters) us ts under pre)) k))

  Reachable-Keeps : {w : World V} → Reachable w → Keeps w
  unfolding Keeps
  Reachable-Keeps (at_first n) = record {
    listed = omega (arith, total_of-none checks n);
    paid = λ s. absurd (s refl);
  }
  Reachable-Keeps (after r s) = Step-Keeps (Reachable-Keeps r) s

  -- However the threads' accesses interleave, once a future is completed and no call on it is left,
  -- every actor that `addWaiter` told to suspend has been resumed, as often as it was told.
  pub Reachable-all_resumed :
      {w : World V}
      → Reachable w
      → state w.future ≢ k_pending
      → total_of (λ p. 1) w.threads ≡ 0
      → count a w.future.parked ≤ count a w.future.resumed
  unfolding Keeps
  Reachable-all_resumed {w} r s quiet =
      omega
        (arith, (Reachable-Keeps r).paid s, total_of-empty (owed w.future.waiters) w.threads quiet)
