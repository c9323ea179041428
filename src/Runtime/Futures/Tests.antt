-- ===== src/Runtime/Futures/Tests.antt =====
-- One thread: actor 4 suspends on a future, continuation 9 is registered, and the future is completed.
use proto_scala.Common.{ℕ, ◌≤◌, ◌≡◌, refl, false, List, [], ◌∷◌, ◌++◌, count, arith}
use proto_scala.Runtime.Futures.Moves.{
  Future, new_future, Pc, claiming, writing, settling, reading, waking, run_conts, taking, running,
  waiter_loop, waiter_read, waiter_saw, waiter_check, cont_loop, cont_read, cont_saw, cont_check,
  add_waiter, park, resume, add_cont, take_conts, run, set_state, write_value, Move, World, created,
  step, Reachable, at_first, after, k_success, k_claiming,
}
use proto_scala.Runtime.Futures.Moves
use proto_scala.Runtime.Futures.Waiters.{Reachable-all_resumed}

abbrev at : Future ℕ → List (Pc ℕ) → World ℕ
at f ps = record { future = f; threads = [] ++ (ps ++ []) ∷ [] }

-- One move of the thread.
moved :
    {f g : Future ℕ} {pre post : List (Pc ℕ)}
    → Reachable (at f pre)
    → Moves.may_begin pre [] ≡ Moves.may_begin {V = ℕ} [] []
    → Move f pre g post
    → Reachable (at g post)
moved r may mv = after r (step [] [] [] refl may mv)

abbrev parked_future : Future ℕ
parked_future = park 4 (add_waiter 4 [] new_future)

parked_future-Reachable : Reachable (at parked_future [])
parked_future-Reachable =
    moved
      (moved
        (moved
          (moved (moved (at_first 1) refl (Move.add_waiter_call 4)) refl (Move.waiter_early refl))
          refl Move.waiter_reads)
        refl (Move.waiter_adds refl))
      refl (Move.waiter_parks refl)

abbrev waited : Future ℕ
waited = add_cont 9 [] parked_future

waited-Reachable : Reachable (at waited [])
waited-Reachable =
    moved
      (moved
        (moved
          (moved (moved parked_future-Reachable refl (Move.on_complete 9)) refl
            (Move.cont_early refl))
          refl Move.cont_reads)
        refl (Move.cont_adds refl))
      refl (Move.cont_pending refl)

abbrev settled : Future ℕ
settled = set_state k_success (write_value 5 false (set_state k_claiming waited))

settled-Reachable : Reachable (at settled (reading ∷ []))
settled-Reachable =
    moved
      (moved (moved (moved waited-Reachable refl (Move.complete 5 false)) refl (Move.claims refl))
        refl Move.writes)
      refl Move.settles

abbrev finished : Future ℕ
finished = run 9 (take_conts (resume 4 settled))

finished-Reachable : Reachable (at finished [])
finished-Reachable =
    moved
      (moved
        (moved
          (moved
            (moved (moved (moved settled-Reachable refl Move.reads_waiters) refl Move.wakes) refl
              Move.woke_all)
            refl (Move.reads_conts (λ e. cc)))
          refl (Move.takes refl))
        refl Move.runs)
      refl Move.ran_all

Reachable-all_resumed_example : count 4 finished.parked ≤ count 4 finished.resumed
Reachable-all_resumed_example = Reachable-all_resumed 4 finished-Reachable (λ e. omega arith) refl
