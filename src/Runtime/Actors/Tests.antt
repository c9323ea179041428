-- ===== src/Runtime/Actors/Tests.antt =====
-- One thread and one actor: a message is delivered, its handler suspends, and a second one arrives.
use proto_scala.Common.{ℕ, ◌+◌, ◌≡◌, refl, true, if◌then◌else◌, ◌==◌, List, [], ◌∷◌, ◌++◌, arith}
use proto_scala.Runtime.Actors.State.{
  Actor, has_band, next_message, push_mailbox, set_sched, set_snapshot, at_band,
}
use proto_scala.Runtime.Actors.Moves.{
  Pc, send_loop, send_saw, enqueueing, started, fetching, handling, parking, World, frames, update,
  at_rest, step, Reachable, at_first, after, send, send_load, send_claims, enqueue, dequeue, start,
  fetch, fetch_next, yields, parks, send_noted,
}
use proto_scala.Runtime.Actors.Counts.{queued, total, holds}
use proto_scala.Runtime.Actors.Claims.{Reachable-claimed_once, Reachable-none_forgotten}
use proto_scala.Runtime.Actors.Order.{waiting, Reachable-in_order}

abbrev moved_to : World ℕ → Actor ℕ → (ℕ → List ℕ) → List Pc → World ℕ
moved_to w y r post = record {
  actors = update 0 y w.actors;
  ready = r;
  threads = [] ++ (frames 0 post ++ []) ∷ [];
}

abbrev w0 : World ℕ
w0 = at_rest 1

abbrev sent_world : World ℕ
sent_world = moved_to w0 (push_mailbox 1 7 (w0.actors 0)) w0.ready (send_loop 1 ∷ [])

sent_world-Reachable : Reachable sent_world
sent_world-Reachable =
    after (at_first 1) (step 0 [] [] [] w0.ready refl refl (send 1 7 (omega arith)) refl)

abbrev w2 : World ℕ
w2 = moved_to sent_world (sent_world.actors 0) sent_world.ready (send_saw 1 0 ∷ [])

abbrev w3 : World ℕ
w3 = moved_to w2 (set_sched 1 (w2.actors 0)) w2.ready (enqueueing 1 ∷ [])

abbrev queued_world : World ℕ
queued_world = moved_to w3 (w3.actors 0) (at_band 1 (0 ∷ w3.ready 1) w3.ready) []

queued_world-Reachable : Reachable queued_world
queued_world-Reachable =
    after
      (after
        (after sent_world-Reachable
          (step 0 [] [] [] w0.ready refl refl (send_load 0 refl (omega arith)) refl))
        (step 0 [] [] [] w0.ready refl refl (send_claims refl refl) refl))
      (step 0 [] [] [] queued_world.ready refl refl enqueue refl)

abbrev w5 : World ℕ
w5 = moved_to queued_world (queued_world.actors 0) w3.ready (started ∷ [])

abbrev w6 : World ℕ
w6 = moved_to w5 (w5.actors 0) w5.ready (fetching 8 0 ∷ [])

abbrev w7 : World ℕ
w7 = moved_to w6 (w6.actors 0) w6.ready (fetching 8 1 ∷ [])

abbrev taken : Actor ℕ
taken = record (w7.actors 0) {
  mailbox = at_band 1 [] (w7.actors 0).mailbox;
  pending = at_band 1 (7 ∷ []) (w7.actors 0).pending;
  pending_idx = at_band 1 1 (w7.actors 0).pending_idx;
  delivered = at_band 1 ([] ++ 7 ∷ []) (w7.actors 0).delivered;
}

abbrev turn_world : World ℕ
turn_world = moved_to w7 taken w7.ready (handling 7 ∷ [])

turn_world-Reachable : Reachable turn_world
unfolding next_message
turn_world-Reachable =
    after
      (after
        (after
          (after queued_world-Reachable
            (step 0 [] [] [] w5.ready refl refl (dequeue 1 (omega arith)) refl))
          (step 0 [] [] [] w5.ready refl refl (start refl) refl))
        (step 0 [] [] [] w5.ready refl refl (fetch_next (omega arith) refl) refl))
      (step 0 [] [] [] w5.ready refl refl (fetch 7 taken (omega arith) refl) refl)

abbrev w9 : World ℕ
w9 = moved_to turn_world (set_snapshot true taken) w3.ready (parking ∷ [])

abbrev w10 : World ℕ
w10 = moved_to w9 (set_sched 3 (set_snapshot true taken)) w3.ready []

abbrev w11 : World ℕ
w11 = moved_to w10 (push_mailbox 1 9 (w10.actors 0)) w3.ready (send_loop 1 ∷ [])

-- Message 7 has been handled up to a wait for a future, and message 9 waits.
abbrev suspended_world : World ℕ
suspended_world = moved_to w11 (w11.actors 0) w3.ready []

suspended_world-Reachable : Reachable suspended_world
suspended_world-Reachable =
    after
      (after
        (after (after turn_world-Reachable (step 0 [] [] [] w3.ready refl refl yields refl))
          (step 0 [] [] [] w3.ready refl refl (parks refl) refl))
        (step 0 [] [] [] w3.ready refl refl (send 1 9 (omega arith)) refl))
      (step 0 [] [] [] w3.ready refl refl (send_noted 3 refl (omega arith)) refl)

Reachable-claimed_once_example : queued 0 turn_world.ready + total holds 0 turn_world.threads ≡ (
    if (turn_world.actors 0).sched == 1
    then 1
    else if (turn_world.actors 0).sched == 2
    then 1
    else 0)
Reachable-claimed_once_example = Reachable-claimed_once 0 turn_world-Reachable

Reachable-none_forgotten_example : (suspended_world.actors 0).sched ≡ 3
unfolding has_band
Reachable-none_forgotten_example =
    Reachable-none_forgotten 0 1 suspended_world-Reachable (omega arith) refl refl refl

Reachable-in_order_example :
    (suspended_world.actors 0).delivered 1 ++ waiting (suspended_world.actors 0) 1
    ≡ (suspended_world.actors 0).sent 1
Reachable-in_order_example = Reachable-in_order 0 1 suspended_world-Reachable
