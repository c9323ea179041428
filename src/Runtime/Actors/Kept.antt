-- ===== src/Runtime/Actors/Kept.antt =====
-- runtime/ActorScheduler.cpp: what each move keeps of an actor's claim, and of its messages that wait.
use proto_scala.Common.{
  ℕ, ◌+◌, ◌<◌, ◌≤◌, ◌≡◌, ◌≢◌, true, false, ◌==◌, if◌then◌else◌, some, List, arith,
}
use proto_scala.Runtime.Actors.State.{Actor, has_band, next_message}
use proto_scala.Runtime.Actors.Moves.{
  Pc, Move, send, send_noted, send_claims, send_marks, resume_wakes, resume_marks, resume_stale,
  pick, fetch, parks, park_fails, finish_load, finish_check, clears, check_next, finds_none,
  releases, Effect,
}
use proto_scala.Runtime.Actors.Counts.{holds, in_flight, passed, off_band, sum_pcs, pushed, popped}

abbrev pub is_claimed : ℕ → ℕ
is_claimed s = if s == 1 then 1 else if s == 2 then 1 else 0

abbrev pub is_marked : ℕ → ℕ
is_marked s = if s == 2 then 1 else 0

-- What holds of an actor: `q` is how often it is queued; `h`, `f`, `p` and `o` are how many calls
-- hold it, are in flight to it, have passed a band, and are off the bands.
pub record IsKept {M : Type 0} (x : Actor M) (q h f : ℕ) (p : ℕ → ℕ) (o : ℕ) : Type 0 where
  pub small : x.sched < 4
  pub claimed : q + h ≡ is_claimed x.sched
  pub awake : (b : ℕ) → b < 3 → has_band x b ≡ true → 0 < x.sched + f
  pub marked : (b : ℕ) → b < 3 → 0 < p b → has_band x b ≡ true → 0 < is_marked x.sched + f
  pub on_bands : o ≡ 0

module _ {M : Type 0} where
  next_message-sched :
      (x : Actor M) (b : ℕ) {m : M} {y : Actor M}
      → next_message x b ≡ some (m, y)
      → y.sched ≡ x.sched
  unfolding next_message
  next_message-sched x b h = ground arith

  -- The premise of a move, for the clauses below that cannot name it.
  abbrev Guard : {x y : Actor M} {pre post : List Pc} {e : Effect} → Move x pre y post e → Type 0
  Guard (send b m lt) = b < 3
  Guard {x} (send_noted s e lt) = 1 < x.sched
  Guard {x} (send_claims z e) = x.sched ≡ 0
  Guard {x} (send_marks z e) = x.sched ≡ 1
  Guard {x} (resume_wakes z e) = x.sched ≡ 3
  Guard {x} (resume_marks z e) = x.sched ≡ 1
  Guard {x} (resume_stale z e) = x.sched ≡ 0
  Guard (pick {b} lt h) = b < 3
  Guard {x} (finish_load e) = x.sched ≡ 2
  Guard {x} (finish_check e) = x.sched ≢ 2
  Guard {x} (parks e) = x.sched ≡ 1
  Guard {x} (park_fails e) = x.sched ≢ 1
  Guard {x} (clears e) = x.sched ≡ 2
  Guard {x} (releases e) = x.sched ≡ 1
  Guard {x} (fetch {b = b} m y lt h) = y.sched ≡ x.sched
  Guard {x} (check_next {b} lt h) = (b < 3) × (has_band x b ≡ false)
  Guard {x} (finds_none {b} h) = b ≡ 3
  Guard _ = Unit

  guard : {x y : Actor M} {pre post : List Pc} {e : Effect} (mv : Move x pre y post e) → Guard mv
  guard (send b m lt) = lt
  guard (send_noted s e lt) = omega arith
  guard (send_claims z e) = omega arith
  guard (send_marks z e) = omega arith
  guard (resume_wakes z e) = omega arith
  guard (resume_marks z e) = omega arith
  guard (resume_stale z e) = omega arith
  guard (pick lt h) = lt
  guard (finish_load e) = e
  guard (finish_check e) = e
  guard (parks e) = e
  guard (park_fails e) = e
  guard (clears e) = e
  guard (releases e) = e
  guard {x} (fetch {b = b} m y lt h) = next_message-sched x b h
  guard (check_next lt h) = (lt, h)
  guard (finds_none h) = h
  guard _ = tt

module _ {M : Type 0} (RQ RH RF RO : ℕ) (RP : ℕ → ℕ) (le : (b : ℕ) → RP b ≤ RH) where
  abbrev pub Before : Actor M → List Pc → Effect → Type 0
  Before x pre e =
      IsKept x (popped e + RQ) (sum_pcs holds pre + RH) (sum_pcs in_flight pre + RF)
        (λ b. sum_pcs (passed b) pre + RP b) (sum_pcs off_band pre + RO)

  Move-small :
      {x y : Actor M} {pre post : List Pc} {e : Effect}
      → Move x pre y post e
      → Before x pre e
      → y.sched < 4
  Move-small (send b m lt) k = k.small
  Move-small mv k = ground (arith, guard mv, k.small)

  Move-claimed :
      {x y : Actor M} {pre post : List Pc} {e : Effect}
      → Move x pre y post e
      → Before x pre e
      → pushed e + RQ + (sum_pcs holds post + RH) ≡ is_claimed y.sched
  Move-claimed (send b m lt) k = k.claimed
  Move-claimed mv k = ground (arith, guard mv, k.claimed)

  Move-on_bands :
      {x y : Actor M} {pre post : List Pc} {e : Effect}
      → Move x pre y post e
      → Before x pre e
      → sum_pcs off_band post + RO ≡ 0
  Move-on_bands (send b m lt) k = ground (arith, k.on_bands)
  Move-on_bands mv k = ground (arith, guard mv, k.on_bands)

  Move-awake :
      {x y : Actor M} {pre post : List Pc} {e : Effect}
      → Move x pre y post e
      → Before x pre e
      → (b : ℕ) → b < 3
      → has_band y b ≡ true
      → 0 < y.sched + (sum_pcs in_flight post + RF)
  unfolding has_band
  Move-awake (send c m lt) k b l h = omega arith
  Move-awake mv k b l h = ground (arith, guard mv, k.claimed, k.awake b l, k.marked b l)

  Move-marked :
      {x y : Actor M} {pre post : List Pc} {e : Effect}
      → Move x pre y post e
      → Before x pre e
      → (b : ℕ) → b < 3
      → 0 < sum_pcs (passed b) post + RP b
      → has_band y b ≡ true
      → 0 < is_marked y.sched + (sum_pcs in_flight post + RF)
  Move-marked (send c m lt) k b l p h = omega arith
  Move-marked mv k b l p h = ground (arith, guard mv, le b, k.claimed, k.small, k.marked b l)

  pub Move-IsKept :
      {x y : Actor M} {pre post : List Pc} {e : Effect}
      → Move x pre y post e
      → Before x pre e
      → IsKept y
          (pushed e + RQ)
          (sum_pcs holds post + RH)
          (sum_pcs in_flight post + RF)
          (λ b. sum_pcs (passed b) post + RP b)
          (sum_pcs off_band post + RO)
  Move-IsKept mv k = record {
    small = Move-small mv k;
    claimed = Move-claimed mv k;
    awake = Move-awake mv k;
    marked = Move-marked mv k;
    on_bands = Move-on_bands mv k;
  }
