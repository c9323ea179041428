-- ===== src/Runtime/Actors/Moves.antt =====
-- runtime/ActorScheduler.cpp: `send`, `resume`, `enqueue`, `dequeue`, `runTurn` and `finishTurn` as the
-- moves of a thread, a shared access at a time.
use proto_scala.Common.{
  ℕ, zero, suc, ◌<◌, ◌≡◌, ◌≢◌, Bool, true, false, ◌==◌, if◌then◌else◌, none, some, List, [], ◌∷◌,
  ◌++◌,
}
use proto_scala.Runtime.Actors.State.{
  Actor, k_bands, medium, k_batch_size, at_band, is_empty, new_actor, set_sched, set_snapshot,
  push_mailbox, has_band, next_message,
}

-- Where a call on an actor stands, with the locals that are live there.
pub data Pc : Type 0 where
  send_loop : (b : ℕ) → Pc  -- `send`: the message is queued, at the head of the loop
  send_saw : (b s : ℕ) → Pc  -- `send`: before the compare-exchange from `s`
  resume_loop : Pc  -- `resume`: at the head of the loop
  resume_saw : (s : ℕ) → Pc  -- `resume`: before the compare-exchange from `s`
  picking : (b : ℕ) → Pc  -- `highestPendingBand`: before band `b`
  enqueueing : (b : ℕ) → Pc  -- `enqueue`: before the push
  started : Pc  -- `runTurn`: its start
  resuming : Pc  -- `resumeSuspendedTurn`
  fetching : (budget b : ℕ) → Pc  -- `runTurn`: before `nextMessage` of band `b`
  handling : (budget : ℕ) → Pc  -- `deliver`
  parking : Pc  -- `finishTurn` of a suspended turn
  unparking : Pc  -- `finishTurn`: a wake raced the suspension
  finish_loop : Pc  -- `finishTurn`: at the head of the loop
  finish_saw : Pc  -- `finishTurn`: before the compare-exchange from 2
  checking : (b : ℕ) → Pc  -- `hasWork`: before band `b`
  releasing : Pc  -- `finishTurn`: before the compare-exchange to 0

-- What a move does to the ready stacks.
pub data Effect : Type 0 where
  keep : Effect
  pushes pops : (b : ℕ) → Effect

module _ {M : Type 0} where
  -- A move on an actor: the calls on top of a thread's stack and the actor, before and after.
  pub data Move (x : Actor M) : List Pc → Actor M → List Pc → Effect → Type 0 where
    send : (b : ℕ) (m : M) → b < k_bands → Move x [] (push_mailbox b m x) (send_loop b ∷ []) keep
    send_load :
        {b : ℕ} (s : ℕ) → x.sched ≡ s → s < 2 → Move x (send_loop b ∷ []) x (send_saw b s ∷ []) keep
    send_noted : {b : ℕ} (s : ℕ) → x.sched ≡ s → 1 < s → Move x (send_loop b ∷ []) x [] keep
    send_claims :
        {b s : ℕ}
        → s ≡ 0
        → x.sched ≡ s
        → Move x (send_saw b s ∷ []) (set_sched 1 x) (enqueueing b ∷ []) keep
    send_marks :
        {b s : ℕ} → s ≡ 1 → x.sched ≡ s → Move x (send_saw b s ∷ []) (set_sched 2 x) [] keep
    send_again : {b s : ℕ} → x.sched ≢ s → Move x (send_saw b s ∷ []) x (send_loop b ∷ []) keep
    resume : Move x [] x (resume_loop ∷ []) keep
    resume_load :
        (s : ℕ) → x.sched ≡ s → s ≢ 2 → Move x (resume_loop ∷ []) x (resume_saw s ∷ []) keep
    resume_noted : x.sched ≡ 2 → Move x (resume_loop ∷ []) x [] keep
    resume_wakes :
        {s : ℕ}
        → s ≡ 3
        → x.sched ≡ s
        → Move x (resume_saw s ∷ []) (set_sched 1 x) (picking 0 ∷ []) keep
    resume_marks :
        {s : ℕ} → s ≡ 1 → x.sched ≡ s → Move x (resume_saw s ∷ []) (set_sched 2 x) [] keep
    resume_stale :
        {s : ℕ}
        → s ≡ 0
        → x.sched ≡ s
        → Move x (resume_saw s ∷ []) (set_sched 1 x) (enqueueing medium ∷ []) keep
    resume_again : {s : ℕ} → x.sched ≢ s → Move x (resume_saw s ∷ []) x (resume_loop ∷ []) keep
    pick :
        {b : ℕ}
        → b < k_bands
        → has_band x b ≡ true
        → Move x (picking b ∷ []) x (enqueueing b ∷ []) keep
    pick_next :
        {b : ℕ}
        → b < k_bands
        → has_band x b ≡ false
        → Move x (picking b ∷ []) x (picking (suc b) ∷ []) keep
    pick_default : {b : ℕ} → b ≡ k_bands → Move x (picking b ∷ []) x (enqueueing medium ∷ []) keep
    enqueue : {b : ℕ} → Move x (enqueueing b ∷ []) x [] (pushes b)
    dequeue : (b : ℕ) → b < k_bands → Move x [] x (started ∷ []) (pops b)
    start : x.snapshot ≡ false → Move x (started ∷ []) x (fetching k_batch_size 0 ∷ []) keep
    start_suspended : x.snapshot ≡ true → Move x (started ∷ []) x (resuming ∷ []) keep
    still_suspended : Move x (resuming ∷ []) (set_snapshot true x) (parking ∷ []) keep
    resumed : Move x (resuming ∷ []) (set_snapshot false x) (fetching k_batch_size 0 ∷ []) keep
    fetch :
        {budget b : ℕ} (m : M) (y : Actor M)
        → b < k_bands
        → next_message x b ≡ some (m, y)
        → Move x (fetching (suc budget) b ∷ []) y (handling budget ∷ []) keep
    fetch_next :
        {budget b : ℕ}
        → b < k_bands
        → next_message x b ≡ none
        → Move x (fetching (suc budget) b ∷ []) x (fetching (suc budget) (suc b) ∷ []) keep
    no_message :
        {budget b : ℕ} → b ≡ k_bands → Move x (fetching budget b ∷ []) x (finish_loop ∷ []) keep
    no_budget : {b : ℕ} → Move x (fetching zero b ∷ []) x (finish_loop ∷ []) keep
    handled : {budget : ℕ} → Move x (handling budget ∷ []) x (fetching budget 0 ∷ []) keep
    yields : {budget : ℕ} → Move x (handling budget ∷ []) (set_snapshot true x) (parking ∷ []) keep
    breaks : {budget : ℕ} → Move x (handling budget ∷ []) x (finish_loop ∷ []) keep
    parks : x.sched ≡ 1 → Move x (parking ∷ []) (set_sched 3 x) [] keep
    park_fails : x.sched ≢ 1 → Move x (parking ∷ []) x (unparking ∷ []) keep
    unparks : Move x (unparking ∷ []) (set_sched 1 x) (picking 0 ∷ []) keep
    finish_load : x.sched ≡ 2 → Move x (finish_loop ∷ []) x (finish_saw ∷ []) keep
    finish_check : x.sched ≢ 2 → Move x (finish_loop ∷ []) x (checking 0 ∷ []) keep
    clears : x.sched ≡ 2 → Move x (finish_saw ∷ []) (set_sched 1 x) (checking 0 ∷ []) keep
    clear_fails : x.sched ≢ 2 → Move x (finish_saw ∷ []) x (finish_loop ∷ []) keep
    finds_work :
        {b : ℕ}
        → b < k_bands
        → has_band x b ≡ true
        → Move x (checking b ∷ []) x (picking 0 ∷ []) keep
    check_next :
        {b : ℕ}
        → b < k_bands
        → has_band x b ≡ false
        → Move x (checking b ∷ []) x (checking (suc b) ∷ []) keep
    finds_none : {b : ℕ} → b ≡ k_bands → Move x (checking b ∷ []) x (releasing ∷ []) keep
    releases : x.sched ≡ 1 → Move x (releasing ∷ []) (set_sched 0 x) [] keep
    release_fails : x.sched ≢ 1 → Move x (releasing ∷ []) x (finish_loop ∷ []) keep

-- A call with the actor it is on.
pub record Frame : Type 0 where
  pub actor : ℕ
  pub pc : Pc

abbrev pub frames : ℕ → List Pc → List Frame
frames a [] = []
frames a (p ∷ ps) = record { actor = a; pc = p } ∷ frames a ps

abbrev pub is_code : Pc → Bool
is_code (handling budget) = true
is_code resuming = true
is_code _ = false

-- The code of a handler runs on top of these calls, and may send and resume; so does a thread that
-- is outside the scheduler.
abbrev pub runs_code : List Frame → Bool
runs_code [] = true
runs_code (f ∷ fs) = is_code f.pc

-- What a thread must be at for a move: only a worker that is in no call takes a turn.
abbrev pub may_begin : List Pc → Effect → List Frame → Bool
may_begin [] (pops b) under = is_empty under
may_begin [] e under = runs_code under
may_begin (p ∷ ps) e under = true

abbrev pub update {ℓ} : {A : Type ℓ} → ℕ → A → (ℕ → A) → ℕ → A
update a v f = λ c. if c == a then v else f c

pub record World (M : Type 0) : Type 0 where
  pub actors : ℕ → Actor M
  pub ready : ℕ → List ℕ  -- the three ready stacks, the top first
  pub threads : List (List Frame)  -- the calls of each thread, the innermost first

-- The ready stacks after an effect on an actor; none where it cannot be.
abbrev pub Applied : Effect → ℕ → (ℕ → List ℕ) → (ℕ → List ℕ) → Type 0
Applied keep a r r' = r' ≡ r
Applied (pushes b) a r r' = r' ≡ at_band b (a ∷ r b) r
Applied (pops b) a r r' = r ≡ at_band b (a ∷ r' b) r'

abbrev pub idle_threads : ℕ → List (List Frame)
idle_threads zero = []
idle_threads (suc n) = [] ∷ idle_threads n

module _ {M : Type 0} where
  pub data Step (w : World M) : World M → Type 0 where
    step :
        (a : ℕ) (before after : List (List Frame)) (under : List Frame) {pre post : List Pc}
        {y : Actor M} {e : Effect} (r : ℕ → List ℕ)
        → w.threads ≡ before ++ (frames a pre ++ under) ∷ after
        → may_begin pre e under ≡ true
        → Move (w.actors a) pre y post e
        → Applied e a w.ready r
        → Step w (record {
          actors = update a y w.actors;
          ready = r;
          threads = before ++ (frames a post ++ under) ∷ after;
        })

  -- No actor has run yet, and `n` threads are outside the scheduler.
  abbrev pub at_rest : ℕ → World M
  at_rest n = record { actors = λ a. new_actor; ready = λ b. []; threads = idle_threads n }

  pub data Reachable : World M → Type 0 where
    at_first : (n : ℕ) → Reachable (at_rest n)
    after : {w v : World M} → Reachable w → Step w v → Reachable v
