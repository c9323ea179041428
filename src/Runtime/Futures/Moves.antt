-- ===== src/Runtime/Futures/Moves.antt =====
-- runtime/Futures.cpp: `complete`, `addWaiter`, `onComplete` and `runContinuations` on one future as the
-- moves of a thread, a shared access at a time.
use proto_scala.Common.{
  ℕ, suc, ◌≡◌, ◌≢◌, Bool, true, false, ◌==◌, if◌then◌else◌, Option, none, some, List, [], ◌∷◌, ◌++◌,
  replicate,
}

abbrev pub k_pending : ℕ
k_pending = 0

abbrev pub k_success : ℕ
k_success = 1

abbrev pub k_failure : ℕ
k_failure = 2

abbrev pub k_claiming : ℕ
k_claiming = 3

-- A future object. `conts_version` counts the writes of `conts`, each of which stores a new list
-- object. The code keeps no history: `parked` are the actors that were told to suspend, `resumed` those
-- that were resumed, `registered` the continuations that were given to `onComplete` and have reached
-- the list or were run at once, and `ran` those that were run.
pub record Future (V : Type 0) : Type 0 where
  pub fstate : ℕ
  pub fvalue : Option V
  pub ferror : Option V
  pub waiters : List ℕ
  pub conts : List ℕ
  pub conts_version : ℕ
  pub parked : List ℕ
  pub resumed : List ℕ
  pub registered : List ℕ
  pub ran : List ℕ

-- `state`: a claimed future reads as pending.
abbrev pub state : {V : Type 0} → Future V → ℕ
state f = if f.fstate == k_claiming then k_pending else f.fstate

-- Where a call stands, with the locals that are live there.
pub data Pc (V : Type 0) : Type 0 where
  claiming : (v : V) (failed : Bool) → Pc V  -- `complete`: before its compare-and-swap
  writing : (v : V) (failed : Bool) → Pc V  -- before the value is written
  settling : (failed : Bool) → Pc V  -- before the final state is stored
  reading : Pc V  -- before the waiters are read
  waking : (ws : List ℕ) → Pc V  -- waiters left to resume
  run_conts : Pc V  -- `runContinuations`: before the list is read
  taking : (version : ℕ) (cs : List ℕ) → Pc V  -- before its compare-and-swap
  running : (cs : List ℕ) → Pc V  -- continuations left to run
  waiter_loop : (a : ℕ) → Pc V  -- `addWaiter`: at the head of the loop
  waiter_read : (a : ℕ) → Pc V  -- the state was pending
  waiter_saw : (a : ℕ) (ws : List ℕ) → Pc V  -- before its compare-and-swap
  waiter_check : (a : ℕ) → Pc V  -- before the second read of the state
  cont_loop : (c : ℕ) → Pc V  -- `onComplete`: at the head of the loop
  cont_read : (c : ℕ) → Pc V  -- the state was pending
  cont_saw : (c version : ℕ) (cs : List ℕ) → Pc V  -- before its compare-and-swap
  cont_check : Pc V  -- before the second read of the state

abbrev pub final_state : Bool → ℕ
final_state true = k_failure
final_state false = k_success

module _ {V : Type 0} where
  abbrev pub new_future : Future V
  new_future = record {
    fstate = k_pending;
    fvalue = none;
    ferror = none;
    waiters = [];
    conts = [];
    conts_version = 0;
    parked = [];
    resumed = [];
    registered = [];
    ran = [];
  }

  abbrev pub set_state : ℕ → Future V → Future V
  set_state s f = record f { fstate = s }

  -- `setAttribute(failed ? ferrorKey : fvalueKey, value)`
  abbrev pub write_value : V → Bool → Future V → Future V
  write_value v failed f = record f {
    fvalue = if failed then f.fvalue else some v;
    ferror = if failed then some v else f.ferror;
  }

  -- `appendLast` and the store of the new list
  abbrev pub add_waiter : ℕ → List ℕ → Future V → Future V
  add_waiter a ws f = record f { waiters = ws ++ a ∷ [] }

  abbrev pub park : ℕ → Future V → Future V
  park a f = record f { parked = a ∷ f.parked }

  abbrev pub resume : ℕ → Future V → Future V
  resume a f = record f { resumed = a ∷ f.resumed }

  abbrev pub add_cont : ℕ → List ℕ → Future V → Future V
  add_cont c cs f = record f {
    conts = cs ++ c ∷ [];
    conts_version = suc f.conts_version;
    registered = c ∷ f.registered;
  }

  abbrev pub take_conts : Future V → Future V
  take_conts f = record f { conts = []; conts_version = suc f.conts_version }

  abbrev pub run : ℕ → Future V → Future V
  run c f = record f { ran = c ∷ f.ran }

  abbrev pub run_own : ℕ → Future V → Future V
  run_own c f = record f { registered = c ∷ f.registered; ran = c ∷ f.ran }

  -- A move: the calls on top of a thread's stack and the future, before and after. A
  -- compare-and-swap of a list succeeds only on an equal list, and fails only on another object.
  pub data Move (f : Future V) : List (Pc V) → Future V → List (Pc V) → Type 0 where
    complete : (v : V) (failed : Bool) → Move f [] f (claiming v failed ∷ [])
    claims :
        {v : V} {failed : Bool}
        → f.fstate ≡ k_pending
        → Move f (claiming v failed ∷ []) (set_state k_claiming f) (writing v failed ∷ [])
    claim_fails :
        {v : V} {failed : Bool} → f.fstate ≢ k_pending → Move f (claiming v failed ∷ []) f []
    writes :
        {v : V} {failed : Bool}
        → Move f (writing v failed ∷ []) (write_value v failed f) (settling failed ∷ [])
    settles :
        {failed : Bool}
        → Move f (settling failed ∷ []) (set_state (final_state failed) f) (reading ∷ [])
    reads_waiters : Move f (reading ∷ []) f (waking f.waiters ∷ [])
    wakes : {a : ℕ} {ws : List ℕ} → Move f (waking (a ∷ ws) ∷ []) (resume a f) (waking ws ∷ [])
    woke_all : Move f (waking [] ∷ []) f (run_conts ∷ [])
    no_conts : f.conts ≡ [] → Move f (run_conts ∷ []) f []
    reads_conts : f.conts ≢ [] → Move f (run_conts ∷ []) f (taking f.conts_version f.conts ∷ [])
    takes :
        {n : ℕ} {cs : List ℕ}
        → f.conts ≡ cs
        → Move f (taking n cs ∷ []) (take_conts f) (running cs ∷ [])
    take_fails : {n : ℕ} {cs : List ℕ} → f.conts_version ≢ n → Move f (taking n cs ∷ []) f []
    runs : {c : ℕ} {cs : List ℕ} → Move f (running (c ∷ cs) ∷ []) (run c f) (running cs ∷ [])
    ran_all : Move f (running [] ∷ []) f []
    add_waiter_call : (a : ℕ) → Move f [] f (waiter_loop a ∷ [])
    waiter_late : {a : ℕ} → state f ≢ k_pending → Move f (waiter_loop a ∷ []) f []
    waiter_early :
        {a : ℕ} → state f ≡ k_pending → Move f (waiter_loop a ∷ []) f (waiter_read a ∷ [])
    waiter_reads : {a : ℕ} → Move f (waiter_read a ∷ []) f (waiter_saw a f.waiters ∷ [])
    waiter_adds :
        {a : ℕ} {ws : List ℕ}
        → f.waiters ≡ ws
        → Move f (waiter_saw a ws ∷ []) (add_waiter a ws f) (waiter_check a ∷ [])
    waiter_again : {a : ℕ} {ws : List ℕ} → Move f (waiter_saw a ws ∷ []) f (waiter_loop a ∷ [])
    waiter_parks : {a : ℕ} → state f ≡ k_pending → Move f (waiter_check a ∷ []) (park a f) []
    waiter_goes_on : {a : ℕ} → state f ≢ k_pending → Move f (waiter_check a ∷ []) f []
    on_complete : (c : ℕ) → Move f [] f (cont_loop c ∷ [])
    cont_late : {c : ℕ} → state f ≢ k_pending → Move f (cont_loop c ∷ []) (run_own c f) []
    cont_early : {c : ℕ} → state f ≡ k_pending → Move f (cont_loop c ∷ []) f (cont_read c ∷ [])
    cont_reads : {c : ℕ} → Move f (cont_read c ∷ []) f (cont_saw c f.conts_version f.conts ∷ [])
    cont_adds :
        {c n : ℕ} {cs : List ℕ}
        → f.conts ≡ cs
        → Move f (cont_saw c n cs ∷ []) (add_cont c cs f) (cont_check ∷ [])
    cont_again :
        {c n : ℕ} {cs : List ℕ}
        → f.conts_version ≢ n
        → Move f (cont_saw c n cs ∷ []) f (cont_loop c ∷ [])
    cont_settled : state f ≢ k_pending → Move f (cont_check ∷ []) f (run_conts ∷ [])
    cont_pending : state f ≡ k_pending → Move f (cont_check ∷ []) f []

-- The calls during which other code runs: a continuation, or what `resume` wakes.
abbrev pub runs_code : {V : Type 0} → List (Pc V) → Bool
runs_code [] = true
runs_code (running cs ∷ ps) = true
runs_code (p ∷ ps) = false

abbrev pub may_begin : {V : Type 0} → List (Pc V) → List (Pc V) → Bool
may_begin [] under = runs_code under
may_begin (p ∷ ps) under = true

-- A future and the calls of each thread on it, the innermost first.
pub record World (V : Type 0) : Type 0 where
  pub future : Future V
  pub threads : List (List (Pc V))

module _ {V : Type 0} where
  pub data Step (w : World V) : World V → Type 0 where
    step :
        (us ts : List (List (Pc V))) (under : List (Pc V)) {pre post : List (Pc V)} {g : Future V}
        → w.threads ≡ us ++ (pre ++ under) ∷ ts
        → may_begin pre under ≡ true
        → Move w.future pre g post
        → Step w (record { future = g; threads = us ++ (post ++ under) ∷ ts })

  abbrev pub created : ℕ → World V
  created n = record { future = new_future; threads = replicate n [] }

  pub data Reachable : World V → Type 0 where
    at_first : (n : ℕ) → Reachable (created n)
    after : {w v : World V} → Reachable w → Step w v → Reachable v
