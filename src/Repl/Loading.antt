-- ===== src/Repl/Loading.antt =====
-- repl/Session.cpp, `loadModuleFile`: several threads load modules through one table. A thread's jobs are
-- the loads it is in, the innermost first; the code of a module may import others while it is loaded.
use proto_scala.Common.{
  ℕ, ◌≡◌, Bool, true, false, ◌==◌, if◌then◌else◌, List, [], ◌∷◌, Option, none, some, Bytes,
}
use proto_scala.Repl.ModuleTable.{
  ModuleTable, claimed, held, cyclic, find, claim, publish, abandon, await_loaded,
}

-- Where a load is: `find` has missed, the path is claimed, or another thread's load is waited for.
pub data Job : Type 0 where
  missed loading waiting : Bytes → Job

pub record World (M : Type 0) : Type 0 where
  pub table : ModuleTable M
  pub jobs : ℕ → List Job

abbrev pub update : ℕ → List Job → (ℕ → List Job) → ℕ → List Job
update me js jobs = λ u. if u == me then js else jobs u

-- No job of the list waits, nor is about to claim: the thread runs.
abbrev pub is_running : List Job → Bool
is_running [] = true
is_running (loading p ∷ js) = true
is_running (missed p ∷ js) = false
is_running (waiting p ∷ js) = false

module _ {M : Type 0} where
  abbrev pub set_jobs : ℕ → List Job → ModuleTable M → World M → World M
  set_jobs me js t w = record { table = t; jobs = update me js w.jobs }

  -- One step of one thread. `ran` and `failed` end the load of a module, by `publish` and by the guard's
  -- `abandon`; `refused` is the error of a cycle, and `resumed` the end of a wait.
  pub data Step (w : World M) : World M → Type 0 where
    missed_it :
        (me : ℕ) (p : Bytes)
        → is_running (w.jobs me) ≡ true
        → find p w.table ≡ none
        → Step w (set_jobs me (missed p ∷ w.jobs me) w.table w)
    claimed_it :
        (me : ℕ) (p : Bytes) (js : List Job) (t : ModuleTable M)
        → w.jobs me ≡ missed p ∷ js
        → claim me p w.table ≡ claimed t
        → Step w (set_jobs me (loading p ∷ js) t w)
    refused :
        (me : ℕ) (p : Bytes) (js : List Job)
        → w.jobs me ≡ missed p ∷ js
        → claim me p w.table ≡ cyclic
        → Step w (set_jobs me js w.table w)
    waits :
        (me : ℕ) (p : Bytes) (js : List Job)
        → w.jobs me ≡ missed p ∷ js
        → claim me p w.table ≡ held
        → Step w (set_jobs me (waiting p ∷ js) w.table w)
    resumed :
        (me : ℕ) (p : Bytes) (js : List Job) (r : Option M)
        → w.jobs me ≡ waiting p ∷ js
        → await_loaded p w.table ≡ some r
        → Step w (set_jobs me js w.table w)
    ran :
        (me : ℕ) (p : Bytes) (js : List Job) (m : M)
        → w.jobs me ≡ loading p ∷ js
        → Step w (set_jobs me js (publish p m w.table) w)
    failed :
        (me : ℕ) (p : Bytes) (js : List Job)
        → w.jobs me ≡ loading p ∷ js
        → Step w (set_jobs me js (abandon p w.table) w)

  abbrev pub first_world : World M
  first_world = record { table = record { loaded = []; loading = [] }; jobs = λ t. [] }

  pub data Reachable : World M → Type 0 where
    at_first : Reachable first_world
    after : {w v : World M} → Reachable w → Step w v → Reachable v
