-- ===== src/Runtime/Futures/Continuations.antt =====
-- runtime/Futures.cpp, `onComplete` and `runContinuations`: each continuation runs once.
use proto_scala.Common.{ℕ, ◌+◌, ◌<◌, ◌≡◌, ◌≢◌, ◌==◌, if◌then◌else◌, total_of, count}
use proto_scala.Runtime.Futures.Moves.{
  Future, state, Pc, reading, waking, run_conts, taking, running, cont_check, World, k_pending,
}

module _ {V : Type 0} (c : ℕ) where
  -- How often a call still has the continuation to run.
  abbrev held : Pc V → ℕ
  held (running cs) = count c cs
  held _ = 0

  -- A call that will take the list of continuations, of the given version if it has read one.
  abbrev obliged : ℕ → Pc V → ℕ
  obliged n reading = 1
  obliged n (waking ws) = 1
  obliged n run_conts = 1
  obliged n cont_check = 1
  obliged n (taking m cs) = if m == n then 1 else 0
  obliged n _ = 0

  record IsRunOnce (f : Future V) (h o : ℕ) : Type 0 where
    once : count c f.registered ≡ count c f.conts + h + count c f.ran
    will_run : state f ≢ k_pending → 0 < count c f.conts → 0 < o

  Keeps : World V → Type 0
  Keeps w =
      IsRunOnce w.future (total_of held w.threads)
        (total_of (obliged w.future.conts_version) w.threads)
