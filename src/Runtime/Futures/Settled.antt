-- ===== src/Runtime/Futures/Settled.antt =====
-- runtime/Futures.cpp, `complete`: one completer writes, and a settled future keeps its state and value.
use proto_scala.Common.{ℕ, ◌<◌, ◌≡◌, true, false, ◌==◌, if◌then◌else◌, Option, none, some, total_of}
use proto_scala.Runtime.Futures.Moves.{Future, Pc, writing, settling, World, k_success, k_failure}

module _ {V : Type 0} where
  abbrev lacks_one : Option V → ℕ
  lacks_one none = 1
  lacks_one (some v) = 0

  -- A call of `complete` that owns the future.
  abbrev writers : Pc V → ℕ
  writers (writing v failed) = 1
  writers (settling failed) = 1
  writers _ = 0

  -- A call that is about to store the final state of a future without its value.
  abbrev lacks : Future V → Pc V → ℕ
  lacks f (settling true) = lacks_one f.ferror
  lacks f (settling false) = lacks_one f.fvalue
  lacks f _ = 0

  record IsClaimed (f : Future V) (n l : ℕ) : Type 0 where
    small : f.fstate < 4
    one : n ≡ (if f.fstate == 3 then 1 else 0)
    has_value : f.fstate ≡ k_success → lacks_one f.fvalue ≡ 0
    has_error : f.fstate ≡ k_failure → lacks_one f.ferror ≡ 0
    written : l ≡ 0

  Keeps : World V → Type 0
  Keeps w = IsClaimed w.future (total_of writers w.threads) (total_of (lacks w.future) w.threads)

  -- The future's state, value and error are what they were.
  abbrev SameResult : Future V → Future V → Type 0
  SameResult f g = (g.fstate ≡ f.fstate) × (g.fvalue ≡ f.fvalue) × (g.ferror ≡ f.ferror)
