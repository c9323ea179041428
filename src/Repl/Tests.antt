-- ===== src/Repl/Tests.antt =====
-- Two threads and one module.
use proto_scala.Common.{ℕ, ◌≡◌, refl, [], ◌∷◌, Bytes, codes}
use proto_scala.Repl.ModuleTable.{ModuleTable, claim, find}
use proto_scala.Repl.Owners.{innermost, Reachable-one_loader}
use proto_scala.Repl.Loading.{
  missed, loading, World, set_jobs, missed_it, claimed_it, Reachable, at_first, after, first_world,
}

abbrev path : Bytes
path = codes "/a.scala"

-- Thread 4 is loading the path.
abbrev one_load : ModuleTable ℕ
one_load = record { loaded = []; loading = (path, 4) ∷ [] }

abbrev begun_world : World ℕ
begun_world = set_jobs 4 (missed path ∷ []) first_world.table first_world

abbrev loading_world : World ℕ
loading_world = set_jobs 4 (loading path ∷ []) one_load begun_world

loading_world-Reachable : Reachable loading_world
unfolding find claim
loading_world-Reachable =
    after (after at_first (missed_it 4 path refl refl)) (claimed_it 4 path [] one_load refl refl)

Reachable-one_loader_example : ◌≡◌ {A = ℕ} 4 4
Reachable-one_loader_example =
    Reachable-one_loader path 4 4 loading_world-Reachable innermost innermost
