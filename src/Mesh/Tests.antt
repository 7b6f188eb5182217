-- ===== src/Mesh/Tests.antt =====
-- Two replicas of one agent, one of which hibernates.
use trytet.Prelude.{ℕ, ◌≢◌, ◌↔◌, true, false, none, some, List, [], ◌∷◌, bytes_eq, codes}
use trytet.Mesh.{TetMetadata, new, remove_by_snapshot}
use trytet.Mesh.Aliases.{Event, registers, removes, run, WellFormed, run-WellFormed}
use trytet.Mesh.Hibernation.{Reachable, remove_by_snapshot-exact}

abbrev agent : List ℕ
agent = codes "a"

abbrev awake : TetMetadata
awake = record { tet_id = codes "1"; is_hibernating = false; snapshot_id = none; wasm_bytes = none }

abbrev asleep : TetMetadata
asleep = record {
  tet_id = codes "2";
  is_hibernating = true;
  snapshot_id = some (codes "s");
  wasm_bytes = none;
}

abbrev events : List Event
events = registers agent awake ∷ registers agent asleep ∷ []

run-WellFormed_example :
    WellFormed (run new (registers agent awake ∷ removes agent (codes "s") ∷ events))
run-WellFormed_example = run-WellFormed (registers agent awake ∷ removes agent (codes "s") ∷ events)

remove_by_snapshot-exact_example :
    Reachable (remove_by_snapshot (run new events) agent (codes "s")) agent awake
    ↔ (Reachable (run new events) agent awake × (awake.snapshot_id ≢ some (codes "s")))
remove_by_snapshot-exact_example = remove_by_snapshot-exact (run new events) agent (codes "s") awake
