-- ===== src/Mesh.antt =====
-- src/mesh.rs and its types of src/models.rs: the aliases of the tets that run on a node, and the
-- telemetry of the calls between them. Each operation holds a write lock throughout, and so it is
-- one step. A `u64` counter wraps, as in a release build. The clock is an argument.
pub mod Aliases
pub mod Hibernation
pub mod Resolution
pub mod Telemetry
pub mod Tests
use trytet.Prelude.{
  ℕ, ◌+◌, ◌%◌, ◌^◌, Bool, true, false, Option, none, some, List, [], ◌∷◌, ◌++◌, ◌==◌, bytes_eq,
  length, get_elem?, if◌then◌else◌, codes,
}
use trytet.Prelude.HashMap
use trytet.Prelude.HashMap.{HashMap}

pub record TetMetadata : Type 0 where
  pub tet_id : List ℕ
  pub is_hibernating : Bool
  pub snapshot_id : Option (List ℕ)
  pub wasm_bytes : Option (List ℕ)

pub record TopologyEdge : Type 0 where
  pub source : List ℕ
  pub target : List ℕ
  pub call_count : ℕ
  pub error_count : ℕ
  pub total_latency_us : ℕ
  pub total_bytes : ℕ
  pub last_seen_ns : ℕ

pub record TetMesh : Type 0 where
  pub registry : HashMap (List ℕ) (List TetMetadata)
  pub topology : HashMap (List ℕ) TopologyEdge

unfoldable pub new : TetMesh
new = record { registry = []; topology = [] }

abbrev pub or_default : Option (List TetMetadata) → List TetMetadata
or_default none = []
or_default (some entries) = entries

-- The entry of the same tet is overwritten in place; a new tet goes to the end.
unfoldable pub upsert : TetMetadata → List TetMetadata → List TetMetadata
upsert metadata [] = metadata ∷ []
upsert metadata (e ∷ entries) =
    if e.tet_id == metadata.tet_id then metadata ∷ entries else e ∷ upsert metadata entries

unfoldable pub register : TetMesh → List ℕ → TetMetadata → TetMesh
unfolding upsert
register m alias metadata = record m {
  registry =
      HashMap.insert alias (upsert metadata (or_default (HashMap.lookup alias m.registry)))
        m.registry;
}

-- `now` is the clock in nanoseconds.
unfoldable pub resolve_local : TetMesh → List ℕ → ℕ → Option TetMetadata
resolve_local m alias now = elim (HashMap.lookup alias m.registry) [
  | none ↦ none
  | some [] ↦ none
  | some (e ∷ entries) ↦ get_elem? (e ∷ entries) (now % length (e ∷ entries))
]

unfoldable pub deregister : TetMesh → List ℕ → TetMesh
deregister m alias = record m { registry = HashMap.remove alias m.registry }

unfoldable pub is_snapshot : List ℕ → Option (List ℕ) → Bool
is_snapshot id none = false
is_snapshot id (some s) = s == id

unfoldable pub retain_others : List ℕ → List TetMetadata → List TetMetadata
unfolding is_snapshot
retain_others id [] = []
retain_others id (e ∷ entries) =
    let rest = retain_others id entries in if is_snapshot id e.snapshot_id then rest else e ∷ rest

unfoldable pub store_entries :
    List ℕ
    → List TetMetadata
    → HashMap (List ℕ) (List TetMetadata)
    → HashMap (List ℕ) (List TetMetadata)
store_entries alias [] registry = HashMap.remove alias registry
store_entries alias (e ∷ entries) registry = HashMap.insert alias (e ∷ entries) registry

unfoldable pub remove_by_snapshot : TetMesh → List ℕ → List ℕ → TetMesh
unfolding retain_others store_entries
remove_by_snapshot m alias snapshot_id = elim (HashMap.lookup alias m.registry) [
  | none ↦ m
  | some entries ↦ record m {
    registry = store_entries alias (retain_others snapshot_id entries) m.registry;
  }
]

-- One call, as it is reported.
pub record Call : Type 0 where
  pub source : List ℕ
  pub target : List ℕ
  pub bytes : ℕ
  pub latency_us : ℕ
  pub is_error : Bool
  pub now_ns : ℕ

unfoldable pub edge_key : List ℕ → List ℕ → List ℕ
edge_key source target = source ++ (codes "->" ++ target)

unfoldable pub new_edge : Call → TopologyEdge
new_edge c = record {
  source = c.source;
  target = c.target;
  call_count = 0;
  error_count = 0;
  total_latency_us = 0;
  total_bytes = 0;
  last_seen_ns = 0;
}

abbrev pub u64_add : ℕ → ℕ → ℕ
u64_add a b = (a + b) % 2 ^ 64

unfoldable pub update_edge : Call → TopologyEdge → TopologyEdge
update_edge c e = record e {
  call_count = u64_add e.call_count 1;
  error_count = if c.is_error then u64_add e.error_count 1 else e.error_count;
  total_latency_us = u64_add e.total_latency_us c.latency_us;
  total_bytes = u64_add e.total_bytes c.bytes;
  last_seen_ns = c.now_ns % 2 ^ 64;
}

abbrev pub or_new : Call → Option TopologyEdge → TopologyEdge
or_new c none = new_edge c
or_new c (some e) = e

unfoldable pub record_telemetry : TetMesh → Call → TetMesh
unfolding edge_key new_edge update_edge
record_telemetry m c =
    let key = edge_key c.source c.target in
    record m {
      topology =
          HashMap.insert key (update_edge c (or_new c (HashMap.lookup key m.topology))) m.topology;
    }
