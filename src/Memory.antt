-- ===== src/Memory.antt =====
-- src/memory.rs and src/shards.rs: the vector memory of a guest. Layers lie one on another; only the
-- active one changes. Scores and the nearest-neighbour index are parameters. A `DashMap` is read in
-- the order of its insertions. Each operation is one step, and a compaction that waits for the
-- worker is in a queue; frozen layers are shared, and the model holds the copy of one owner.
use trytet.Prelude.{
  ℕ, ◌+◌, ◌*◌, ◌%◌, ◌^◌, Bool, true, false, not, ◌&&◌, Option, none, some, List, [], ◌∷◌, ◌++◌, map,
  leb, ◌==◌, contains, discard, bytes_eq, nat_eq, if◌then◌else◌, length, take, set, get_elem?,
  replicate,
}
use trytet.Prelude.HashMap
use trytet.Prelude.HashMap.{HashMap}
pub mod Search
pub mod Found
pub mod Recall
pub mod Layers
pub mod Snapshots
pub mod Tests

-- `f32`, `AHasher`, and the graph of `instant_distance`, whose search gives distances and values.
pub record Vectors : Type 1 where
  pub F32 : Type 0
  pub zero : F32
  pub one : F32
  pub add : F32 → F32 → F32
  pub mul : F32 → F32 → F32
  pub sub : F32 → F32 → F32
  pub div : F32 → F32 → F32
  pub sqrt : F32 → F32
  pub is_zero : F32 → Bool
  -- `a >= b`, and `a < b` as `partial_cmp` has it
  pub ge : F32 → F32 → Bool
  pub lt : F32 → F32 → Bool
  pub hash : List ℕ → ℕ
  pub HnswMap : Type 0
  pub build : List (List F32) → List (List ℕ) → HnswMap
  pub search : HnswMap → List F32 → List (F32 × List ℕ)

abbrev pub num_shards : ℕ
num_shards = 32

module _ (vectors : Vectors) where
  open vectors use {
    F32, zero, one, add, mul, sub, div, sqrt, is_zero, ge, lt, hash, HnswMap, build, search,
  }

  pub record VectorRecord : Type 0 where
    pub id : List ℕ
    pub vector : List F32
    pub metadata : HashMap (List ℕ) (List ℕ)

  pub record SearchQuery : Type 0 where
    pub collection : List ℕ
    pub query_vector : List F32
    pub limit : ℕ
    pub min_score : F32

  pub record SearchResult : Type 0 where
    pub id : List ℕ
    pub score : F32
    pub metadata : HashMap (List ℕ) (List ℕ)

  pub record Tier2Data : Type 0 where
    pub records : List VectorRecord
    pub points : List (List F32)
    pub index : Option HnswMap

  pub record VectorCollection : Type 0 where
    pub tier1 : HashMap (List ℕ) VectorRecord
    pub tier2 : Tier2Data
    pub is_compacting : Bool

  abbrev pub VectorShard : Type 0
  VectorShard = HashMap (List ℕ) VectorCollection

  -- `id` stands for the UUID; a layer that was read from a snapshot has no shards.
  pub record VfsLayer : Type 0 where
    pub id : ℕ
    pub is_readonly : Bool
    pub memory_shards : Option (List VectorShard)
    pub tombstones : List (List ℕ)

  -- `worker` is the layer whose shards the background worker was given, with the queue to it.
  pub record VectorVfs : Type 0 where
    pub base_layers : List VfsLayer
    pub active_layer : VfsLayer
    pub worker : Option ℕ
    pub compaction_queue : List (List ℕ)

  -- The sums of `CosinePoint::distance`: the product, and the two norms.
  unfoldable pub dot_norms : List F32 → List F32 → F32 × F32 × F32 → F32 × F32 × F32
  dot_norms [] ys sums = sums
  dot_norms (x ∷ xs) [] sums = sums
  dot_norms (a ∷ xs) (b ∷ ys) (dot, norm_a, norm_b) =
      dot_norms xs ys (add dot (mul a b), add norm_a (mul a a), add norm_b (mul b b))

  unfoldable pub distance : List F32 → List F32 → F32
  unfolding dot_norms
  distance xs ys =
      let (dot, norm_a, norm_b) = dot_norms xs ys (zero, zero, zero) in
      sub one (
        if is_zero norm_a
        then zero
        else if is_zero norm_b
        then zero
        else div dot (mul (sqrt norm_a) (sqrt norm_b)))

  abbrev pub empty_shards : List VectorShard
  empty_shards = replicate num_shards []

  unfoldable pub new_layer : ℕ → VfsLayer
  new_layer id = record {
    id = id;
    is_readonly = false;
    memory_shards = some empty_shards;
    tombstones = [];
  }

  unfoldable pub start_background_worker : VectorVfs → VectorVfs
  start_background_worker vfs = elim vfs.worker [
    | some w ↦ vfs
    | none ↦ record vfs { worker = some vfs.active_layer.id }
  ]

  unfoldable pub new : ℕ → VectorVfs
  unfolding new_layer start_background_worker
  new id = start_background_worker (record {
    base_layers = [];
    active_layer = new_layer id;
    worker = none;
    compaction_queue = [];
  })

  -- The parent with a fresh layer, and the child, over the frozen one. Two fresh identifiers.
  unfoldable pub spawn_cow_child : VectorVfs → ℕ → ℕ → VectorVfs × VectorVfs
  unfolding new_layer start_background_worker
  spawn_cow_child vfs parent_id child_id =
      let base_layers = vfs.base_layers ++ record vfs.active_layer { is_readonly = true } ∷ [] in
      (
        record vfs { base_layers = base_layers; active_layer = new_layer parent_id },
        start_background_worker (record {
          base_layers = base_layers;
          active_layer = new_layer child_id;
          worker = none;
          compaction_queue = [];
        }),
      )

  unfoldable pub forget : VectorVfs → List ℕ → VectorVfs
  unfolding contains
  forget vfs record_id = record vfs {
    active_layer = record vfs.active_layer {
      tombstones =
          if contains record_id vfs.active_layer.tombstones
          then vfs.active_layer.tombstones
          else record_id ∷ vfs.active_layer.tombstones;
    };
  }

  -- `none` is a panic: no shards, or too few.
  unfoldable pub shard_of : VfsLayer → List ℕ → Option VectorShard
  shard_of layer collection = elim layer.memory_shards [
    | none ↦ none
    | some shards ↦ get_elem? shards (hash collection % num_shards)
  ]

  unfoldable pub default_collection : VectorCollection
  default_collection = record {
    tier1 = [];
    tier2 = record { records = []; points = []; index = none };
    is_compacting = false;
  }

  unfoldable pub collection_in : VectorShard → List ℕ → VectorCollection
  unfolding default_collection
  collection_in shard collection = elim (HashMap.lookup collection shard) [
    | none ↦ default_collection
    | some col ↦ col
  ]

  unfoldable pub put_collection : List ℕ → VectorCollection → List VectorShard → List VectorShard
  put_collection collection col shards = elim (get_elem? shards (hash collection % num_shards)) [
    | none ↦ shards
    | some shard ↦ set shards (hash collection % num_shards) (HashMap.insert collection col shard)
  ]

  abbrev pub map_shards :
      (List VectorShard → List VectorShard) → Option (List VectorShard) → Option (List VectorShard)
  map_shards f none = none
  map_shards f (some shards) = some (f shards)

  -- The layer with this collection in place of the one of that name.
  unfoldable pub store_collection : VfsLayer → List ℕ → VectorCollection → VfsLayer
  unfolding put_collection
  store_collection layer collection col = record layer {
    memory_shards = map_shards (put_collection collection col) layer.memory_shards;
  }

  abbrev pub tier2_of : VectorCollection → List VectorRecord → Tier2Data
  tier2_of col new_records =
      let records = col.tier2.records ++ new_records in
      let points = col.tier2.points ++ map (λ r. r.vector) new_records in
      record {
        records = records;
        points = points;
        index = some (build points (map (λ r. r.id) records));
      }

  -- The first tier goes over into the second.
  unfoldable pub do_compaction : VectorCollection → VectorCollection
  do_compaction col = elim col.tier1 [
    | [] ↦ record col { is_compacting = false }
    | entry ∷ entries ↦ record {
      tier1 = [];
      tier2 = tier2_of col (map (λ e. e.1) (entry ∷ entries));
      is_compacting = false;
    }
  ]

  abbrev pub with_active : VectorVfs → VfsLayer → VectorVfs
  with_active vfs layer = record vfs { active_layer = layer }

  -- With a worker, a request to it, unless one is under way; without one, the compaction.
  unfoldable pub request_compaction :
      Option ℕ → Bool → VectorVfs → List ℕ → VectorCollection → VectorVfs
  unfolding store_collection do_compaction
  request_compaction none busy vfs collection col =
      with_active vfs (store_collection vfs.active_layer collection (do_compaction col))
  request_compaction (some worker) true vfs collection col =
      with_active vfs (store_collection vfs.active_layer collection col)
  request_compaction (some worker) false vfs collection col = record vfs {
    active_layer =
        store_collection vfs.active_layer collection (record col { is_compacting = true });
    compaction_queue = vfs.compaction_queue ++ collection ∷ [];
  }

  unfoldable pub compact_collection : VectorVfs → List ℕ → Option VectorVfs
  unfolding shard_of collection_in request_compaction
  compact_collection vfs collection = elim (shard_of vfs.active_layer collection) [
    | none ↦ none
    | some shard ↦
        let col = collection_in shard collection in
        some (request_compaction vfs.worker col.is_compacting vfs collection col)
  ]

  -- The records of the first tier, once the cap of 2048 has asked for a compaction.
  unfoldable pub buffer_record : VfsLayer → VectorShard → List ℕ → VectorRecord → VfsLayer
  unfolding collection_in store_collection discard
  buffer_record layer shard collection r =
      let col = collection_in shard collection in
      let after =
        store_collection layer collection
          (record col { tier1 = HashMap.insert r.id r col.tier1 }) in
      record after { tombstones = discard r.id layer.tombstones }

  unfoldable pub cap_collection : VectorVfs → VectorShard → List ℕ → Option VectorVfs
  unfolding collection_in compact_collection
  cap_collection vfs shard collection =
      if leb 2048 (length (collection_in shard collection).tier1)
      then compact_collection vfs collection
      else some vfs

  unfoldable pub remember : VectorVfs → List ℕ → VectorRecord → Option VectorVfs
  unfolding shard_of cap_collection buffer_record
  remember vfs collection r = elim (shard_of vfs.active_layer collection) [
    | none ↦ none
    | some shard ↦ elim (cap_collection vfs shard collection) [
      | none ↦ none
      | some capped ↦ elim (shard_of capped.active_layer collection) [
        | none ↦ none
        | some shard ↦
            some (with_active capped (buffer_record capped.active_layer shard collection r))
      ]
    ]
  ]

  -- The worker takes a request: the shards are those of the layer that it was started with.
  unfoldable pub compact_in : VfsLayer → List ℕ → VfsLayer
  unfolding shard_of store_collection do_compaction
  compact_in layer collection = elim (shard_of layer collection) [
    | none ↦ layer
    | some shard ↦ elim (HashMap.lookup collection shard) [
      | none ↦ layer
      | some col ↦ store_collection layer collection (do_compaction col)
    ]
  ]

  unfoldable pub compact_if : ℕ → List ℕ → VfsLayer → VfsLayer
  unfolding compact_in
  compact_if worker collection layer =
      if layer.id == worker then compact_in layer collection else layer

  unfoldable pub worker_step : ℕ → VectorVfs → VectorVfs
  unfolding compact_if
  worker_step worker vfs = elim vfs.compaction_queue [
    | [] ↦ vfs
    | collection ∷ rest ↦ record vfs {
      active_layer = compact_if worker collection vfs.active_layer;
      base_layers = map (compact_if worker collection) vfs.base_layers;
      compaction_queue = rest;
    }
  ]

  unfoldable pub compact_all : VectorVfs → List (List ℕ) → Option VectorVfs
  unfolding compact_collection
  compact_all vfs [] = some vfs
  compact_all vfs (collection ∷ cols) = elim (compact_collection vfs collection) [
    | none ↦ none
    | some after ↦ compact_all after cols
  ]

  abbrev pub collection_names : List VectorShard → List (List ℕ)
  collection_names [] = []
  collection_names (shard ∷ shards) = HashMap.keys shard ++ collection_names shards

  unfoldable pub rebuild_all_indexes : VectorVfs → Option VectorVfs
  unfolding compact_all
  rebuild_all_indexes vfs = elim vfs.active_layer.memory_shards [
    | none ↦ some vfs
    | some shards ↦ compact_all vfs (collection_names shards)
  ]
