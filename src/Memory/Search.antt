-- ===== src/Memory/Search.antt =====
-- src/memory.rs: the search of a vector memory, layer by layer; and `query_memory` of the sandbox
-- (sandbox/sandbox_wasmtime.rs) on the memory of a snapshot. Each layer with shards has all 32.
use mathlib.Core.List.{reverse}
use trytet.Prelude.{
  ℕ, ◌*◌, ◌%◌, ◌^◌, Option, none, some, List, [], ◌∷◌, ◌++◌, map, ◌==◌, contains, bytes_eq,
  if◌then◌else◌, take,
}
use trytet.Prelude.HashMap
use trytet.Memory.{
  Vectors, VectorRecord, SearchQuery, SearchResult, Tier2Data, VectorCollection, VfsLayer,
  VectorVfs, distance, shard_of, rebuild_all_indexes,
}

module _ (vectors : Vectors) where
  open vectors use {F32, one, sub, ge, lt, search}

  -- What is found so far, with the identifiers that no deeper layer may give.
  pub record Found : Type 0 where
    pub out : List (F32 × VectorRecord vectors)
    pub seen : List (List ℕ)

  unfoldable pub see : SearchQuery vectors → F32 → VectorRecord vectors → Found → Found
  see query score r found =
      if ge score query.min_score
      then record { out = found.out ++ (score, r) ∷ []; seen = r.id ∷ found.seen }
      else found

  unfoldable pub scan_record : SearchQuery vectors → VectorRecord vectors → Found → Found
  unfolding see distance contains
  scan_record query r found =
      if contains r.id found.seen
      then found
      else see query (sub one (distance vectors query.query_vector r.vector)) r found

  unfoldable pub scan : SearchQuery vectors → List (VectorRecord vectors) → Found → Found
  unfolding scan_record
  scan query [] found = found
  scan query (r ∷ rs) found = scan query rs (scan_record query r found)

  unfoldable pub find_record : List ℕ → List (VectorRecord vectors) → Option (VectorRecord vectors)
  find_record id [] = none
  find_record id (r ∷ rs) = let rest = find_record id rs in if r.id == id then some r else rest

  unfoldable pub scan_hit :
      SearchQuery vectors → List (VectorRecord vectors) → F32 × List ℕ → Found → Found
  unfolding see find_record contains
  scan_hit query records (far, value) found =
      if contains value found.seen then found else elim (find_record value records) [
        | none ↦ found
        | some r ↦ see query (sub one far) r found
      ]

  unfoldable pub scan_hits :
      SearchQuery vectors → List (VectorRecord vectors) → List (F32 × List ℕ) → Found → Found
  unfolding scan_hit
  scan_hits query records [] found = found
  scan_hits query records (hit ∷ hits) found =
      scan_hits query records hits (scan_hit query records hit found)

  unfoldable pub scan_tier2 : SearchQuery vectors → Tier2Data vectors → Found → Found
  unfolding scan scan_hits
  scan_tier2 query t2 found = elim t2.index [
    | none ↦ scan query t2.records found
    | some idx ↦
        scan_hits query t2.records (take (query.limit * 5 % 2 ^ 32) (search idx query.query_vector))
          found
  ]

  -- A layer whose shards are not in memory is passed over.
  unfoldable pub collection_of : VfsLayer vectors → List ℕ → Option (VectorCollection vectors)
  unfolding shard_of
  collection_of layer collection = elim (shard_of vectors layer collection) [
    | none ↦ none
    | some shard ↦ HashMap.lookup collection shard
  ]

  unfoldable pub scan_layer : SearchQuery vectors → VfsLayer vectors → Found → Found
  unfolding collection_of scan scan_tier2
  scan_layer query layer found =
      let hidden = record found { seen = layer.tombstones ++ found.seen } in
      elim (collection_of layer query.collection) [
        | none ↦ hidden
        | some col ↦ scan_tier2 query col.tier2 (scan query (map (λ e. e.1) col.tier1) hidden)
      ]

  unfoldable pub scan_layers : SearchQuery vectors → List (VfsLayer vectors) → Found → Found
  unfolding scan_layer
  scan_layers query [] found = found
  scan_layers query (layer ∷ layers) found = scan_layers query layers (scan_layer query layer found)

  -- Stable, the highest score first.
  unfoldable pub insert_scored :
      F32 × VectorRecord vectors
      → List (F32 × VectorRecord vectors)
      → List (F32 × VectorRecord vectors)
  insert_scored x [] = x ∷ []
  insert_scored x (y ∷ ys) = if lt x.0 y.0 then y ∷ insert_scored x ys else x ∷ y ∷ ys

  unfoldable pub sort_scored : List (F32 × VectorRecord vectors) → List (F32 × VectorRecord vectors)
  unfolding insert_scored
  sort_scored [] = []
  sort_scored (x ∷ xs) = insert_scored x (sort_scored xs)

  abbrev pub search_result : F32 × VectorRecord vectors → SearchResult vectors
  search_result (score, r) = record { id = r.id; score = score; metadata = r.metadata }

  -- All that matches, from the active layer down.
  unfoldable pub matches :
      VectorVfs vectors → SearchQuery vectors → List (F32 × VectorRecord vectors)
  unfolding scan_layers
  matches vfs query =
      let nothing : Found = record { out = []; seen = [] } in
      let found = scan_layers query (vfs.active_layer ∷ reverse vfs.base_layers) nothing in
      found.out

  unfoldable pub recall : VectorVfs vectors → SearchQuery vectors → List (SearchResult vectors)
  unfolding matches sort_scored
  recall vfs query = map search_result (take query.limit (sort_scored (matches vfs query)))

  -- Serialisation leaves out the shards and the worker of a memory.
  abbrev pub without_shards : VfsLayer vectors → VfsLayer vectors
  without_shards layer = record layer { memory_shards = none }

  unfoldable pub restored : VectorVfs vectors → VectorVfs vectors
  restored vfs = record {
    base_layers = map without_shards vfs.base_layers;
    active_layer = without_shards vfs.active_layer;
    worker = none;
    compaction_queue = [];
  }

  -- `query_memory` of the sandbox, on the memory of a snapshot.
  unfoldable pub query_memory :
      VectorVfs vectors → SearchQuery vectors → Option (List (SearchResult vectors))
  unfolding restored rebuild_all_indexes recall
  query_memory stored query = elim (rebuild_all_indexes vectors (restored stored)) [
    | none ↦ none
    | some vfs ↦ some (recall vfs query)
  ]
