-- ===== src/Memory/Layers.antt =====
-- src/memory.rs and src/shards.rs: what a memory keeps of what it is given.
use trytet.Prelude.{
  ℕ, ◌%◌, ◌≡◌, refl, arith, Bool, true, false, Option, none, some, List, [], ◌∷◌, contains, discard,
  bytes_eq, set, get_elem?, get_elem?-set, get_elem?-lt, length-set, length, ◌∙◌, Bool-cases, leb,
  inl, inr, ap,
}
use trytet.Prelude.HashMap
use trytet.Prelude.HashMap.{lookup-insert_self}
use trytet.Memory.{
  Vectors, VectorRecord, VectorCollection, VectorShard, VfsLayer, VectorVfs, num_shards, shard_of,
  collection_in, do_compaction, with_active, request_compaction, put_collection, map_shards,
  store_collection, cap_collection, compact_collection, buffer_record, remember,
}
use trytet.Memory.Search.{collection_of}

module _ (vectors : Vectors) where
  open vectors use {hash}

  -- A layer with all its shards in memory.
  abbrev pub Live : VfsLayer vectors → Type 0
  Live layer =
      (shards : List (VectorShard vectors)) × (layer.memory_shards ≡ some shards)
      × (length shards ≡ num_shards)

  has_shard :
      (name : List ℕ) (shards : List (VectorShard vectors))
      → length shards ≡ num_shards
      → (shard : VectorShard vectors) × (get_elem? shards (hash name % 32) ≡ some shard)
  has_shard name shards l = get_elem?-lt shards (hash name % 32) (omega (arith, l))

  shard_of-Live :
      (layer : VfsLayer vectors) (name : List ℕ)
      → Live layer
      → (shard : VectorShard vectors) × (shard_of vectors layer name ≡ some shard)
  unfolding shard_of
  shard_of-Live layer name (shards, e, l) =
      let (shard, h) = has_shard name shards l in (shard, rw e h)

  put_collection-set :
      (name : List ℕ) (col : VectorCollection vectors) (shards : List (VectorShard vectors))
      (shard : VectorShard vectors)
      → get_elem? shards (hash name % 32) ≡ some shard
      → put_collection vectors name col shards
        ≡ set shards (hash name % 32) (HashMap.insert name col shard)
  unfolding put_collection
  put_collection-set name col shards shard h = rw (h, put_collection) refl

  length-put_collection :
      (name : List ℕ) (col : VectorCollection vectors) (shards : List (VectorShard vectors))
      → length shards ≡ num_shards
      → length (put_collection vectors name col shards) ≡ num_shards
  length-put_collection name col shards l =
      let (shard, h) = has_shard name shards l in
      rw (put_collection-set name col shards shard h)
        (length-set shards (hash name % 32) (HashMap.insert name col shard) ∙ l)

  store_collection-Live :
      (layer : VfsLayer vectors) (name : List ℕ) (col : VectorCollection vectors)
      → Live layer
      → Live (store_collection vectors layer name col)
  unfolding store_collection
  store_collection-Live layer name col (shards, e, l) = (
    put_collection vectors name col shards,
    ap (map_shards vectors (put_collection vectors name col)) e,
    length-put_collection name col shards l,
  )

  collection_of-store_collection :
      (layer : VfsLayer vectors) (name : List ℕ) (col : VectorCollection vectors)
      → Live layer
      → collection_of vectors (store_collection vectors layer name col) name ≡ some col
  unfolding collection_of shard_of store_collection
  collection_of-store_collection layer name col (shards, e, l) =
      let (shard, h) = has_shard name shards l in
      rw e (
        rw (put_collection-set name col shards shard h) (
          rw
            (
              get_elem?-set shards (hash name % 32) shard (HashMap.insert name col shard) h,
              collection_of,
              shard_of,
            )
            (lookup-insert_self name col shard)))

  request_compaction-Live :
      (worker : Option ℕ) (busy : Bool) (vfs : VectorVfs vectors) (name : List ℕ)
      (col : VectorCollection vectors)
      → Live vfs.active_layer
      → Live (request_compaction vectors worker busy vfs name col).active_layer
  unfolding request_compaction
  request_compaction-Live none busy vfs name col live =
      store_collection-Live vfs.active_layer name (do_compaction vectors col) live
  request_compaction-Live (some w) true vfs name col live =
      store_collection-Live vfs.active_layer name col live
  request_compaction-Live (some w) false vfs name col live =
      store_collection-Live vfs.active_layer name (record col { is_compacting = true }) live

  compact_collection-Live :
      (vfs : VectorVfs vectors) (name : List ℕ)
      → Live vfs.active_layer
      → (after : VectorVfs vectors) × (compact_collection vectors vfs name ≡ some after)
        × Live after.active_layer
  unfolding compact_collection
  compact_collection-Live vfs name live =
      let (shard, h) = shard_of-Live vfs.active_layer name live in
      let col = collection_in vectors shard name in
      (
        request_compaction vectors vfs.worker col.is_compacting vfs name col,
        rw (h, compact_collection) refl,
        request_compaction-Live vfs.worker col.is_compacting vfs name col live,
      )

  cap_collection-Live :
      (vfs : VectorVfs vectors) (shard : VectorShard vectors) (name : List ℕ)
      → Live vfs.active_layer
      → (after : VectorVfs vectors) × (cap_collection vectors vfs shard name ≡ some after)
        × Live after.active_layer
  unfolding cap_collection
  cap_collection-Live vfs shard name live =
      elim (Bool-cases (leb 2048 (length (collection_in vectors shard name).tier1))) [
        | inl full ↦ rw full (compact_collection-Live vfs name live)
        | inr fits ↦ rw fits (vfs, refl, live)
      ]

  -- The record stands in the first tier of its collection, and is not forgotten.
  abbrev pub Keeps : VfsLayer vectors → List ℕ → VectorRecord vectors → Type 0
  Keeps layer name r =
      (col : VectorCollection vectors) × (collection_of vectors layer name ≡ some col)
      × (HashMap.lookup r.id col.tier1 ≡ some r)
      × (contains r.id layer.tombstones ≡ false)

  contains-discard : (id : List ℕ) (ids : List (List ℕ)) → contains id (discard id ids) ≡ false
  unfolding contains discard
  contains-discard id [] = refl
  contains-discard id (x ∷ ids) = ground (arith, contains-discard id ids)

  buffer_record-Keeps :
      (layer : VfsLayer vectors) (shard : VectorShard vectors) (name : List ℕ)
      (r : VectorRecord vectors)
      → Live layer
      → Keeps (buffer_record vectors layer shard name r) name r
        × Live (buffer_record vectors layer shard name r)
  unfolding buffer_record collection_of
  buffer_record-Keeps layer shard name r live =
      let col = collection_in vectors shard name in
      let after = record col { tier1 = HashMap.insert r.id r col.tier1 } in
      (
        (
          after,
          collection_of-store_collection layer name after live,
          lookup-insert_self r.id r col.tier1,
          contains-discard r.id layer.tombstones,
        ),
        store_collection-Live layer name after live,
      )

  -- While the active layer has all its shards in memory, `remember` does not fail, whether the
  -- collection is full or not: the layer has its shards afterwards, the record stands in its
  -- collection, and it is not among the forgotten.
  pub remember-Keeps :
      (vfs : VectorVfs vectors) (name : List ℕ) (r : VectorRecord vectors)
      → Live vfs.active_layer
      → (after : VectorVfs vectors) × (remember vectors vfs name r ≡ some after)
        × Keeps after.active_layer name r
        × Live after.active_layer
  unfolding remember
  remember-Keeps vfs name r live =
      let (shard, h) = shard_of-Live vfs.active_layer name live in
      let (capped, c, l) = cap_collection-Live vfs shard name live in
      let (shard', h') = shard_of-Live capped.active_layer name l in
      let (kept, alive) = buffer_record-Keeps capped.active_layer shard' name r l in
      (
        with_active vectors capped (buffer_record vectors capped.active_layer shard' name r),
        rw (h, c, h', remember) refl,
        kept,
        alive,
      )
