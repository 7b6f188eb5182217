-- ===== src/Hive.antt =====
-- The teleportation of a tet between two nodes: src/teleport.rs streams a snapshot in chunks, and
-- `handle_migration_packet` of src/hive/connection.rs puts them together. The receiver holds the
-- lock on the pending migrations throughout a packet, and so a packet is one step. Each packet has
-- a connection of its own, so packets may arrive in any order. The manifest is passed through
-- unread, and so its type is a parameter; bincode is a library.
pub mod Sequencing
pub mod Chunks
pub mod Reassembly
pub mod Teleport
pub mod Arrival
pub mod Departure
pub mod Commands
pub mod Resumption
pub mod Examples
pub mod Tests
use trytet.Prelude.{
  ℕ, zero, suc, ◌+◌, ◌%◌, ◌^◌, ◌≡◌, Option, none, some, List, [], ◌∷◌, ◌++◌, map, leb, ◌==◌,
  bytes_eq, if◌then◌else◌, length, take, drop,
}
use trytet.Prelude.HashMap
use trytet.Prelude.HashMap.{HashMap}

-- src/sandbox.rs
pub record SnapshotPayload : Type 0 where
  pub memory_bytes : List ℕ
  pub wasm_bytes : List ℕ
  pub fs_tarball : List ℕ
  pub vector_idx : List ℕ
  pub inference_state : List ℕ

-- `serialize` fails or gives bytes that `deserialize` reads back.
pub record Bincode : Type 0 where
  pub serialize : SnapshotPayload → Option (List ℕ)
  pub deserialize : List ℕ → Option SnapshotPayload
  pub deserialize-serialize :
      (p : SnapshotPayload) (bytes : List ℕ) → serialize p ≡ some bytes → deserialize bytes ≡ some p

unfoldable pub chunk_size : ℕ
chunk_size = 65536

-- `chunks(chunk_size)`, on fuel; no more chunks are cut than there are bytes.
unfoldable pub chunks_on : ℕ → ℕ → List ℕ → List (List ℕ)
chunks_on size zero bytes = []
chunks_on size (suc fuel) [] = []
chunks_on size (suc fuel) (b ∷ bytes) =
    take size (b ∷ bytes) ∷ chunks_on size fuel (drop size (b ∷ bytes))

unfoldable pub chunks : List ℕ → List (List ℕ)
unfolding chunk_size chunks_on
chunks bytes = chunks_on chunk_size (length bytes) bytes

-- `enumerate()`, with the index as a `u32`.
unfoldable pub enumerate_from : ℕ → List (List ℕ) → List (ℕ × List ℕ)
enumerate_from i [] = []
enumerate_from i (chunk ∷ rest) = (i % 2 ^ 32, chunk) ∷ enumerate_from (i + 1) rest

-- The sequence numbers and chunks that `execute` sends, in order.
unfoldable pub payload_chunks : List ℕ → List (ℕ × List ℕ)
unfolding chunks enumerate_from
payload_chunks total_payload = enumerate_from 0 (chunks total_payload)

-- `sort_by_key` on the sequence number, which is stable.
unfoldable pub insert_chunk : ℕ × List ℕ → List (ℕ × List ℕ) → List (ℕ × List ℕ)
insert_chunk x [] = x ∷ []
insert_chunk x (y ∷ ys) = if leb x.0 y.0 then x ∷ y ∷ ys else y ∷ insert_chunk x ys

unfoldable pub sort_chunks : List (ℕ × List ℕ) → List (ℕ × List ℕ)
unfolding insert_chunk
sort_chunks [] = []
sort_chunks (x ∷ xs) = insert_chunk x (sort_chunks xs)

-- `flat_map(|(_, b)| b)`
unfoldable pub flat : List (ℕ × List ℕ) → List ℕ
flat [] = []
flat ((sequence, chunk) ∷ rest) = chunk ++ flat rest

module _ {ℓ} (Manifest : Type ℓ) where
  pub data MigrationPacket : Type ℓ where
    handshake : Manifest → List ℕ → MigrationPacket
    payload : List ℕ → ℕ → MigrationPacket
    commit : List ℕ → MigrationPacket

  -- `PendingMigrationChunks`
  abbrev pub Pending : Type ℓ
  Pending = HashMap (List ℕ) (Manifest × List (ℕ × List ℕ))

  -- What a packet leads to: nothing, a snapshot that is handed to the sandbox to be imported and
  -- run, or an error.
  pub data Handled : Type ℓ where
    stored : Handled
    resurrected : Manifest → SnapshotPayload → Handled
    failed : Handled

  -- `values_mut().last()` and the push.
  unfoldable pub push_last : List ℕ → ℕ → Pending → Pending
  push_last chunk sequence [] = []
  push_last chunk sequence ((id, (manifest, got)) ∷ []) =
      (id, (manifest, got ++ (sequence, chunk) ∷ [])) ∷ []
  push_last chunk sequence (entry ∷ (next ∷ rest)) = entry ∷ push_last chunk sequence (next ∷ rest)

  abbrev pub imported : Manifest → Option SnapshotPayload → Handled
  imported manifest none = failed
  imported manifest (some p) = resurrected manifest p

  unfoldable pub assemble : Bincode → Manifest → List (ℕ × List ℕ) → Handled
  unfolding sort_chunks flat
  assemble bincode manifest got = imported manifest (bincode.deserialize (flat (sort_chunks got)))

  -- `keys().next()`, the removal of that migration, and its reassembly.
  unfoldable pub commit_first : Bincode → Pending → Handled × Pending
  unfolding assemble
  commit_first bincode [] = (stored, [])
  commit_first bincode ((id, (manifest, got)) ∷ rest) =
      (assemble bincode manifest got, HashMap.remove id ((id, (manifest, got)) ∷ rest))

  unfoldable pub handle_migration_packet : Bincode → Pending → MigrationPacket → Handled × Pending
  unfolding push_last commit_first
  handle_migration_packet bincode pending (handshake manifest snapshot_id) =
      (stored, HashMap.insert snapshot_id (manifest, []) pending)
  handle_migration_packet bincode pending (payload chunk sequence) =
      (stored, push_last chunk sequence pending)
  handle_migration_packet bincode pending (commit signature) = commit_first bincode pending

  -- Packets in the order of their arrival.
  unfoldable pub receive : Bincode → Pending → List MigrationPacket → List Handled × Pending
  unfolding handle_migration_packet
  receive bincode pending [] = ([], pending)
  receive bincode pending (packet ∷ packets) =
      let (handled, pending') = handle_migration_packet bincode pending packet in
      let (later, last) = receive bincode pending' packets in (handled ∷ later, last)
