-- ===== src/Hive/Reassembly.antt =====
-- src/hive/connection.rs: what arrives of one migration.
use mathlib.Core.List.{Permᴰ, append-nil, append_assoc}
use trytet.Prelude.{
  ℕ, ◌+◌, ◌^◌, ◌≡◌, ◌≤◌, refl, sym, ap, ◌∙◌, arith, some, List, [], ◌∷◌, ◌++◌, map, length,
  bytes_eq, eq_refl, eq-false_of_ne, ◌≢◌,
}
use trytet.Prelude.HashMap
use trytet.Hive.{
  SnapshotPayload, Bincode, chunks, payload_chunks, sort_chunks, flat, MigrationPacket, handshake,
  payload, commit, Handled, stored, resurrected, imported, push_last, assemble, commit_first,
  handle_migration_packet, receive,
}
use trytet.Hive.Sequencing.{sort_chunks-perm, enumerate_from-Distinct, sort_chunks-enumerate_from}
use trytet.Hive.Chunks.{flat-payload_chunks, length-chunks}

-- The chunks of a snapshot, in whatever order they arrive, sort and join to the snapshot.
flat-sort_chunks :
    (bytes : List ℕ) (arrived : List (ℕ × List ℕ))
    → length bytes ≤ 2 ^ 32
    → Permᴰ (payload_chunks bytes) arrived
    → flat (sort_chunks arrived) ≡ bytes
unfolding payload_chunks
flat-sort_chunks bytes arrived small p =
    let few : 0 + length (chunks bytes) ≤ 2 ^ 32 = omega (arith, length-chunks bytes) in
    ap flat (sym (sort_chunks-perm p (enumerate_from-Distinct 0 (chunks bytes) few)))
    ∙ ap flat (sort_chunks-enumerate_from 0 (chunks bytes) few)
    ∙ flat-payload_chunks bytes

module _ {ℓ} (Manifest : Type ℓ) (bincode : Bincode) where
  abbrev pub packet_of : ℕ × List ℕ → MigrationPacket Manifest
  packet_of (sequence, chunk) = payload chunk sequence

  abbrev pub stored_each : List (ℕ × List ℕ) → List (Handled Manifest) → List (Handled Manifest)
  stored_each [] later = later
  stored_each (x ∷ xs) later = stored ∷ stored_each xs later

  assemble-payload_chunks :
      (manifest : Manifest) (p : SnapshotPayload) (bytes : List ℕ) (arrived : List (ℕ × List ℕ))
      → bincode.serialize p ≡ some bytes
      → length bytes ≤ 2 ^ 32
      → Permᴰ (payload_chunks bytes) arrived
      → assemble Manifest bincode manifest arrived ≡ resurrected manifest p
  unfolding assemble
  assemble-payload_chunks manifest p bytes arrived written small perm =
      let joined = flat-sort_chunks bytes arrived small perm in
      let read = bincode.deserialize-serialize p bytes written in
      ap (λ b. imported Manifest manifest (bincode.deserialize b)) joined
      ∙ ap (imported Manifest manifest) read

  -- The chunks of a single migration, and then its commit.
  receive-chunks :
      (manifest : Manifest) (id signature : List ℕ) (got arrived : List (ℕ × List ℕ))
      → receive Manifest bincode
          ((id, (manifest, got)) ∷ [])
          (map packet_of arrived ++ commit signature ∷ [])
        ≡ (stored_each arrived (assemble Manifest bincode manifest (got ++ arrived) ∷ []), [])
  unfolding receive handle_migration_packet push_last commit_first HashMap.remove
  receive-chunks manifest id signature got [] = rw (eq_refl id, append-nil got) refl
  receive-chunks manifest id signature got ((sequence, chunk) ∷ arrived) =
      let rest = receive-chunks manifest id signature (got ++ (sequence, chunk) ∷ []) arrived in
      let joined = append_assoc got ((sequence, chunk) ∷ []) arrived in
      ap (λ r. (stored ∷ r.0, r.1)) rest
      ∙ ap (λ g. (stored ∷ stored_each arrived (assemble Manifest bincode manifest g ∷ []), []))
          joined

  -- A snapshot of up to 4 GiB that is streamed to a node with no other migration pending is given to
  -- the sandbox exactly as it was, once and with its manifest, in whatever order its chunks arrive
  -- between the handshake and the commit; and nothing stays pending.
  pub receive-payload_chunks :
      (manifest : Manifest) (id signature : List ℕ) (p : SnapshotPayload) (bytes : List ℕ)
      → (arrived : List (ℕ × List ℕ)) → bincode.serialize p ≡ some bytes
      → length bytes ≤ 2 ^ 32
      → Permᴰ (payload_chunks bytes) arrived
      → receive Manifest bincode []
          (handshake manifest id ∷ (map packet_of arrived ++ commit signature ∷ []))
        ≡ (stored ∷ stored_each arrived (resurrected manifest p ∷ []), [])
  unfolding receive handle_migration_packet HashMap.insert
  receive-payload_chunks manifest id signature p bytes arrived written small perm =
      let rest = receive-chunks manifest id signature [] arrived in
      let done = assemble-payload_chunks manifest p bytes arrived written small perm in
      rw (rest, done) refl

  -- With two migrations pending, one node mixes them: all chunks that arrive go to the last entry,
  -- and the commit is of the first, with only the chunks that this had before.
  pub receive-mixed :
      (m n : Manifest) (id other signature : List ℕ) (got held arrived : List (ℕ × List ℕ))
      → id ≢ other
      → receive Manifest bincode
          ((id, (m, got)) ∷ (other, (n, held)) ∷ [])
          (map packet_of arrived ++ commit signature ∷ [])
        ≡ (
          stored_each arrived (assemble Manifest bincode m got ∷ []),
          (other, (n, held ++ arrived)) ∷ [],
        )
  unfolding receive handle_migration_packet push_last commit_first HashMap.remove
  receive-mixed m n id other signature got held [] different =
      let apart = eq-false_of_ne other id (λ same. different (sym same)) in
      rw (eq_refl id, apart, append-nil held) refl
  receive-mixed m n id other signature got held ((sequence, chunk) ∷ arrived) different =
      let rest =
        receive-mixed m n id other signature got (held ++ (sequence, chunk) ∷ []) arrived
          different in
      let joined = append_assoc held ((sequence, chunk) ∷ []) arrived in
      ap (λ r. (stored ∷ r.0, r.1)) rest
      ∙ ap
          (λ g. (
            stored ∷ stored_each arrived (assemble Manifest bincode m got ∷ []),
            (other, (n, g)) ∷ [],
          ))
          joined
