-- ===== src/Hive/Arrival.antt =====
-- src/teleport.rs with src/hive/connection.rs: what comes through of a tet that is sent away.
use mathlib.Core.List.Permᴰ
use trytet.Prelude.{
  ℕ, ◌+◌, ◌^◌, ◌≤◌, ◌≡◌, refl, sym, ap, ◌∙◌, arith, Bool, true, false, Option, none, some, List, [],
  ◌∷◌, ◌++◌, map, bytes_eq, length, length-append, Bool-cases, Option-cases, inl, inr,
}
use trytet.Engine.{AgentManifest}
use trytet.Hive.{
  SnapshotPayload, Bincode, payload_chunks, flat, MigrationPacket, handshake, commit, stored,
  resurrected, receive,
}
use trytet.Hive.Chunks.{flat-payload_chunks}
use trytet.Hive.Reassembly.{stored_each, receive-payload_chunks}
use trytet.Hive.Teleport.{
  TeleportRequest, TeleportReceipt, Command, migration_packet, migration_notice, done, Surroundings,
  send_all, packet_of, total_length, Sending, sent, stopped, outcome, send_payload, stream_directly,
  Exported, exported, not_exported, export_agent, conclude, send_agent, execute,
}
use trytet.Mesh.{resolve_local}
use trytet.Sandbox.{WasmtimeSandbox}

-- The packets among the commands, as they come to the other node.
abbrev pub packets : List Command → List (MigrationPacket AgentManifest)
packets [] = []
packets (migration_packet p ∷ commands) = p ∷ packets commands
packets (migration_notice reference manifest id ∷ commands) = packets commands

packets-append :
    (xs : List (ℕ × List ℕ)) (ys : List Command)
    → packets (map (λ c. migration_packet (packet_of c)) xs ++ ys) ≡ map packet_of xs ++ packets ys
packets-append [] ys = refl
packets-append (x ∷ xs) ys = ap (λ ps. packet_of x ∷ ps) (packets-append xs ys)

total_length-flat : (xs : List (ℕ × List ℕ)) → total_length xs ≡ length (flat xs)
unfolding total_length flat
total_length-flat [] = refl
total_length-flat ((i, chunk) ∷ xs) =
    omega (arith, total_length-flat xs, length-append chunk (flat xs))

send_all-all :
    (delivers : ℕ → Bool) (i : ℕ) (commands : List Command)
    → (send_all delivers i commands).1 ≡ true
    → (send_all delivers i commands).0 ≡ commands
unfolding send_all
send_all-all delivers i [] h = refl
send_all-all delivers i (c ∷ commands) h = ground (arith, h, send_all-all delivers (i + 1) commands)

outcome-sent :
    (n bytes : ℕ) (r : List Command × Bool)
    → (outcome n r).1 ≡ sent bytes
    → (r.1 ≡ true) × (n ≡ bytes) × ((outcome n r).0 ≡ r.0)
unfolding outcome
outcome-sent n bytes (commands, true) h = (refl, cc (h), refl)
outcome-sent n bytes (commands, false) h = cc

-- The commands of a whole stream after the handshake.
abbrev pub rest_of : List ℕ → List Command
rest_of bytes =
    map (λ c. migration_packet (packet_of c)) (payload_chunks bytes)
    ++ migration_packet (commit []) ∷ []

send_payload-sent :
    (delivers : ℕ → Bool) (o : Option (List ℕ)) (n : ℕ)
    → (send_payload delivers o).1 ≡ sent n
    → (bytes : List ℕ) × (o ≡ some bytes)
      × (n ≡ length bytes)
      × ((send_payload delivers o).0 ≡ rest_of bytes)
unfolding send_payload
send_payload-sent delivers none n h = cc
send_payload-sent delivers (some bytes) n h =
    let (all, size, same) =
      outcome-sent (total_length (payload_chunks bytes)) n (send_all delivers 1 (rest_of bytes))
        h in
    (
      bytes,
      refl,
      sym size ∙ total_length-flat (payload_chunks bytes) ∙ ap length (flat-payload_chunks bytes),
      same ∙ send_all-all delivers 1 (rest_of bytes) all,
    )

stream_directly-sent :
    (bincode : Bincode) (delivers : ℕ → Bool) (manifest : AgentManifest) (id : List ℕ)
    (p : SnapshotPayload) (n : ℕ)
    → (stream_directly bincode delivers manifest id p).1 ≡ sent n
    → (bytes : List ℕ) × (bincode.serialize p ≡ some bytes)
      × (n ≡ length bytes)
      × ((stream_directly bincode delivers manifest id p).0
          ≡ migration_packet (handshake manifest id) ∷ rest_of bytes)
unfolding stream_directly
stream_directly-sent bincode delivers manifest id p n h = elim (Bool-cases (delivers 0)) [
  | inl through ↦
      let (bytes, o, size, same) =
        send_payload-sent delivers (bincode.serialize p) n (rw through at h) in
      (bytes, o, size, rw through (ap (λ cs. migration_packet (handshake manifest id) ∷ cs) same))
  | inr lost ↦ cc (rw lost at h)
]

conclude-done :
    (a : Surroundings) (req : TeleportRequest) (s : WasmtimeSandbox) (sending : Sending)
    (receipt : TeleportReceipt)
    → (conclude a req s sending).0 ≡ done receipt
    → sending ≡ sent receipt.bytes_transferred
unfolding conclude
conclude-done a req s (stopped e) receipt h = cc
conclude-done a req s (sent bytes) receipt h = ground (arith, h)

-- What comes of the packets of a whole stream, at a node with no other migration pending.
receive-rest_of :
    (bincode : Bincode) (manifest : AgentManifest) (id : List ℕ) (p : SnapshotPayload)
    (bytes : List ℕ)
    → bincode.serialize p ≡ some bytes
    → length bytes ≤ 2 ^ 32
    → receive AgentManifest bincode []
        (packets (migration_packet (handshake manifest id) ∷ rest_of bytes))
      ≡ (
        stored
            ∷ stored_each AgentManifest bincode
                (payload_chunks bytes)
                (resurrected manifest p ∷ []),
        [],
      )
receive-rest_of bincode manifest id p bytes written small =
    ap (λ ps. receive AgentManifest bincode [] (handshake manifest id ∷ ps))
      (packets-append (payload_chunks bytes) (migration_packet (commit []) ∷ []))
    ∙ receive-payload_chunks AgentManifest bincode manifest id [] p bytes (payload_chunks bytes)
        written small (Permᴰ.refl _)

-- The agent that was exported may teleport, and its snapshot is what the packets make.
abbrev pub Arrives : Bincode → AgentManifest → SnapshotPayload → List Command → Type 0
Arrives bincode manifest p commands =
    (manifest.permissions.can_teleport ≡ true)
    × ((bytes : List ℕ) × (receive AgentManifest bincode [] (packets commands) ≡ (
      stored
          ∷ stored_each AgentManifest bincode (payload_chunks bytes) (resurrected manifest p ∷ []),
      [],
    )))

send_agent-Arrives :
    (bincode : Bincode) (a : Surroundings) (req : TeleportRequest) (s : WasmtimeSandbox)
    (agent : Exported) (receipt : TeleportReceipt)
    → req.use_registry ≡ false
    → (send_agent bincode a req s agent).0 ≡ done receipt
    → receipt.bytes_transferred ≤ 2 ^ 32
    → (p : SnapshotPayload) × (manifest : AgentManifest) × (agent ≡ exported p manifest)
      × Arrives bincode manifest p (send_agent bincode a req s agent).2
unfolding send_agent
send_agent-Arrives bincode a req s not_exported receipt direct h small = cc
send_agent-Arrives bincode a req s (exported p manifest) receipt direct h small =
    elim (Bool-cases manifest.permissions.can_teleport) [
      | inr forbidden ↦ cc (rw forbidden at h)
      | inl allowed ↦
          let st = stream_directly bincode a.delivers manifest a.snapshot_id p in
          let h' : (conclude a req s st.1).0 ≡ done receipt = ground (arith, h, allowed, direct) in
          let (bytes, written, size, same) =
            stream_directly-sent bincode a.delivers manifest a.snapshot_id p
              receipt.bytes_transferred (conclude-done a req s st.1 receipt h') in
          let went : (send_agent bincode a req s (exported p manifest)).2
              ≡ migration_packet (handshake manifest a.snapshot_id) ∷ rest_of bytes =
            ground (arith, allowed, direct, same) in
          (
            p,
            manifest,
            refl,
            (
              allowed,
              (
                bytes,
                ap (λ cs. receive AgentManifest bincode [] (packets cs)) went
                    ∙ receive-rest_of bincode manifest a.snapshot_id p bytes written
                        (omega (arith, size, small)),
              ),
            ),
          )
    ]

-- A direct teleportation that gives its receipt was allowed by the manifest, and the packets that
-- came through make the other node, with no other migration pending, resume exactly the snapshot and
-- the manifest that were exported, once; for up to 4 GiB.
pub execute-Arrives :
    (bincode : Bincode) (a : Surroundings) (req : TeleportRequest) (s : WasmtimeSandbox)
    (receipt : TeleportReceipt)
    → req.use_registry ≡ false
    → (execute bincode a req s).0 ≡ done receipt
    → receipt.bytes_transferred ≤ 2 ^ 32
    → (p : SnapshotPayload) × (manifest : AgentManifest) × ((export_agent a s req.agent_id).0
        ≡ exported p manifest)
      × Arrives bincode manifest p (execute bincode a req s).2
unfolding execute
execute-Arrives bincode a req s receipt direct h small =
    elim (Option-cases (resolve_local s.mesh req.agent_id a.now)) [
      | inl e ↦ cc (rw (e, execute) at h)
      | inr (metadata, e) ↦
          let (agent, s') = export_agent a s req.agent_id in
          rw (e, execute)
            (send_agent-Arrives bincode a req s' agent receipt direct (rw (e, execute) at h) small)
    ]
