-- ===== src/Hive/Teleport.antt =====
-- src/teleport.rs: `TeleportRequest::execute`, which sends a tet to another node and forgets it here.
-- The network and the client of a registry are parameters: whether a sent command comes through, by
-- its number, and whether a push does. The answers of the mesh and the wallet's file enter as
-- arguments. The sum of the chunks' lengths is that of one vector and so does not wrap; the route
-- that is published to the swarm is not modelled.
use trytet.Prelude.{
  ℕ, ◌+◌, Bool, true, false, not, Option, none, some, List, [], ◌∷◌, ◌++◌, map, codes, length,
  if◌then◌else◌,
}
use trytet.Engine.{AgentManifest}
use trytet.Hive.{
  SnapshotPayload, Bincode, MigrationPacket, handshake, payload, commit, payload_chunks,
}
use trytet.Mesh.{TetMetadata, deregister, resolve_local}
use trytet.Sandbox
use trytet.Sandbox.{WasmtimeSandbox, Stored}

pub record TeleportRequest : Type 0 where
  pub agent_id : List ℕ
  pub target_address : List ℕ
  pub use_registry : Bool

pub record TeleportReceipt : Type 0 where
  pub agent_id : List ℕ
  pub target_address : List ℕ
  pub bytes_transferred : ℕ

pub data TeleportError : Type 0 where
  permission_denied target_error network : TeleportError

-- `HiveMigrationCommand`, as far as a teleportation sends it.
pub data Command : Type 0 where
  migration_packet : MigrationPacket AgentManifest → Command
  migration_notice : List ℕ → AgentManifest → List ℕ → Command

pub data Teleported : Type 0 where
  done : TeleportReceipt → Teleported
  failed : TeleportError → Teleported
  panicked : Teleported

-- What a teleportation meets: the time, the answers of the mesh to `snapshot` and `export_manifest`,
-- the identifier of the snapshot, the network, the registry (`none` is no client) and the wallet.
pub record Surroundings : Type 0 where
  pub now : ℕ
  pub resolved : Option TetMetadata
  pub resolved_again : Option TetMetadata
  pub snapshot_id : List ℕ
  pub delivers : ℕ → Bool
  pub push_state : Option (SnapshotPayload → List ℕ → Bool)
  pub wallet_loads : Bool

-- The commands that come through, up to the first that does not, and whether all do.
unfoldable pub send_all : (ℕ → Bool) → ℕ → List Command → List Command × Bool
send_all delivers i [] = ([], true)
send_all delivers i (c ∷ commands) =
    let (sent, all) = send_all delivers (i + 1) commands in
    if delivers i then (c ∷ sent, all) else ([], false)

abbrev pub packet_of : ℕ × List ℕ → MigrationPacket AgentManifest
packet_of (sequence, chunk) = payload chunk sequence

unfoldable pub total_length : List (ℕ × List ℕ) → ℕ
total_length [] = 0
total_length ((sequence, chunk) ∷ rest) = length chunk + total_length rest

-- How the sending ends: with the number of bytes that were sent, or an error; and what was sent.
pub data Sending : Type 0 where
  sent : ℕ → Sending
  stopped : TeleportError → Sending

unfoldable pub outcome : ℕ → List Command × Bool → List Command × Sending
outcome bytes (commands, all) = (commands, if all then sent bytes else stopped target_error)

abbrev pub prepend : Command → List Command × Sending → List Command × Sending
prepend c (commands, sending) = (c ∷ commands, sending)

-- The chunks and the commit, once the handshake is through.
unfoldable pub send_payload : (ℕ → Bool) → Option (List ℕ) → List Command × Sending
unfolding send_all outcome total_length payload_chunks
send_payload delivers none = ([], stopped network)
send_payload delivers (some total_payload) =
    let chunks = payload_chunks total_payload in
    outcome (total_length chunks) (
      send_all delivers 1
        (map (λ c. migration_packet (packet_of c)) chunks ++ migration_packet (commit []) ∷ []))

unfoldable pub stream_directly :
    Bincode → (ℕ → Bool) → AgentManifest → List ℕ → SnapshotPayload → List Command × Sending
unfolding send_payload
stream_directly bincode delivers manifest snapshot_id p =
    if delivers 0
    then prepend (migration_packet (handshake manifest snapshot_id))
        (send_payload delivers (bincode.serialize p))
    else ([], stopped target_error)

unfoldable pub push_to_registry :
    Option (SnapshotPayload → List ℕ → Bool)
    → (ℕ → Bool)
    → List ℕ
    → AgentManifest
    → List ℕ
    → SnapshotPayload
    → List Command × Sending
unfolding send_all outcome
push_to_registry none delivers agent_id manifest snapshot_id p = ([], stopped network)
push_to_registry (some push) delivers agent_id manifest snapshot_id p =
    let reference = agent_id ++ codes "-state:temp" in
    if push p reference
    then outcome 0 (send_all delivers 0 (migration_notice reference manifest snapshot_id ∷ []))
    else ([], stopped network)

-- The agent: its fresh snapshot and its manifest.
pub data Exported : Type 0 where
  exported : SnapshotPayload → AgentManifest → Exported
  not_exported : Exported

unfoldable pub export_agent : Surroundings → WasmtimeSandbox → List ℕ → Exported × WasmtimeSandbox
unfolding Sandbox.snapshot Sandbox.export_snapshot Sandbox.export_manifest
export_agent a s agent_id =
    let (stored, s') = Sandbox.snapshot s agent_id a.resolved a.snapshot_id in
    (
      elim stored [
        | Stored.err e ↦ not_exported
        | Stored.ok snapshot_id ↦ elim (Sandbox.export_snapshot s' snapshot_id) [
          | Stored.err e ↦ not_exported
          | Stored.ok p ↦ elim (Sandbox.export_manifest s' agent_id a.resolved_again) [
            | Stored.err e ↦ not_exported
            | Stored.ok manifest ↦ exported p manifest
          ]
        ]
      ],
      s',
    )

-- The end: the wallet is loaded for the route, the agent leaves the mesh, and the receipt is given.
unfoldable pub conclude :
    Surroundings → TeleportRequest → WasmtimeSandbox → Sending → Teleported × WasmtimeSandbox
unfolding deregister
conclude a req s (stopped e) = (failed e, s)
conclude a req s (sent bytes) =
    if a.wallet_loads
    then (
      done (record {
        agent_id = req.agent_id;
        target_address = req.target_address;
        bytes_transferred = bytes;
      }),
      record s { mesh = deregister s.mesh req.agent_id },
    )
    else (panicked, s)

unfoldable pub send_agent :
    Bincode
    → Surroundings
    → TeleportRequest
    → WasmtimeSandbox
    → Exported
    → Teleported × WasmtimeSandbox × List Command
unfolding conclude stream_directly push_to_registry
send_agent bincode a req s not_exported = (failed network, s, [])
send_agent bincode a req s (exported p manifest) =
    if not manifest.permissions.can_teleport
    then (failed permission_denied, s, [])
    else (let (commands, sending) =
          if req.use_registry
          then push_to_registry a.push_state a.delivers req.agent_id manifest a.snapshot_id p
          else stream_directly bincode a.delivers manifest a.snapshot_id p in
        let (result, s') = conclude a req s sending in (result, s', commands))

-- The result, the sandbox afterwards and the commands that came through.
unfoldable pub execute :
    Bincode
    → Surroundings
    → TeleportRequest
    → WasmtimeSandbox
    → Teleported × WasmtimeSandbox × List Command
unfolding resolve_local export_agent send_agent
execute bincode a req s = elim (resolve_local s.mesh req.agent_id a.now) [
  | none ↦ (failed network, s, [])
  | some metadata ↦
      let (agent, s') = export_agent a s req.agent_id in send_agent bincode a req s' agent
]
