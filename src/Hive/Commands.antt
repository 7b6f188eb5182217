-- ===== src/Hive/Commands.antt =====
-- src/hive/connection.rs: `process_command`, what a node does with a command that a peer sends, and
-- `HivePeers` of src/hive.rs. A tet that arrives is imported at once and forked in a task of its
-- own. The answers of the registry and of the disk enter as arguments; sockets do not fail.
use trytet.Prelude.{
  ℕ, Bool, Option, none, some, List, [], ◌∷◌, ◌++◌, map, bytes_eq, length, ltb, if◌then◌else◌,
}
use trytet.Prelude.HashMap
use trytet.Prelude.HashMap.{HashMap}
use trytet.Calls.{BridgeIntent}
use trytet.Consensus.{AliasProposal, NodeSignature}
use trytet.Economy.Registry.{FuelTransaction}
use trytet.Engine.{AgentManifest, TetExecutionRequest}
use trytet.Hive.{
  SnapshotPayload, Bincode, MigrationPacket, Pending, Handled, stored, resurrected,
  handle_migration_packet,
}
use trytet.Market.{Prices, MarketBid, HiveMarket, process_bid}
use trytet.Mesh.{TetMetadata, resolve_local}
use trytet.Sandbox
use trytet.Sandbox.{WasmtimeSandbox}
use trytet.Vitality.{Heartbeat, VitalityManager, record_heartbeat}

pub record HiveNodeIdentity : Type 0 where
  pub node_id : List ℕ
  pub public_addr : List ℕ
  pub available_fuel : ℕ
  pub total_memory_mb : ℕ
  pub price_per_million_fuel : ℕ
  pub min_reputation_score : ℕ
  pub available_capacity_mb : ℕ

-- `HivePeers`
abbrev pub HivePeers : Type 0
HivePeers = HashMap (List ℕ) HiveNodeIdentity

unfoldable pub add_peer : HivePeers → HiveNodeIdentity → HivePeers
add_peer peers identity = HashMap.insert identity.node_id identity peers

unfoldable pub get_peer : HivePeers → List ℕ → Option HiveNodeIdentity
get_peer peers node_id = HashMap.lookup node_id peers

unfoldable pub list_peers : HivePeers → List HiveNodeIdentity
list_peers peers = map (λ entry. entry.1) peers

pub record TeleportationEnvelope : Type 0 where
  pub manifest : AgentManifest
  pub snapshot : SnapshotPayload
  pub transfer_token : List ℕ

-- The request by which a tet that has arrived goes on.
unfoldable pub resume_req : AgentManifest → List ℕ → TetExecutionRequest
resume_req manifest snap_id = record {
  payload = none;
  alias = some manifest.metadata.name;
  env = [];
  injected_files = [];
  allocated_fuel = 50000000;
  max_memory_mb = 64;
  parent_snapshot_id = some snap_id;
  target_function = none;
  call_depth = 0;
  voucher = none;
  manifest = some manifest;
  egress_policy = none;
}

module _ (prices : Prices) where
  pub data HiveCommand : Type 0 where
    join : HiveNodeIdentity → HiveCommand
    heartbeat : Heartbeat → HiveCommand
    pulse : HiveCommand
    resolve_alias : List ℕ → HiveCommand
    resolve_alias_response : Option TetMetadata → HiveCommand
    dht_update : List ℕ → List ℕ → List ℕ → HiveCommand
    propose_alias : AliasProposal → HiveCommand
    quorum_vote : NodeSignature → HiveCommand
    migrate_request : TeleportationEnvelope → HiveCommand
    migration_packet : MigrationPacket AgentManifest → HiveCommand
    migration_notice : List ℕ → AgentManifest → List ℕ → HiveCommand
    transit_lock : List ℕ → List ℕ → ℕ → HiveCommand
    transit_release : List ℕ → HiveCommand
    transfer_credit : FuelTransaction → HiveCommand
    bill_request : List ℕ → List ℕ → ℕ → HiveCommand
    withdrawal_pending : BridgeIntent → HiveCommand
    market_bid_packet : MarketBid prices → HiveCommand
    registry_query : List ℕ → HiveCommand
    registry_query_response : List ℕ → Bool → HiveCommand
    chunk_stream : List ℕ → ℕ → List ℕ → HiveCommand

  -- What is written to the peer: an empty acknowledgement, or a command, sealed by the tunnel or as
  -- it is; or the connection ends with an error, or its task panics.
  pub data Reply : Type 0 where
    ack : Reply
    sealed : HiveCommand → Reply
    plain : HiveCommand → Reply
    error : Reply
    panicked : Reply

  -- The parts of a node that commands reach. A task is a snapshot and the request to fork it by.
  pub record Node : Type 0 where
    pub peers : HivePeers
    pub vitality : VitalityManager
    pub pending : Pending AgentManifest
    pub sandbox : WasmtimeSandbox
    pub market : HiveMarket prices
    pub tasks : List (List ℕ × TetExecutionRequest)

  -- The clock, the identifier of an imported snapshot, what the registry gives (`none` is no client)
  -- and which blocks are on the disk.
  pub record Moment : Type 0 where
    pub now : ℕ
    pub snapshot_id : List ℕ
    pub pulled : Option (Option SnapshotPayload)
    pub holds : List ℕ → Bool

  -- An import and the task that goes on from it; `refusal` is the reply if the import fails.
  unfoldable pub resurrect : Reply → Moment → Node → AgentManifest → SnapshotPayload → Reply × Node
  unfolding resume_req Sandbox.import_snapshot
  resurrect refusal moment n manifest payload =
      let (imported, sandbox) = Sandbox.import_snapshot n.sandbox payload moment.snapshot_id in
      elim imported [
        | Sandbox.err e ↦ (refusal, n)
        | Sandbox.ok snap_id ↦ (
          ack,
          record n {
            sandbox = sandbox;
            tasks = n.tasks ++ (snap_id, resume_req manifest snap_id) ∷ [];
          },
        )
      ]

  abbrev pub with_pending : Node → Pending AgentManifest → Node
  with_pending n pending = record n { pending = pending }

  unfoldable pub after_packet : Moment → Node → Handled AgentManifest → Reply × Node
  unfolding resurrect
  after_packet moment n stored = (ack, n)
  after_packet moment n (resurrected manifest payload) = resurrect error moment n manifest payload
  after_packet moment n Handled.failed = (error, n)

  unfoldable pub handle_registry_migration :
      Moment → Node → AgentManifest → Option (Option SnapshotPayload) → Reply × Node
  unfolding resurrect
  handle_registry_migration moment n manifest none = (error, n)
  handle_registry_migration moment n manifest (some none) = (error, n)
  handle_registry_migration moment n manifest (some (some payload)) =
      resurrect error moment n manifest payload

  unfoldable pub process_command : Bincode → Moment → Node → HiveCommand → Reply × Node
  unfolding add_peer record_heartbeat resolve_local resurrect handle_migration_packet after_packet
      handle_registry_migration process_bid
  process_command bincode moment n (join id) =
      (sealed pulse, record n { peers = add_peer n.peers id })
  process_command bincode moment n (heartbeat hb) =
      (ack, record n { vitality = record_heartbeat moment.now n.vitality hb })
  process_command bincode moment n pulse = (ack, n)
  process_command bincode moment n (resolve_alias alias) =
      (plain (resolve_alias_response (resolve_local n.sandbox.mesh alias moment.now)), n)
  process_command bincode moment n (resolve_alias_response meta) = (ack, n)
  process_command bincode moment n (dht_update alias node_ip signature) = (ack, n)
  process_command bincode moment n (propose_alias proposal) = (ack, n)
  process_command bincode moment n (quorum_vote vote) = (ack, n)
  process_command bincode moment n (migrate_request envelope) =
      resurrect ack moment n envelope.manifest envelope.snapshot
  process_command bincode moment n (migration_packet packet) =
      let (handled, pending) = handle_migration_packet AgentManifest bincode n.pending packet in
      after_packet moment (with_pending n pending) handled
  process_command bincode moment n (migration_notice reference manifest snapshot_id) =
      handle_registry_migration moment n manifest moment.pulled
  process_command bincode moment n (transit_lock alias node_id ttl_seconds) = (ack, n)
  process_command bincode moment n (transit_release alias) = (ack, n)
  process_command bincode moment n (transfer_credit tx) =
      if ltb (length tx.to) 4 then (panicked, n) else (ack, n)
  process_command bincode moment n (bill_request source target amount) = (ack, n)
  process_command bincode moment n (withdrawal_pending intent) = (ack, n)
  process_command bincode moment n (market_bid_packet bid) =
      (ack, record n { market = process_bid prices n.market bid })
  process_command bincode moment n (registry_query cid) =
      (plain (registry_query_response cid (moment.holds cid)), n)
  process_command bincode moment n (registry_query_response cid available) = (ack, n)
  process_command bincode moment n (chunk_stream cid seq chunk) = (ack, n)

  -- Commands in the order in which they are taken.
  unfoldable pub process_all : Bincode → Node → List (Moment × HiveCommand) → Node
  unfolding process_command
  process_all bincode n [] = n
  process_all bincode n ((moment, command) ∷ commands) =
      process_all bincode (process_command bincode moment n command).1 commands
