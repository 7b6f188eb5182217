-- ===== src/Api.antt =====
-- src/api.rs and src/api/handlers/all.rs: the HTTP interface of a node. Its state is `AppState`, and
-- each handler that keeps or changes it is a function from the state and a parsed request to a
-- response and the state afterwards; the protected routes ask for a key first. A handler is one step.
-- The handlers that only pass a request on to other parts (benchmark, swarm, inference, topology,
-- memory, cartridges, the stream and the metrics) are any functions of their own, and JSON and the
-- parsing of paths are left out. Fresh identifiers, the clock and the answers of the mesh enter as
-- arguments.
pub mod Handlers
pub mod Tests
pub mod Funding
pub mod Intruders
use trytet.Prelude.{
  ℕ, Bool, true, false, ◌&&◌, Option, none, some, List, [], ◌∷◌, ◌++◌, bytes_eq, codes, nat_beq,
  if◌then◌else◌,
}
use trytet.Prelude.HashMap
use trytet.Prelude.HashMap.{HashMap}
use trytet.Artifacts.Files.{Directory}
use trytet.Auth
use trytet.Auth.{Library, KeyStore, Headers, passes, unauthorized, require_api_key}
use trytet.Economy.Crypto.{Ed25519, Hex}
use trytet.Economy.Vouchers.{FuelVoucher}
use trytet.Engine.{EgressPolicy, TetExecutionRequest}
use trytet.Hive.{SnapshotPayload, Bincode}
use trytet.Hive.Commands.{HiveNodeIdentity, HivePeers, get_peer, list_peers}
use trytet.Hive.Teleport
use trytet.Hive.Teleport.{
  TeleportRequest, TeleportReceipt, TeleportError, permission_denied, target_error, network,
  Teleported, Surroundings,
}
use trytet.Mesh
use trytet.Sandbox
use trytet.Sandbox.{
  WasmtimeSandbox, Runtime, TetError, engine_error, snapshot_not_found, security_violation,
  vfs_error, mesh_error, call_stack_exhausted, inference_error, cartridge_error, TetExecutionResult,
  Executed, refused, failed, ran, broke, Stored,
}

-- `oracle::IngressRoute`
pub record IngressRoute : Type 0 where
  pub public_path : List ℕ
  pub target_alias : List ℕ
  pub method_filter : List (List ℕ)

pub record AppState : Type 0 where
  pub sandbox : WasmtimeSandbox
  pub registry : Directory
  pub hive : Option HivePeers
  pub ingress_routes : HashMap (List ℕ) IngressRoute
  pub key_store : KeyStore

-- An error has its text and its type, which is empty where the source gives none.
pub data Body : Type 0 where
  empty : Body
  error : List ℕ → List ℕ → Body
  result : TetExecutionResult → Body
  snapshot_id : List ℕ → Body
  payload : SnapshotPayload → Body
  bytes : List ℕ → Body
  peers : List HiveNodeIdentity → Body
  receipt : TeleportReceipt → Body
  route : IngressRoute → Body
  key : List ℕ → Body
  keys : List (List ℕ × ℕ × List ℕ) → Body
  revoked : List ℕ → Body

pub data Response : Type 0 where
  answer : ℕ → Body → Response
  panicked : Response

-- A request, by its handler; one that is left out is what it does.
pub data Call : Type 0 where
  execute : TetExecutionRequest → Call
  snapshot : List ℕ → Call
  fork : List ℕ → TetExecutionRequest → Call
  export : List ℕ → Call
  import : SnapshotPayload → Call
  registry_push : List ℕ → List ℕ → Call
  registry_pull : List ℕ → Call
  hive_peers : Call
  teleport : List ℕ → Option (List ℕ) → Bool → Call
  topup : List ℕ → FuelVoucher → Call
  ingress_register : IngressRoute → Call
  create_key : List ℕ → Call
  list_keys : Call
  revoke_key : List ℕ → Call
  left_out : (AppState → Response × AppState) → Call

-- What a request finds.
pub record Moment : Type 0 where
  pub now : ℕ
  pub resolved : Option Mesh.TetMetadata
  pub fresh_id : List ℕ
  pub new_id : List ℕ
  pub second_id : List ℕ
  pub uuid : List ℕ
  pub key_order : List (List ℕ)
  pub surroundings : Surroundings

unfoldable pub status_code : TetError → ℕ
status_code (engine_error text) = 500
status_code (snapshot_not_found id) = 404
status_code (security_violation text) = 403
status_code (vfs_error text) = 500
status_code (mesh_error text) = 502
status_code call_stack_exhausted = 429
status_code (inference_error text) = 500
status_code (cartridge_error text) = 422

abbrev pub is_missing {ℓ} : {A : Type ℓ} → Option A → Bool
is_missing none = true
is_missing (some a) = false

abbrev pub is_blank : Option (List ℕ) → Bool
is_blank none = false
is_blank (some []) = true
is_blank (some (c ∷ text)) = false

-- Why `handle_execute` refuses a request, if it does.
unfoldable pub invalid : TetExecutionRequest → Option (List ℕ)
invalid req =
    if is_missing req.payload && is_missing req.parent_snapshot_id
    then some (codes "payload is required when not forking")
    else if is_blank req.payload
    then some (codes "payload must not be empty")
    else if nat_beq req.allocated_fuel 0
    then some (codes "allocated_fuel must be greater than 0")
    else if nat_beq req.max_memory_mb 0
    then some (codes "max_memory_mb must be greater than 0")
    else none

abbrev pub policy_or_none : Option EgressPolicy → Option EgressPolicy
policy_or_none (some policy) = some policy
policy_or_none none =
    some (record { allowed_domains = []; max_daily_bytes = 0; require_https = true })

unfoldable pub with_policy : TetExecutionRequest → TetExecutionRequest
with_policy req = record req { egress_policy = policy_or_none req.egress_policy }

unfoldable pub topup_req : List ℕ → FuelVoucher → List ℕ → TetExecutionRequest
topup_req alias voucher id = record {
  payload = none;
  alias = some alias;
  env = [];
  injected_files = [];
  allocated_fuel = voucher.fuel_limit;
  max_memory_mb = 64;
  parent_snapshot_id = some id;
  target_function = none;
  call_depth = 0;
  voucher = some voucher;
  manifest = none;
  egress_policy = none;
}

abbrev pub with_sandbox : AppState → WasmtimeSandbox → AppState
with_sandbox s sandbox = record s { sandbox = sandbox }

abbrev pub with_keys : AppState → KeyStore → AppState
with_keys s store = record s { key_store = store }

abbrev pub not_enabled : Response
not_enabled =
    answer 501
      (error (codes "Hive Networking is not enabled on this node") (codes "not_implemented"))
