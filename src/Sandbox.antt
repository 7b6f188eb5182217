-- ===== src/Sandbox.antt =====
-- The engine of src/sandbox/sandbox_wasmtime.rs, from a request to its snapshots: the voucher that
-- pays for an execution, the snapshot that it starts from, and what is stored after it. The run of
-- the Wasm module itself (`execute_inner`) is a parameter, as are the fresh UUIDs. Each operation is
-- one step; a run changes nothing of this state but the mesh.
pub mod Payment
pub mod Tests
use trytet.Prelude.{
  ℕ, Bool, true, false, not, Option, none, some, List, [], ◌∷◌, ◌++◌, bytes_eq, codes,
  if◌then◌else◌,
}
use trytet.Prelude.HashMap
use trytet.Prelude.HashMap.{HashMap}
use trytet.Economy.Crypto.{Ed25519, Hex}
use trytet.Economy.Vouchers
use trytet.Economy.Vouchers.{FuelVoucher, VoucherError, VoucherManager, verify_and_claim}
use trytet.Engine.{
  CrashType, economic_violation, CrashReport, ExecutionStatus, crash, Metadata, ResourceConstraints,
  CapabilityPolicy, AgentManifest, TetExecutionRequest,
}
use trytet.Hive.{SnapshotPayload}
use trytet.Mesh.{TetMetadata, TetMesh, register, remove_by_snapshot}

pub record StructuredTelemetry : Type 0 where
  pub stdout_lines : List (List ℕ)
  pub stderr_lines : List (List ℕ)
  pub memory_used_kb : ℕ

pub record TetExecutionResult : Type 0 where
  pub tet_id : List ℕ
  pub status : ExecutionStatus
  pub telemetry : StructuredTelemetry
  pub execution_duration_us : ℕ
  pub fuel_consumed : ℕ
  pub mutated_files : HashMap (List ℕ) (List ℕ)
  pub migrated_to : Option (List ℕ)

pub data TetError : Type 0 where
  engine_error : List ℕ → TetError
  snapshot_not_found : List ℕ → TetError
  security_violation : List ℕ → TetError
  vfs_error : List ℕ → TetError
  mesh_error : List ℕ → TetError
  call_stack_exhausted : TetError
  inference_error : List ℕ → TetError
  cartridge_error : List ℕ → TetError

pub record WasmtimeSandbox : Type 0 where
  pub require_payment : Bool
  pub voucher_manager : VoucherManager
  pub snapshots : HashMap (List ℕ) SnapshotPayload
  pub active_memories : HashMap (List ℕ) (SnapshotPayload × AgentManifest)
  pub mesh : TetMesh

-- The end of an execution. `ran` carries the request and the parent as they were handed to the run.
pub data Executed : Type 0 where
  refused : TetExecutionResult → Executed
  failed : TetError → Executed
  ran : TetExecutionRequest → TetExecutionResult → Executed
  broke : TetExecutionRequest → TetError → Executed

-- `execute_inner`: the result and the snapshot with the mesh afterwards, or an error.
pub data Inner : Type 0 where
  result : TetExecutionResult → SnapshotPayload → TetMesh → Inner
  error : TetError → TetMesh → Inner

-- `Display` of the errors of a voucher.
pub record Runtime : Type 0 where
  pub display : VoucherError → List ℕ
  pub execute_inner : TetMesh → List ℕ → TetExecutionRequest → Option SnapshotPayload → Inner

abbrev pub unwrap_or : List ℕ → Option (List ℕ) → List ℕ
unwrap_or d none = d
unwrap_or d (some t) = t

unfoldable pub economic_crash : List ℕ → TetExecutionRequest → List ℕ → TetExecutionResult
economic_crash fresh_id req msg = record {
  tet_id = unwrap_or fresh_id req.alias;
  status =
      crash (record { error_type = economic_violation; instruction_offset = none; message = msg });
  telemetry = record { stdout_lines = []; stderr_lines = []; memory_used_kb = 0 };
  execution_duration_us = 0;
  fuel_consumed = 0;
  mutated_files = [];
  migrated_to = none;
}

-- The manifest that an execution without one is stored with.
unfoldable pub default_manifest : List ℕ → AgentManifest
default_manifest name = record {
  metadata = record {
    name = name;
    version = codes "0.0.0";
    author_pubkey = some (codes "UNKNOWN");
  };
  constraints = record {
    max_memory_pages = 1024;
    fuel_limit = 1000000;
    max_egress_bytes = 1000000;
  };
  permissions = record {
    can_egress = [];
    can_persist = false;
    can_teleport = false;
    is_genesis_factory = false;
    can_fork = false;
  };
}

-- The request as the guard lets it through, or the reason why not.
pub data Guarded : Type 0 where
  admits : TetExecutionRequest → Guarded
  violation : List ℕ → Guarded

abbrev pub wasm_of : Option (List ℕ) → Option SnapshotPayload → Option (List ℕ)
wasm_of (some bytes) parent = some bytes
wasm_of none (some parent) = some parent.wasm_bytes
wasm_of none none = none

module _ (crypto : Ed25519) (hex : Hex) (runtime : Runtime) where
  open runtime use {display, execute_inner}

  abbrev pub with_vouchers : WasmtimeSandbox → VoucherManager → WasmtimeSandbox
  with_vouchers s m = record s { voucher_manager = m }

  abbrev pub judged : TetExecutionRequest → FuelVoucher → Vouchers.Claim → Guarded
  judged req v Vouchers.Claim.ok = admits (record req { allocated_fuel = v.fuel_limit })
  judged req v (Vouchers.Claim.err e) = violation (codes "Invalid Fuel Voucher: " ++ display e)

  -- The economic pre-flight guard. `now` is the clock.
  unfoldable pub guard_payment :
      ℕ → WasmtimeSandbox → TetExecutionRequest → Guarded × WasmtimeSandbox
  unfolding verify_and_claim
  guard_payment now s req = if not s.require_payment then (admits req, s) else elim req.voucher [
    | none ↦ (violation (codes "Missing Fuel Voucher"), s)
    | some v ↦
        let (claim, m) = verify_and_claim crypto hex now s.voucher_manager v in
        (judged req v claim, with_vouchers s m)
  ]

  -- The parent, if one is asked for; `none` is an identifier that is not stored.
  unfoldable pub parent_snapshot :
      WasmtimeSandbox → Option (List ℕ) → Option (Option SnapshotPayload)
  parent_snapshot s none = some none
  parent_snapshot s (some id) = elim (HashMap.lookup id s.snapshots) [
    | none ↦ none
    | some p ↦ some (some p)
  ]

  unfoldable pub forget_parent : TetMesh → Option (List ℕ) → Option (List ℕ) → TetMesh
  unfolding remove_by_snapshot
  forget_parent mesh (some parent_id) (some alias) = remove_by_snapshot mesh alias parent_id
  forget_parent mesh none alias = mesh
  forget_parent mesh (some parent_id) none = mesh

  unfoldable pub hibernate : TetMesh → Option (List ℕ) → List ℕ → List ℕ → List ℕ → TetMesh
  unfolding register
  hibernate mesh none tet_id snapshot_id wasm_bytes = mesh
  hibernate mesh (some alias) tet_id snapshot_id wasm_bytes = register mesh alias (record {
    tet_id = tet_id;
    is_hibernating = true;
    snapshot_id = some snapshot_id;
    wasm_bytes = some wasm_bytes;
  })

  abbrev pub manifest_or : AgentManifest → Option AgentManifest → AgentManifest
  manifest_or d none = d
  manifest_or d (some m) = m

  -- What is stored after a run; `snapshot_id` is fresh.
  unfoldable pub store_run :
      WasmtimeSandbox
      → TetExecutionRequest
      → List ℕ
      → List ℕ
      → TetExecutionResult
      → SnapshotPayload
      → TetMesh
      → WasmtimeSandbox
  unfolding default_manifest forget_parent hibernate
  store_run s req wasm_bytes snapshot_id res payload mesh =
      let manifest = manifest_or (default_manifest (unwrap_or [] req.alias)) req.manifest in
      record s {
        active_memories = HashMap.insert res.tet_id (payload, manifest) s.active_memories;
        snapshots = HashMap.insert snapshot_id payload s.snapshots;
        mesh =
            hibernate (forget_parent mesh req.parent_snapshot_id req.alias) req.alias res.tet_id
              snapshot_id wasm_bytes;
      }

  unfoldable pub finish :
      WasmtimeSandbox → TetExecutionRequest → List ℕ → List ℕ → Inner → Executed × WasmtimeSandbox
  unfolding store_run
  finish s req wasm_bytes snapshot_id (result res payload mesh) =
      (ran req res, store_run s req wasm_bytes snapshot_id res payload mesh)
  finish s req wasm_bytes snapshot_id (error e mesh) = (broke req e, record s { mesh = mesh })

  -- From the guard on.
  unfoldable pub run_request :
      WasmtimeSandbox → TetExecutionRequest → List ℕ → Executed × WasmtimeSandbox
  unfolding parent_snapshot finish
  run_request s req snapshot_id = elim (parent_snapshot s req.parent_snapshot_id) [
    | none ↦ (failed (snapshot_not_found (unwrap_or [] req.parent_snapshot_id)), s)
    | some parent ↦ elim (wasm_of req.payload parent) [
      | none ↦ (failed (engine_error (codes "No Wasm payload provided")), s)
      | some wasm_bytes ↦
          finish s req wasm_bytes snapshot_id (execute_inner s.mesh wasm_bytes req parent)
    ]
  ]

  -- `fresh_id` names a refused execution without an alias.
  unfoldable pub execute :
      ℕ → WasmtimeSandbox → TetExecutionRequest → List ℕ → List ℕ → Executed × WasmtimeSandbox
  unfolding guard_payment economic_crash run_request
  execute now s req fresh_id snapshot_id =
      let (guarded, s') = guard_payment now s req in
      elim guarded [
        | violation msg ↦ (refused (economic_crash fresh_id req msg), s')
        | admits req' ↦ run_request s' req' snapshot_id
      ]

  unfoldable pub fork :
      ℕ
      → WasmtimeSandbox
      → List ℕ
      → TetExecutionRequest
      → List ℕ
      → List ℕ
      → Executed × WasmtimeSandbox
  unfolding execute
  fork now s snapshot_id req fresh_id new_id =
      execute now s (record req { parent_snapshot_id = some snapshot_id }) fresh_id new_id

-- The memory of a tet or of what its alias resolves to; `resolved` is the answer of the mesh.
unfoldable pub active_memory :
    WasmtimeSandbox → List ℕ → Option TetMetadata → Option (SnapshotPayload × AgentManifest)
active_memory s id_or_alias resolved = elim (HashMap.lookup id_or_alias s.active_memories) [
  | some memory ↦ some memory
  | none ↦ elim resolved [
    | none ↦ none
    | some target_meta ↦ HashMap.lookup target_meta.tet_id s.active_memories
  ]
]

-- The identifier of the new snapshot, or an error.
pub data Stored {ℓ} (A : Type ℓ) : Type ℓ where
  ok : A → Stored A
  err : TetError → Stored A

unfoldable pub import_snapshot :
    WasmtimeSandbox → SnapshotPayload → List ℕ → Stored (List ℕ) × WasmtimeSandbox
import_snapshot s payload snapshot_id =
    (ok snapshot_id, record s { snapshots = HashMap.insert snapshot_id payload s.snapshots })

unfoldable pub snapshot :
    WasmtimeSandbox → List ℕ → Option TetMetadata → List ℕ → Stored (List ℕ) × WasmtimeSandbox
unfolding active_memory import_snapshot
snapshot s id_or_alias resolved snapshot_id = elim (active_memory s id_or_alias resolved) [
  | none ↦ (err (snapshot_not_found id_or_alias), s)
  | some (payload, manifest) ↦ import_snapshot s payload snapshot_id
]

unfoldable pub export_manifest :
    WasmtimeSandbox → List ℕ → Option TetMetadata → Stored AgentManifest
unfolding active_memory
export_manifest s id_or_alias resolved = elim (active_memory s id_or_alias resolved) [
  | none ↦ err (snapshot_not_found id_or_alias)
  | some (payload, manifest) ↦ ok manifest
]

unfoldable pub export_snapshot : WasmtimeSandbox → List ℕ → Stored SnapshotPayload
export_snapshot s snapshot_id = elim (HashMap.lookup snapshot_id s.snapshots) [
  | none ↦ err (snapshot_not_found snapshot_id)
  | some payload ↦ ok payload
]
