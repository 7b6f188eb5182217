-- ===== src/Api/Handlers.antt =====
-- src/api/handlers/all.rs: the handlers, and the protected routes of src/api.rs.
use trytet.Prelude.{ℕ, Bool, Option, none, some, List, [], ◌++◌, bytes_eq, codes, if◌then◌else◌}
use trytet.Prelude.HashMap
use trytet.Api.{
  AppState, Call, execute, snapshot, fork, export, import, registry_push, registry_pull, hive_peers,
  teleport, topup, ingress_register, create_key, list_keys, revoke_key, left_out, Body, empty,
  error, result, Response, answer, panicked, Moment, status_code, invalid, with_policy, topup_req,
  with_sandbox, with_keys, not_enabled,
}
use trytet.Artifacts.Files
use trytet.Auth
use trytet.Auth.{Library, KeyStore, Headers, Verdict, passes, unauthorized, require_api_key}
use trytet.Economy.Crypto.{Ed25519, Hex}
use trytet.Economy.Vouchers.{FuelVoucher}
use trytet.Engine.{TetExecutionRequest}
use trytet.Hive.{SnapshotPayload, Bincode}
use trytet.Hive.Commands.{HiveNodeIdentity, get_peer, list_peers}
use trytet.Hive.Teleport
use trytet.Hive.Teleport.{
  TeleportRequest, TeleportError, permission_denied, target_error, network, Teleported,
}
use trytet.Sandbox
use trytet.Sandbox.{
  WasmtimeSandbox, Runtime, TetError, TetExecutionResult, Executed, refused, failed, ran, broke,
  Stored,
}

abbrev pub teleport_status : TeleportError → ℕ
teleport_status permission_denied = 403
teleport_status target_error = 502
teleport_status network = 500

-- The parts that the handlers call: signatures, digits, the runtime, the digests of keys, the
-- encoding of snapshots, and the texts of errors.
pub record Parts : Type 1 where
  pub crypto : Ed25519
  pub hex : Hex
  pub runtime : Runtime
  pub library : Library
  pub bincode : Bincode
  pub to_string : TetError → List ℕ
  pub teleport_text : TeleportError → List ℕ

module _ (parts : Parts) where
  open parts use {crypto, hex, runtime, library, bincode, to_string, teleport_text}

  -- The answer to an execution; a refused one is a result like any other.
  unfoldable pub answer_executed : List ℕ → Executed → Response
  unfolding status_code
  answer_executed error_type (ran req res) = answer 200 (result res)
  answer_executed error_type (refused res) = answer 200 (result res)
  answer_executed error_type (failed e) = answer (status_code e) (error (to_string e) error_type)
  answer_executed error_type (broke req e) = answer (status_code e) (error (to_string e) error_type)

  unfoldable pub handle_execute : Moment → AppState → TetExecutionRequest → Response × AppState
  unfolding invalid with_policy Sandbox.execute answer_executed
  handle_execute m s req = elim (invalid req) [
    | some text ↦ (answer 400 (error text (codes "bad_request")), s)
    | none ↦
        let (executed, sandbox) =
          Sandbox.execute crypto hex runtime m.now s.sandbox (with_policy req) m.fresh_id
            m.new_id in
        (answer_executed (codes "engine_error") executed, with_sandbox s sandbox)
  ]

  unfoldable pub handle_fork :
      Moment → AppState → List ℕ → TetExecutionRequest → Response × AppState
  unfolding Sandbox.fork answer_executed
  handle_fork m s id req =
      let (executed, sandbox) =
        Sandbox.fork crypto hex runtime m.now s.sandbox id req m.fresh_id m.new_id in
      (answer_executed (codes "fork_error") executed, with_sandbox s sandbox)

  abbrev pub answer_snapshot : Stored (List ℕ) → Response
  answer_snapshot (Stored.ok id) = answer 200 (Body.snapshot_id id)
  answer_snapshot (Stored.err e) =
      answer (status_code e) (error (to_string e) (codes "snapshot_error"))

  unfoldable pub handle_snapshot : Moment → AppState → List ℕ → Response × AppState
  unfolding Sandbox.snapshot
  handle_snapshot m s tet_id =
      let (stored, sandbox) = Sandbox.snapshot s.sandbox tet_id m.resolved m.new_id in
      (answer_snapshot stored, with_sandbox s sandbox)

  unfoldable pub handle_export : AppState → List ℕ → Response × AppState
  unfolding Sandbox.export_snapshot
  handle_export s id = elim (Sandbox.export_snapshot s.sandbox id) [
    | Stored.ok p ↦ (answer 200 (Body.payload p), s)
    | Stored.err e ↦ (answer 404 (error (codes "Snapshot not found") []), s)
  ]

  abbrev pub answer_import : Stored (List ℕ) → Response
  answer_import (Stored.ok id) = answer 200 (Body.snapshot_id id)
  answer_import (Stored.err e) = answer 500 (error (to_string e) [])

  unfoldable pub handle_import : Moment → AppState → SnapshotPayload → Response × AppState
  unfolding Sandbox.import_snapshot
  handle_import m s p =
      let (imported, sandbox) = Sandbox.import_snapshot s.sandbox p m.new_id in
      (answer_import imported, with_sandbox s sandbox)

  -- A tet goes on from its memory with the fuel of a voucher; `second_id` is the new snapshot's.
  abbrev pub answer_topup : Executed → Response
  answer_topup (ran req res) = answer 200 (result res)
  answer_topup (refused res) = answer 200 (result res)
  answer_topup (failed e) =
      answer 500 (error (codes "Failed to resuscitate top-up snapshot: " ++ to_string e) [])
  answer_topup (broke req e) =
      answer 500 (error (codes "Failed to resuscitate top-up snapshot: " ++ to_string e) [])

  unfoldable pub handle_topup : Moment → AppState → List ℕ → FuelVoucher → Response × AppState
  unfolding Sandbox.snapshot topup_req Sandbox.fork
  handle_topup m s alias voucher =
      let (stored, sandbox) = Sandbox.snapshot s.sandbox alias m.resolved m.new_id in
      elim stored [
        | Stored.err e ↦ (
          answer 404 (error (codes "Alias not active on this Node or has no suspended state") []),
          s,
        )
        | Stored.ok id ↦
            let (executed, sandbox') =
              Sandbox.fork crypto hex runtime m.now sandbox id (topup_req alias voucher id)
                m.fresh_id m.second_id in
            (answer_topup executed, with_sandbox s sandbox')
      ]

  unfoldable pub handle_registry_pull : AppState → List ℕ → Response × AppState
  unfolding Files.pull
  handle_registry_pull s tag = elim (Files.pull s.registry tag) [
    | some found ↦ (answer 200 (Body.bytes found), s)
    | none ↦ (answer 404 empty, s)
  ]

  unfoldable pub handle_hive_peers : AppState → Response × AppState
  unfolding list_peers
  handle_hive_peers s = elim s.hive [
    | none ↦ (not_enabled, s)
    | some hive ↦ (answer 200 (Body.peers (list_peers hive)), s)
  ]

  abbrev pub answer_teleport : Teleported → Response
  answer_teleport (Teleported.done sent) = answer 200 (Body.receipt sent)
  answer_teleport (Teleported.failed e) =
      answer (teleport_status e) (error (teleport_text e) (codes "teleport_error"))
  answer_teleport Teleported.panicked = panicked

  -- The commands that were sent are not kept.
  unfoldable pub teleport_to :
      Moment → AppState → HiveNodeIdentity → List ℕ → Bool → Response × AppState
  unfolding Teleport.execute
  teleport_to m s target alias use_registry =
      let (teleported, sandbox, sent) =
        Teleport.execute bincode m.surroundings
          (record {
            agent_id = alias;
            target_address = target.public_addr;
            use_registry = use_registry;
          })
          s.sandbox in
      (answer_teleport teleported, with_sandbox s sandbox)

  unfoldable pub handle_teleport :
      Moment → AppState → List ℕ → Option (List ℕ) → Bool → Response × AppState
  unfolding get_peer teleport_to
  handle_teleport m s alias none use_registry =
      (answer 400 (error (codes "Missing target_node") []), s)
  handle_teleport m s alias (some target_node_id) use_registry = elim s.hive [
    | none ↦ (not_enabled, s)
    | some hive ↦ elim (get_peer hive target_node_id) [
      | none ↦ (
        answer 400 (
            error
              (codes "Target node " ++ (target_node_id ++ codes " not found in local peer list"))
              (codes "bad_request")),
        s,
      )
      | some target ↦ teleport_to m s target alias use_registry
    ]
  ]

  unfoldable pub handle_create_key : Moment → AppState → List ℕ → Response × AppState
  unfolding Auth.create_key
  handle_create_key m s label =
      let (raw, store) = Auth.create_key library s.key_store label m.uuid m.now in
      (answer 201 (Body.key raw), with_keys s store)

  unfoldable pub handle_revoke_key : Moment → AppState → List ℕ → Response × AppState
  unfolding Auth.revoke
  handle_revoke_key m s prefix =
      let (found, store) = Auth.revoke m.key_order s.key_store prefix in
      if found
      then (answer 200 (Body.revoked prefix), with_keys s store)
      else (answer 404 (error (codes "key not found") []), with_keys s store)

  unfoldable pub handle : Moment → AppState → Call → Response × AppState
  unfolding handle_execute handle_snapshot handle_fork handle_export handle_import Files.push
      handle_registry_pull handle_hive_peers handle_teleport handle_topup handle_create_key
      Auth.list handle_revoke_key
  handle m s (execute req) = handle_execute m s req
  handle m s (snapshot tet_id) = handle_snapshot m s tet_id
  handle m s (fork id req) = handle_fork m s id req
  handle m s (export id) = handle_export s id
  handle m s (import p) = handle_import m s p
  handle m s (registry_push tag content) =
      (answer 200 empty, record s { registry = Files.push s.registry tag content })
  handle m s (registry_pull tag) = handle_registry_pull s tag
  handle m s hive_peers = handle_hive_peers s
  handle m s (teleport alias target use_registry) = handle_teleport m s alias target use_registry
  handle m s (topup alias voucher) = handle_topup m s alias voucher
  handle m s (ingress_register route) = (
    answer 200 (Body.route route),
    record s { ingress_routes = HashMap.insert route.public_path route s.ingress_routes },
  )
  handle m s (create_key label) = handle_create_key m s label
  handle m s list_keys = (answer 200 (Body.keys (Auth.list s.key_store)), s)
  handle m s (revoke_key prefix) = handle_revoke_key m s prefix
  handle m s (left_out handler) = handler s

  -- After the middleware.
  unfoldable pub respond : Moment → AppState → Call → Verdict × KeyStore → Response × AppState
  unfolding handle
  respond m s call (unauthorized, store) = (
    answer 401 (error (codes "unauthorized") (codes "AuthenticationRequired")),
    with_keys s store,
  )
  respond m s call (passes, store) = handle m (with_keys s store) call

  -- A protected route: the key is asked for before the handler is reached.
  unfoldable pub protected : Moment → AppState → Headers → Call → Response × AppState
  unfolding require_api_key respond
  protected m s headers call = respond m s call (require_api_key library s.key_store headers)
