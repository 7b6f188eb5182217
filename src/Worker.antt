-- ===== src/Worker.antt =====
-- src/mesh_worker.rs: the worker of the mesh, which takes the messages that host calls send and
-- executes what they ask for. A call is answered before the next message is taken; a fork is a task
-- of its own, which runs at some later time. The clock, fresh identifiers and the answer of the mesh
-- come with each arrival, and the texts of errors are a parameter.
pub mod Unpaid
pub mod Tests
use trytet.Prelude.{
  ℕ, zero, suc, ◌+◌, ◌%◌, ◌^◌, Option, none, some, List, [], ◌∷◌, ◌++◌, bytes_eq, codes,
}
use trytet.Prelude.HashMap
use trytet.Calls.{MeshMessage}
use trytet.Economy.Crypto.{Ed25519, Hex}
use trytet.Engine.{
  CrashType, alias_not_found, mesh_execution_failed, crash, MeshCallRequest, MeshCallResponse,
  TetExecutionRequest,
}
use trytet.Mesh.{TetMetadata}
use trytet.Sandbox
use trytet.Sandbox.{WasmtimeSandbox, TetError, TetExecutionResult, Executed, Runtime, unwrap_or}

pub record Arrival : Type 0 where
  pub now : ℕ
  pub fresh_id : List ℕ
  pub snapshot_id : List ℕ
  pub resolved : Option TetMetadata

unfoldable pub failure : CrashType → List ℕ → MeshCallResponse
failure error_type message = record {
  status = crash (record { error_type = error_type; instruction_offset = none; message = message });
  return_data = [];
  fuel_used = 0;
}

-- The request by which the called tet runs: from its snapshot, one level deeper.
unfoldable pub execution_req : MeshCallRequest → TetMetadata → TetExecutionRequest
execution_req req metadata = record {
  payload = none;
  alias = some req.target_alias;
  env = [];
  injected_files = [];
  allocated_fuel = req.fuel_to_transfer;
  max_memory_mb = 64;
  parent_snapshot_id = metadata.snapshot_id;
  target_function = req.target_function;
  call_depth = (req.current_depth + 1) % 2 ^ 32;
  voucher = none;
  manifest = none;
  egress_policy = none;
}

-- The answer of a run: the file `rpc_response.json`, if it wrote one.
unfoldable pub response : TetExecutionResult → MeshCallResponse
response res = record {
  status = res.status;
  return_data = unwrap_or [] (HashMap.lookup (codes "rpc_response.json") res.mutated_files);
  fuel_used = res.fuel_consumed;
}

-- The sandbox, the forks that have not run yet, and the answers that were sent.
pub record Worker : Type 0 where
  pub sandbox : WasmtimeSandbox
  pub tasks : List TetExecutionRequest
  pub replies : List MeshCallResponse

-- One of the tasks, and the others.
unfoldable pub take_task :
    ℕ → List TetExecutionRequest → Option (TetExecutionRequest × List TetExecutionRequest)
take_task i [] = none
take_task zero (req ∷ tasks) = some (req, tasks)
take_task (suc i) (req ∷ tasks) = elim (take_task i tasks) [
  | none ↦ none
  | some (other, rest) ↦ some (other, req ∷ rest)
]

module _ (crypto : Ed25519) (hex : Hex) (runtime : Runtime) (to_string : TetError → List ℕ) where
  unfoldable pub reply_of : Executed → MeshCallResponse
  unfolding response failure
  reply_of (Executed.ran req res) = response res
  reply_of (Executed.refused res) = response res
  reply_of (Executed.failed e) = failure mesh_execution_failed (to_string e)
  reply_of (Executed.broke req e) = failure mesh_execution_failed (to_string e)

  unfoldable pub handle_call :
      WasmtimeSandbox → Arrival → MeshCallRequest → MeshCallResponse × WasmtimeSandbox
  unfolding execution_req reply_of failure Sandbox.execute
  handle_call s a req = elim a.resolved [
    | none ↦ (
      failure alias_not_found (codes "Tet-Mesh could not resolve alias: " ++ req.target_alias),
      s,
    )
    | some metadata ↦
        let (executed, s') =
          Sandbox.execute crypto hex runtime a.now s (execution_req req metadata) a.fresh_id
            a.snapshot_id in
        (reply_of executed, s')
  ]

  unfoldable pub handle_message : Worker → Arrival → MeshMessage → Worker
  unfolding handle_call
  handle_message w a (MeshMessage.call req) =
      let (reply, s) = handle_call w.sandbox a req in
      record w { sandbox = s; replies = w.replies ++ reply ∷ [] }
  handle_message w a (MeshMessage.fork req) = record w { tasks = w.tasks ++ req ∷ [] }
  handle_message w a (MeshMessage.economy_packet pkt) = w
  handle_message w a (MeshMessage.reclaim child_id) = w

  -- A fork runs, whichever it is; its result is dropped.
  unfoldable pub run_task : Worker → Arrival → ℕ → Worker
  unfolding Sandbox.execute take_task
  run_task w a i = elim (take_task i w.tasks) [
    | none ↦ w
    | some (req, tasks) ↦ record w {
      sandbox = (Sandbox.execute crypto hex runtime a.now w.sandbox req a.fresh_id a.snapshot_id).1;
      tasks = tasks;
    }
  ]

  -- What happens to a worker, in any order.
  pub data Event : Type 0 where
    received : Arrival → MeshMessage → Event
    scheduled : Arrival → ℕ → Event

  unfoldable pub after : Worker → Event → Worker
  unfolding handle_message run_task
  after w (received a message) = handle_message w a message
  after w (scheduled a i) = run_task w a i

  unfoldable pub serve : Worker → List Event → Worker
  unfolding after
  serve w [] = w
  serve w (e ∷ events) = serve (after w e) events
