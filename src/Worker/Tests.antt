-- ===== src/Worker/Tests.antt =====
-- Witnesses of the worker: an engine that asks for payment, one call and one fork.
use trytet.Prelude.{ℕ, ◌≡◌, refl, true, none, some, List, [], ◌∷◌, codes}
use trytet.Calls.{MeshMessage}
use trytet.Economy.Examples.{plain_crypto, plain_hex}
use trytet.Economy.Vouchers
use trytet.Engine.{MeshCallRequest, economic_violation}
use trytet.Mesh
use trytet.Mesh.{TetMetadata}
use trytet.Sandbox.{WasmtimeSandbox, Runtime, Inner, TetError, engine_error}
use trytet.Worker.{Arrival, Worker, Event, received, scheduled, serve, execution_req}
use trytet.Worker.Unpaid.{crashed, serve-unpaid}

abbrev metadata : TetMetadata
metadata = record {
  tet_id = codes "callee";
  is_hibernating = true;
  snapshot_id = some (codes "frozen");
  wasm_bytes = none;
}

abbrev runtime : Runtime
runtime = record {
  display = λ e. [];
  execute_inner = λ mesh bytes req parent. Inner.error (engine_error []) mesh;
}

abbrev engine : WasmtimeSandbox
engine = record {
  require_payment = true;
  voucher_manager = Vouchers.new (9 ∷ []);
  snapshots = [];
  active_memories = [];
  mesh = Mesh.new;
}

abbrev worker : Worker
worker = record { sandbox = engine; tasks = []; replies = [] }

abbrev arrival : Arrival
arrival = record {
  now = 1000;
  fresh_id = codes "a";
  snapshot_id = codes "b";
  resolved = some metadata;
}

abbrev call_request : MeshCallRequest
call_request = record {
  target_alias = codes "callee";
  method = codes "sum";
  payload = 1 ∷ 2 ∷ [];
  fuel_to_transfer = 500;
  current_depth = 0;
  target_function = none;
}

abbrev to_string : TetError → List ℕ
to_string e = []

abbrev events : List (Event plain_crypto plain_hex runtime to_string)
unfolding execution_req
events =
    received arrival (MeshMessage.call call_request)
    ∷ received arrival (MeshMessage.fork (execution_req call_request metadata))
    ∷ scheduled arrival 0
    ∷ []

serve-unpaid_example :
    ((serve plain_crypto plain_hex runtime to_string worker events).sandbox ≡ engine)
    × ((serve plain_crypto plain_hex runtime to_string worker events).replies
        ≡ crashed economic_violation (codes "Missing Fuel Voucher") ∷ [])
unfolding events execution_req
serve-unpaid_example =
    serve-unpaid plain_crypto plain_hex runtime to_string worker events refl (tt, (refl, (tt, tt)))
      tt
