-- ===== src/Api/Tests.antt =====
-- Witnesses and tests of the HTTP interface: a node with one key and one tet in memory.
use trytet.Prelude.{
  ℕ, ◌≡◌, refl, true, false, Option, none, some, List, [], ◌∷◌, All, codes, bytes_eq, replicate,
}
use trytet.Prelude.HashMap
use trytet.Prelude.Bytes.{be_bytes}
use trytet.Api.{left_out, panicked}
use trytet.Api.{AppState, create_key, export, answer, result, Moment, topup_req}
use trytet.Api.Handlers.{Parts, handle_topup}
use trytet.Api.Funding.{handle_topup-funded}
use trytet.Api.Intruders.{Attempt, attempts, refusal, attempts-Intrudes}
use trytet.Auth
use trytet.Economy.Examples.{plain_crypto, plain_hex}
use trytet.Economy.Vouchers
use trytet.Economy.Vouchers.{FuelVoucher, VoucherManager, signed_data, verify_and_claim}
use trytet.Engine.{success, AgentManifest, TetExecutionRequest}
use trytet.Hive.{SnapshotPayload}
use trytet.Hive.Examples
use trytet.Hive.Examples.{bincode}
use trytet.Mesh
use trytet.Sandbox.{
  WasmtimeSandbox, Runtime, Inner, TetExecutionResult, active_memory, default_manifest,
}

abbrev memory : SnapshotPayload
memory = Examples.snapshot (7 ∷ [])

abbrev ended : TetExecutionRequest → TetExecutionResult
ended req = record {
  tet_id = codes "id";
  status = success;
  telemetry = record { stdout_lines = []; stderr_lines = []; memory_used_kb = 0 };
  execution_duration_us = 0;
  fuel_consumed = req.allocated_fuel;
  mutated_files = [];
  migrated_to = none;
}

abbrev runtime : Runtime
runtime = record {
  display = λ e. [];
  execute_inner = λ mesh wasm req parent. Inner.result (ended req) memory mesh;
}

abbrev parts : Parts
parts = record {
  crypto = plain_crypto;
  hex = plain_hex;
  runtime = runtime;
  library = record { digest = λ text. text; to_str = λ value. some value };
  bincode = bincode;
  to_string = λ e. [];
  teleport_text = λ e. [];
}

abbrev unsigned : FuelVoucher
unsigned = record {
  agent_id = replicate 64 1;
  provider_id = codes "node";
  fuel_limit = 5000;
  expiry_timestamp = 100;
  nonce = 4 ∷ 2 ∷ [];
  signature = [];
}

abbrev voucher : FuelVoucher
unfolding signed_data
voucher = record unsigned { signature = signed_data unsigned }

-- A tet whose manifest lets it leave.
abbrev roaming : AgentManifest
unfolding default_manifest
roaming =
    let m = default_manifest (codes "tet") in
    record m { permissions = record m.permissions { can_teleport = true } }

abbrev engine : WasmtimeSandbox
unfolding Vouchers.new
engine = record {
  require_payment = true;
  voucher_manager = Vouchers.new (codes "node");
  snapshots = [];
  active_memories = (codes "tet", (memory, roaming)) ∷ [];
  mesh = Mesh.new;
}

abbrev node : AppState
node = record {
  sandbox = engine;
  registry = [];
  hive = none;
  ingress_routes = [];
  key_store = record {
    keys =
        (
          codes "tet_1",
          record {
            prefix = codes "tet_1";
            hash = codes "tet_1";
            label = [];
            created = 1;
            active = true;
          },
        )
        ∷ [];
    usage = [];
  };
}

abbrev moment : Moment
moment = record {
  now = 50;
  resolved = none;
  fresh_id = codes "fresh";
  new_id = codes "first";
  second_id = codes "second";
  uuid = codes "2";
  key_order = codes "tet_1" ∷ [];
  surroundings = record {
    now = 50;
    resolved = none;
    resolved_again = none;
    snapshot_id = codes "third";
    delivers = λ i. true;
    push_state = none;
    wallet_loads = true;
  };
}

abbrev claimed : VoucherManager
claimed = record { used_nonces = (4 ∷ 2 ∷ []) ∷ []; expected_provider_id = codes "node" }

voucher_claimed :
    verify_and_claim plain_crypto plain_hex 50 engine.voucher_manager voucher
    ≡ (Vouchers.Claim.ok, claimed)
unfolding voucher engine verify_and_claim be_bytes trytet.Prelude.contains
voucher_claimed = refl

handle_topup-funded_example :
    ((handle_topup parts moment node (codes "tet") voucher).0
      ≡ answer 200 (result (ended (topup_req (codes "tet") voucher (codes "first")))))
    × ((handle_topup parts moment node (codes "tet") voucher).1.sandbox.voucher_manager ≡ claimed)
    × (HashMap.lookup
          (codes "id")
          (handle_topup parts moment node (codes "tet") voucher).1.sandbox.active_memories
        ≡ some (memory, default_manifest (codes "tet")))
unfolding topup_req active_memory HashMap.lookup engine
handle_topup-funded_example =
    handle_topup-funded parts moment node (codes "tet") voucher memory memory roaming claimed
      (ended (topup_req (codes "tet") voucher (codes "first"))) Mesh.new refl refl voucher_claimed
      refl

abbrev tries : List Attempt
tries =
    record { moment = moment; headers = []; call = create_key (codes "mine") }
    ∷ record {
      moment = moment;
      headers = (codes "x-api-key", codes "tet_9") ∷ [];
      call = export (codes "first");
    }
    ∷ record {
      moment = moment;
      headers = [];
      call = left_out (λ s. (panicked, record s { sandbox = record s.sandbox { snapshots = [] } }));
    }
    ∷ []

attempts-Intrudes_example :
    All (λ r. r ≡ refusal) (attempts parts node tries).0 × ((attempts parts node tries).1 ≡ node)
unfolding Auth.has_keys Auth.extract_api_key HashMap.lookup
attempts-Intrudes_example = attempts-Intrudes parts node tries refl (refl, (refl, (refl, tt)))
