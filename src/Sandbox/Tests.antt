-- ===== src/Sandbox/Tests.antt =====
-- Witnesses and tests of the engine: three requests, two of them with one voucher.
use trytet.Prelude.{
  ℕ, ◌≡◌, refl, true, none, some, List, [], ◌∷◌, All, Distinct, contains, bytes_eq, replicate,
}
use trytet.Prelude.Bytes.{be_bytes}
use trytet.Economy.Examples.{plain_crypto, plain_hex}
use trytet.Economy.Vouchers
use trytet.Economy.Vouchers.{FuelVoucher, signed_data}
use trytet.Engine.{success, TetExecutionRequest}
use trytet.Mesh
use trytet.Sandbox.{WasmtimeSandbox, Runtime, Inner}
use trytet.Sandbox.Payment.{Attempt, Funded, Unused, nonces, runs, runs-Paid}

abbrev unsigned : FuelVoucher
unsigned = record {
  agent_id = replicate 64 1;
  provider_id = 9 ∷ [];
  fuel_limit = 5000;
  expiry_timestamp = 100;
  nonce = 4 ∷ 2 ∷ [];
  signature = [];
}

abbrev voucher : FuelVoucher
unfolding signed_data
voucher = record unsigned { signature = signed_data unsigned }

abbrev engine : WasmtimeSandbox
engine = record {
  require_payment = true;
  voucher_manager = Vouchers.new (9 ∷ []);
  snapshots = [];
  active_memories = [];
  mesh = Mesh.new;
}

abbrev runtime : Runtime
runtime = record {
  display = λ e. [];
  execute_inner = λ mesh wasm req parent.
      Inner.result
        (record {
          tet_id = 1 ∷ [];
          status = success;
          telemetry = record { stdout_lines = []; stderr_lines = []; memory_used_kb = 0 };
          execution_duration_us = 0;
          fuel_consumed = req.allocated_fuel;
          mutated_files = [];
          migrated_to = none;
        })
        (record {
          memory_bytes = [];
          wasm_bytes = wasm;
          fs_tarball = [];
          vector_idx = [];
          inference_state = [];
        })
        mesh;
}

abbrev request : TetExecutionRequest
request = record {
  payload = some (0 ∷ []);
  alias = none;
  env = [];
  injected_files = [];
  allocated_fuel = 1000000;
  max_memory_mb = 16;
  parent_snapshot_id = none;
  target_function = none;
  call_depth = 0;
  voucher = none;
  manifest = none;
  egress_policy = none;
}

abbrev paid : TetExecutionRequest
paid = record request { voucher = some voucher }

abbrev attempt : ℕ → TetExecutionRequest → Attempt
attempt now req = record {
  now = now;
  request = req;
  fresh_id = now ∷ [];
  snapshot_id = 0 ∷ now ∷ [];
}

abbrev attempts : List Attempt
attempts = attempt 50 request ∷ attempt 51 paid ∷ attempt 52 paid ∷ []

runs-Paid_example :
    All Funded (runs plain_crypto plain_hex runtime engine attempts)
    × All (Unused engine) (nonces (runs plain_crypto plain_hex runtime engine attempts))
    × Distinct (nonces (runs plain_crypto plain_hex runtime engine attempts))
runs-Paid_example = runs-Paid plain_crypto plain_hex runtime engine attempts refl

-- One of the three is run, on the fuel of its voucher.
one_run :
    runs plain_crypto plain_hex runtime engine attempts ≡ record paid { allocated_fuel = 5000 } ∷ []
unfolding runs Vouchers.new voucher be_bytes contains
one_run = refl
