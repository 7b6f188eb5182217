-- ===== src/Calls/Components.antt =====
-- src/sandbox/host_api/cartridge_invoke.rs: a guest runs a cartridge on part of its own fuel.
use trytet.Prelude.{ℕ, ◌-◌, ltb, if◌then◌else◌}
use trytet.Cartridge
use trytet.Cartridge.{Wasm, InvocationMetrics, CartridgeError}
use trytet.Mesh.{u64_add}
use trytet.Calls.{Call, ◌>>=◌, ◌>>◌, return, get_memory, answer, get_fuel, set_fuel}
use trytet.Calls.Payments.{Signing, read_guest_str}

unfoldable pub refund_fuel : ℕ → ℕ → Call (Unit {0})
refund_fuel given consumed =
    if ltb 0 (given - consumed)
    then (do current ← get_fuel; set_fuel (u64_add current (given - consumed)))
    else return tt

-- What the guest gets back, and its code, by the outcome of the run.
unfoldable pub settle_invoked : ℕ → ℕ → ℕ → Cartridge.Invoked → Call ℕ
unfolding refund_fuel answer
settle_invoked given out_ptr out_len_ptr (Cartridge.Invoked.ok output metrics) = do
  refund_fuel given metrics.fuel_consumed
  answer out_ptr out_len_ptr output
settle_invoked given out_ptr out_len_ptr (Cartridge.Invoked.err CartridgeError.fuel_exhausted) =
    return 1
settle_invoked given out_ptr out_len_ptr (Cartridge.Invoked.err CartridgeError.memory_exceeded) =
    return 1
settle_invoked given out_ptr out_len_ptr
      (Cartridge.Invoked.err (CartridgeError.compilation_failed e)) =
    do refund_fuel given 0; return 3
settle_invoked given out_ptr out_len_ptr
      (Cartridge.Invoked.err (CartridgeError.interface_mismatch e)) =
    do refund_fuel given 0; return 4
settle_invoked given out_ptr out_len_ptr
      (Cartridge.Invoked.err (CartridgeError.execution_error e consumed)) =
    do refund_fuel given consumed; return 5
settle_invoked given out_ptr out_len_ptr (Cartridge.Invoked.err (CartridgeError.registry_error e)) =
    do refund_fuel given 0; return 6

module _ (signing : Signing) (wasm : Wasm) where
  unfoldable pub invoke_component : Cartridge.Cache wasm → ℕ → ℕ → ℕ → ℕ → ℕ → ℕ → ℕ → ℕ → Call ℕ
  unfolding get_memory read_guest_str Cartridge.invoke settle_invoked
  invoke_component cache duration_us cid_ptr cid_len payload_ptr payload_len fuel out_ptr
        out_len_ptr =
      do
        memory ← get_memory
        component_id ← read_guest_str signing memory cid_ptr cid_len
        payload ← read_guest_str signing memory payload_ptr payload_len
        max_fuel ← get_fuel
        if ltb max_fuel fuel then return 1 else do
          set_fuel (max_fuel - fuel)
          settle_invoked fuel out_ptr out_len_ptr
              (Cartridge.invoke wasm cache component_id payload fuel 512 duration_us)
