-- ===== src/Calls/Charges.antt =====
-- src/sandbox/host_api/cartridge_invoke.rs and src/cartridge.rs: what a guest pays for a cartridge.
use trytet.Prelude.{ℕ, ◌<◌, ◌+◌, ◌-◌, ◌^◌, ◌≡◌, arith, min}
use trytet.Cartridge
use trytet.Cartridge.{Wasm, CartridgeError}
use trytet.Calls.{Caller, Run, returns, trap, panic}
use trytet.Calls.Components.{settle_invoked}

-- The price of a run on so much fuel: all of it where a limit was met, what the run reports where
-- the cartridge ran, and nothing where it did not.
abbrev pub charge : ℕ → Cartridge.Invoked → ℕ
charge given (Cartridge.Invoked.ok output metrics) = min given metrics.fuel_consumed
charge given (Cartridge.Invoked.err CartridgeError.fuel_exhausted) = given
charge given (Cartridge.Invoked.err CartridgeError.memory_exceeded) = given
charge given (Cartridge.Invoked.err (CartridgeError.execution_error e consumed)) =
    min given consumed
charge given (Cartridge.Invoked.err (CartridgeError.compilation_failed e)) = 0
charge given (Cartridge.Invoked.err (CartridgeError.interface_mismatch e)) = 0
charge given (Cartridge.Invoked.err (CartridgeError.registry_error e)) = 0

-- The caller ends with this fuel, unless the host panics.
abbrev pub Leaves {ℓ} : {A : Type ℓ} → ℕ → Run A → Type 0
Leaves fuel (returns a c) = c.fuel ≡ fuel
Leaves fuel (trap message c) = c.fuel ≡ fuel
Leaves fuel panic = Unit

-- A caller that has put `given` aside for a cartridge, of fuel that fits a `u64`, ends with all that
-- it had but the price of the run, whatever became of the writing of its output, unless the host
-- panics. The price is `given` where a limit of the run was met, at most what the run reports where
-- the cartridge failed or succeeded otherwise, and nothing where it was not run.
pub settle_invoked-Charges :
    (given p l : ℕ) (outcome : Cartridge.Invoked) (c : Caller)
    → c.fuel + given < 2 ^ 64
    → Leaves (c.fuel + given - charge given outcome) (settle_invoked given p l outcome c)
unfolding settle_invoked
settle_invoked-Charges given p l (Cartridge.Invoked.ok output metrics) c h = ground arith
settle_invoked-Charges given p l (Cartridge.Invoked.err CartridgeError.fuel_exhausted) c h =
    ground arith
settle_invoked-Charges given p l (Cartridge.Invoked.err CartridgeError.memory_exceeded) c h =
    ground arith
settle_invoked-Charges given p l (Cartridge.Invoked.err (CartridgeError.execution_error e consumed))
      c h =
    ground arith
settle_invoked-Charges given p l (Cartridge.Invoked.err (CartridgeError.compilation_failed e)) c h =
    ground arith
settle_invoked-Charges given p l (Cartridge.Invoked.err (CartridgeError.interface_mismatch e)) c h =
    ground arith
settle_invoked-Charges given p l (Cartridge.Invoked.err (CartridgeError.registry_error e)) c h =
    ground arith
