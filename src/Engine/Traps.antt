-- ===== src/Engine/Traps.antt =====
-- src/sandbox/sandbox_wasmtime.rs: how the traps of host calls are classified.
use trytet.Prelude.{ℕ, ◌≡◌, arith, List, ◌++◌, codes, contains_text-append}
use trytet.Engine.{out_of_fuel, classify_trap}

-- A message with "epoch" in it.
pub classify_trap-epoch :
    (before after : List ℕ) → classify_trap (before ++ (codes "epoch" ++ after)) ≡ out_of_fuel
unfolding classify_trap
classify_trap-epoch before after =
    rw (contains_text-append before (codes "epoch") after) (ground arith)
