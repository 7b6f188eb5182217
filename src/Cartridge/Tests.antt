-- ===== src/Cartridge/Tests.antt =====
-- Tests of the outcomes of a cartridge.
use trytet.Prelude.{◌≡◌, refl, codes}
use trytet.Cartridge.{fuel_exhausted, memory_exceeded, execution_error, classify_cartridge_trap}

-- A trap of the cartridge's own reports that it used no fuel.
trap_is_free :
    classify_cartridge_trap (codes "wasm trap: unreachable")
    ≡ execution_error (codes "wasm trap: unreachable") 0
unfolding classify_cartridge_trap
trap_is_free = refl

fuel_trap : classify_cartridge_trap (codes "all fuel consumed by WebAssembly") ≡ fuel_exhausted
unfolding classify_cartridge_trap
fuel_trap = refl

memory_trap : classify_cartridge_trap (codes "memory grow refused: limit") ≡ memory_exceeded
unfolding classify_cartridge_trap
memory_trap = refl
