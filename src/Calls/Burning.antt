-- ===== src/Calls/Burning.antt =====
-- src/sandbox/host_api/helpers.rs and mod.rs: what a step of a call does to the fuel of its caller.
use trytet.Prelude.{ℕ, ◌≤◌, arith, List, Bool, true, false, if◌then◌else◌}
use trytet.Calls.{
  Caller, Run, returns, trap, panic, Call, bind, ◌>>=◌, get_memory, read_guest_bytes, send,
  deduct_fuel, answer,
}

-- The caller ends with at most so much fuel.
abbrev pub Within {ℓ} : {A : Type ℓ} → ℕ → Run A → Type 0
Within fuel (returns a c) = c.fuel ≤ fuel
Within fuel (trap message c) = c.fuel ≤ fuel
Within fuel panic = Unit

-- A call that keeps within any bound that its caller kept.
abbrev pub Burns {ℓ} : {A : Type ℓ} → Call A → Type 0
Burns m = (fuel : ℕ) (c : Caller) → c.fuel ≤ fuel → Within fuel (m c)

pub bind-Burns {ℓ κ} :
    {A : Type ℓ} {B : Type κ} (m : Call A) (f : A → Call B)
    → Burns m
    → ((a : A) → Burns (f a))
    → Burns (m >>= f)
bind-Burns {A} {B} m f p q fuel c h = after (m c) (p fuel c h)
  where
    after : (r : Run A) → Within fuel r → Within fuel (bind r f)
    after (returns a c') w = q a fuel c' w
    after (trap message c') w = w
    after panic w = w

pub if_Burns {ℓ} :
    {A : Type ℓ} (b : Bool) (m k : Call A) → Burns m → Burns k → Burns (if b then m else k)
if_Burns true m k p q = p
if_Burns false m k p q = q

pub get_memory-Burns : Burns get_memory
unfolding get_memory
get_memory-Burns fuel c h = ground arith

pub read_guest_bytes-Burns :
    (memory : List ℕ) (ptr len : ℕ) → Burns (read_guest_bytes memory ptr len)
unfolding read_guest_bytes
read_guest_bytes-Burns memory ptr len fuel c h = ground arith

pub answer-Burns : (p l : ℕ) (bytes : List ℕ) → Burns (answer p l bytes)
unfolding answer
answer-Burns p l bytes fuel c h = ground arith

pub send-Burns : (m : _) → Burns (send m)
unfolding send
send-Burns m fuel c h = ground arith

pub deduct_fuel-Burns : (n : ℕ) → Burns (deduct_fuel n)
unfolding deduct_fuel
deduct_fuel-Burns n fuel c h = ground arith
