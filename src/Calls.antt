-- ===== src/Calls.antt =====
-- src/sandbox/host_api: the functions that a guest calls in its host. A call is a function on the
-- state of its caller, with the fuel and the memory of the guest; it returns a value, or it traps
-- the guest with a message. An `i32` is held as its bits, and a fuel amount as the `u64` that it is
-- cast to. Texts are their bytes; `from_utf8_lossy` is a parameter where a call uses it.
pub mod Payments
pub mod Network
pub mod Models
pub mod Components
pub mod Sequences
pub mod Burning
pub mod NetworkFuel
pub mod ModelFuel
pub mod Fuel
pub mod Charges
pub mod Settlement
pub mod Tests
use trytet.Prelude.{
  ℕ, ◌+◌, ◌-◌, ◌%◌, ◌^◌, Bool, true, false, Option, none, some, List, [], ◌∷◌, ◌++◌, ltb,
  if◌then◌else◌, length, take, drop, codes,
}
use trytet.Engine.{AgentManifest, EgressPolicy, MeshCallRequest, TetExecutionRequest}
use trytet.Economy.Registry.{FuelTransaction}
use trytet.Fortress.{QuotaManager}
use trytet.Gateway.{Routes}
use trytet.Guest
use trytet.Guest.{Answer, validate_range, write_response}
use trytet.Mesh.{TetMesh}

pub record BridgeIntent : Type 0 where
  pub internal_fuel : ℕ
  pub external_asset : List ℕ
  pub target_address : List ℕ
  pub agent_signature : List ℕ

-- `HiveEconomyCommand`, as far as a guest sends it.
pub data EconomyCommand : Type 0 where
  transfer_credit : FuelTransaction → EconomyCommand
  bill_request : List ℕ → List ℕ → ℕ → EconomyCommand
  withdrawal_pending : BridgeIntent → EconomyCommand

pub data MeshMessage : Type 0 where
  call : MeshCallRequest → MeshMessage
  fork : TetExecutionRequest → MeshMessage
  economy_packet : EconomyCommand → MeshMessage
  reclaim : List ℕ → MeshMessage

-- `TetState` and the guest's own fuel and memory; `none` is a guest that exports no memory. Of the
-- shared parts there is what a call changes: the mesh with its channel, the quotas, the routes.
pub record Caller : Type 0 where
  pub memory : Option (List ℕ)
  pub fuel : ℕ
  pub fuel_to_burn_from_parent : ℕ
  pub call_stack_depth : ℕ
  pub manifest : AgentManifest
  pub migration_requested : Bool
  pub migration_target : Option (List ℕ)
  pub egress_policy : Option EgressPolicy
  pub tet_id : List ℕ
  pub tenant_id : List ℕ
  pub author_pubkey : List ℕ
  pub max_egress_bytes : ℕ
  pub quota_manager : QuotaManager
  pub gateway : Routes
  pub mesh : TetMesh
  pub channel_open : Bool
  pub sent : List MeshMessage

pub data Run {ℓ} (A : Type ℓ) : Type ℓ where
  returns : A → Caller → Run A
  trap : List ℕ → Caller → Run A
  panic : Run A

abbrev pub Call {ℓ} : Type ℓ → Type ℓ
Call A = Caller → Run A

infixl 5 ◌>>=◌ ◌>>◌
abbrev pub bind {ℓ κ} : {A : Type ℓ} {B : Type κ} → Run A → (A → Caller → Run B) → Run B
bind (returns a c) f = f a c
bind (trap message c) f = trap message c
bind panic f = panic

abbrev pub ◌>>=◌ {ℓ κ} : {A : Type ℓ} {B : Type κ} → Call A → (A → Call B) → Call B
◌>>=◌ m f c = bind (m c) f

abbrev pub ◌>>◌ {ℓ κ} : {A : Type ℓ} {B : Type κ} → Call A → Call B → Call B
m >> k = m >>= λ _. k

abbrev pub return {ℓ} : {A : Type ℓ} → A → Call A
return a c = returns a c

abbrev pub fail {ℓ} : {A : Type ℓ} → List ℕ → Call A
fail message c = trap message c

-- The state of the caller, and a change of it.
abbrev pub caller : Call Caller
caller c = returns c c

abbrev pub modify : (Caller → Caller) → Call (Unit {0})
modify f c = returns tt (f c)

unfoldable pub get_memory : Call (List ℕ)
get_memory c = elim c.memory [
  | none ↦ trap (codes "No memory exported") c
  | some memory ↦ returns memory c
]

unfoldable pub read_guest_bytes : List ℕ → ℕ → ℕ → Call (List ℕ)
unfolding validate_range
read_guest_bytes memory ptr len c = elim (validate_range (length memory) ptr len) [
  | none ↦ trap (codes "OOB Guest Memory Access") c
  | some (start, end) ↦ returns (take (end - start) (drop start memory)) c
]

-- `get_memory` and `write_response`.
unfoldable pub answer : ℕ → ℕ → List ℕ → Call ℕ
unfolding get_memory write_response
answer out_ptr out_len_ptr bytes = do
  memory ← get_memory
  λ c. elim (write_response memory out_ptr out_len_ptr bytes) [
    | Answer.trap ↦ trap (codes "OOB Guest Memory Access") c
    | Answer.panic ↦ panic
    | Answer.returns code after ↦ returns code (record c { memory = some after })
  ]

abbrev pub get_fuel : Call ℕ
get_fuel c = returns c.fuel c

abbrev pub set_fuel : ℕ → Call (Unit {0})
set_fuel fuel = modify (λ c. record c { fuel = fuel })

-- A message to the mesh; false where its channel is closed.
unfoldable pub send : MeshMessage → Call Bool
send message c =
    if c.channel_open
    then returns true (record c { sent = c.sent ++ message ∷ [] })
    else returns false c

-- `deduct_fuel`: what is missing is let off.
unfoldable pub deduct_fuel : ℕ → Call (Unit {0})
deduct_fuel amount = do
  current ← get_fuel
  if ltb current amount then set_fuel 0 else set_fuel (current - amount)
