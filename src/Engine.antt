-- ===== src/Engine.antt =====
-- The types that the parts of the engine exchange, of src/models.rs, src/models/manifest.rs and
-- src/oracle.rs, and the classification of traps of src/sandbox/sandbox_wasmtime.rs. A text is its
-- bytes.
pub mod Traps
pub mod Tests
use trytet.Prelude.{
  ℕ, ◌+◌, ◌*◌, ◌-◌, ◌^◌, Bool, true, false, Option, none, some, List, [], ◌∷◌, ◌&&◌, ◌||◌, ltb, leb,
  if◌then◌else◌, drop, codes, contains_text, find_text,
}
use trytet.Prelude.HashMap.{HashMap}
use trytet.Economy.Vouchers.{FuelVoucher}

pub data CrashType : Type 0 where
  unreachable security_violation memory_out_of_bounds integer_divide_by_zero : CrashType
  indirect_call_type_mismatch stack_overflow null_reference unknown_trap : CrashType
  economic_violation engine_spawn alias_not_found mesh_execution_failed : CrashType

pub record CrashReport : Type 0 where
  pub error_type : CrashType
  pub instruction_offset : Option ℕ
  pub message : List ℕ

pub data ExecutionStatus : Type 0 where
  success out_of_fuel memory_exceeded : ExecutionStatus
  crash : CrashReport → ExecutionStatus
  migrated suspended : ExecutionStatus

-- `status == ExecutionStatus::Success`
abbrev pub is_success : ExecutionStatus → Bool
is_success success = true
is_success _ = false

pub record MeshCallRequest : Type 0 where
  pub target_alias : List ℕ
  pub method : List ℕ
  pub payload : List ℕ
  pub fuel_to_transfer : ℕ
  pub current_depth : ℕ
  pub target_function : Option (List ℕ)

pub record MeshCallResponse : Type 0 where
  pub status : ExecutionStatus
  pub return_data : List ℕ
  pub fuel_used : ℕ

pub record Metadata : Type 0 where
  pub name : List ℕ
  pub version : List ℕ
  pub author_pubkey : Option (List ℕ)

pub record ResourceConstraints : Type 0 where
  pub max_memory_pages : ℕ
  pub fuel_limit : ℕ
  pub max_egress_bytes : ℕ

pub record CapabilityPolicy : Type 0 where
  pub can_egress : List (List ℕ)
  pub can_persist : Bool
  pub can_teleport : Bool
  pub is_genesis_factory : Bool
  pub can_fork : Bool

pub record AgentManifest : Type 0 where
  pub metadata : Metadata
  pub constraints : ResourceConstraints
  pub permissions : CapabilityPolicy

pub record EgressPolicy : Type 0 where
  pub allowed_domains : List (List ℕ)
  pub max_daily_bytes : ℕ
  pub require_https : Bool

pub record TetExecutionRequest : Type 0 where
  pub payload : Option (List ℕ)
  pub alias : Option (List ℕ)
  pub env : HashMap (List ℕ) (List ℕ)
  pub injected_files : HashMap (List ℕ) (List ℕ)
  pub allocated_fuel : ℕ
  pub max_memory_mb : ℕ
  pub parent_snapshot_id : Option (List ℕ)
  pub target_function : Option (List ℕ)
  pub call_depth : ℕ
  pub voucher : Option FuelVoucher
  pub manifest : Option AgentManifest
  pub egress_policy : Option EgressPolicy

unfoldable pub is_ascii_digit : ℕ → Bool
is_ascii_digit c = leb 48 c && leb c 57

unfoldable pub take_digits : List ℕ → List ℕ
unfolding is_ascii_digit
take_digits [] = []
take_digits (c ∷ text) = if is_ascii_digit c then c ∷ take_digits text else []

unfoldable pub digits_value : ℕ → List ℕ → ℕ
digits_value n [] = n
digits_value n (c ∷ text) = digits_value (n * 10 + (c - 48)) text

-- `parse::<usize>().ok()` of a text of digits.
unfoldable pub parse_digits : List ℕ → Option ℕ
unfolding digits_value
parse_digits [] = none
parse_digits (c ∷ text) =
    let n = digits_value 0 (c ∷ text) in if ltb n (2 ^ 64) then some n else none

unfoldable pub extract_instruction_offset : List ℕ → Option ℕ
unfolding find_text take_digits parse_digits
extract_instruction_offset message = elim (find_text message (codes "offset ")) [
  | none ↦ none
  | some idx ↦ parse_digits (take_digits (drop (idx + 7) message))
]

unfoldable pub trap_type : List ℕ → CrashType
unfolding contains_text
trap_type message =
    let has = contains_text message in
    if has (codes "unreachable")
    then unreachable
    else if has (codes "Security Violation")
    then security_violation
    else if has (codes "out of bounds")
    then memory_out_of_bounds
    else if has (codes "divide") || has (codes "division")
    then integer_divide_by_zero
    else if has (codes "indirect call")
    then indirect_call_type_mismatch
    else if has (codes "stack overflow")
    then stack_overflow
    else if has (codes "null")
    then null_reference
    else unknown_trap

-- The message is that of the error.
unfoldable pub classify_trap : List ℕ → ExecutionStatus
unfolding contains_text trap_type extract_instruction_offset
classify_trap message =
    let has = contains_text message in
    if has (codes "out of fuel")
      || has (codes "fuel consumed")
      || has (codes "epoch")
      || has (codes "interrupt")
    then out_of_fuel
    else if has (codes "memory") && (has (codes "limit") || has (codes "maximum"))
    then memory_exceeded
    else if has (codes "proc_exit") && (has (codes "exit status 0") || has (codes "with code 0"))
    then success
    else if has (codes "TET_SUSPEND")
    then suspended
    else crash (record {
      error_type = trap_type message;
      instruction_offset = extract_instruction_offset message;
      message = message;
    })
