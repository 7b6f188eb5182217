-- ===== src/Economy/Registry.antt =====
-- src/economy/registry.rs: `VoucherRegistry`, the balances of all accounts. A `u64` addition wraps,
-- as it does in a release build. `transfer` holds the lock on the nonces throughout, and so it is
-- one step.
pub mod Accounts
pub mod Supply
pub mod Effect
pub mod Replay
pub mod Payload
pub mod Tests
use trytet.Prelude.{
  ℕ, ◌+◌, ◌-◌, ◌%◌, ◌^◌, Option, none, some, List, [], ◌∷◌, ◌++◌, ltb, contains, nat_eq, bytes_eq,
  if◌then◌else◌,
}
use trytet.Prelude.HashMap
use trytet.Prelude.HashMap.{HashMap}
use trytet.Prelude.Bytes.{be_bytes}
use trytet.Economy.Crypto.{Ed25519}

pub data EconomyError : Type 0 where
  insufficient_funds invalid_signature replay_attack invalid_format : EconomyError

pub data Outcome : Type 0 where
  ok : Outcome
  err : EconomyError → Outcome

pub record FuelTransaction : Type 0 where
  pub from : List ℕ
  pub to : List ℕ
  pub amount : ℕ
  pub nonce : ℕ
  pub signature : List ℕ

pub record VoucherRegistry : Type 0 where
  pub balances : HashMap (List ℕ) ℕ
  pub audit_log : List FuelTransaction
  pub used_nonces : List ℕ

abbrev pub new : VoucherRegistry
new = record { balances = []; audit_log = []; used_nonces = [] }

abbrev pub u64_mod : ℕ
u64_mod = 2 ^ 64

-- The balance of an account; an account that was never named has none.
abbrev pub balance : List ℕ → VoucherRegistry → ℕ
balance k r = HashMap.value_of k r.balances

-- The fuel in all accounts.
abbrev pub supply : VoucherRegistry → ℕ
supply r = HashMap.total r.balances

-- `*entry(to).or_insert(0) += amount`
pub credit : List ℕ → ℕ → HashMap (List ℕ) ℕ → HashMap (List ℕ) ℕ
credit to amount m =
    HashMap.insert to ((HashMap.value_of to m + amount) % u64_mod) (HashMap.or_insert to 0 m)

pub mint : VoucherRegistry → List ℕ → ℕ → VoucherRegistry
mint r to amount = record r { balances = credit to amount r.balances }

unfoldable pub signed_data : FuelTransaction → List ℕ
signed_data tx = tx.from ++ (tx.to ++ (be_bytes 8 tx.amount ++ be_bytes 8 tx.nonce))

-- The debit, the credit and the audit entry of a funded transaction.
pub carry_out : VoucherRegistry → FuelTransaction → VoucherRegistry
carry_out r tx = record r {
  balances = credit tx.to tx.amount (
      HashMap.insert tx.from (balance tx.from r - tx.amount)
        (HashMap.or_insert tx.from 0 r.balances));
  audit_log = r.audit_log ++ tx ∷ [];
}

-- Steps 3 and 4 of `transfer`. The sender's account exists from here on, funded or not.
unfoldable pub settle : VoucherRegistry → FuelTransaction → Outcome × VoucherRegistry
unfolding carry_out
settle r tx =
    if ltb (balance tx.from r) tx.amount
    then (err insufficient_funds, record r { balances = HashMap.or_insert tx.from 0 r.balances })
    else (ok, carry_out r tx)

abbrev pub record_nonce : VoucherRegistry → ℕ → VoucherRegistry
record_nonce r nonce = record r { used_nonces = nonce ∷ r.used_nonces }

module _ (crypto : Ed25519) where
  open crypto use {verifying_key, signature_from_slice, verify}

  -- Steps 2 to 4: the nonce is recorded already.
  unfoldable pub verify_and_settle : VoucherRegistry → FuelTransaction → Outcome × VoucherRegistry
  verify_and_settle r tx = elim (verifying_key tx.from) [
    | none ↦ (err invalid_format, r)
    | some key ↦ elim (signature_from_slice tx.signature) [
      | none ↦ (err invalid_format, r)
      | some sig ↦
          if verify key (signed_data tx) sig then settle r tx else (err invalid_signature, r)
    ]
  ]

  -- A failed check gives the nonce no second life: it is recorded before anything else.
  unfoldable pub transfer : VoucherRegistry → FuelTransaction → Outcome × VoucherRegistry
  unfolding verify_and_settle
  transfer r tx =
      if contains tx.nonce r.used_nonces
      then (err replay_attack, r)
      else verify_and_settle (record_nonce r tx.nonce) tx

-- What clients do to a registry.
pub data Operation : Type 0 where
  mints : List ℕ → ℕ → Operation
  transfers : FuelTransaction → Operation

pub step : Ed25519 → VoucherRegistry → Operation → VoucherRegistry
step crypto r (mints to amount) = mint r to amount
step crypto r (transfers tx) = (transfer crypto r tx).1

pub run : Ed25519 → VoucherRegistry → List Operation → VoucherRegistry
run crypto r [] = r
run crypto r (op ∷ ops) = run crypto (step crypto r op) ops
