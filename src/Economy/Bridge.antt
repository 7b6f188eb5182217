-- ===== src/Economy/Bridge.antt =====
-- src/economy/bridge.rs: `SettlementBridge`, which turns deposits on other chains into fuel. A chain
-- listener is a parameter: what the chain answers about a transaction.
pub mod Deposits
pub mod Tests
use trytet.Prelude.{ℕ, ◌*◌, ◌%◌, Option, none, some, List, [], bytes_eq, if◌then◌else◌}
use trytet.Prelude.HashMap
use trytet.Prelude.HashMap.{HashMap}
use trytet.Consensus.{DepositProposal, verify_deposit_majority}
use trytet.Economy.Crypto.{Hex}
use trytet.Economy.Registry.{VoucherRegistry, mint, u64_mod}

pub data BridgeError : Type 0 where
  tx_not_found quorum_failed discrepancy internal_error : BridgeError

pub data Result {ℓ} (A : Type ℓ) : Type ℓ where
  ok : A → Result A
  err : BridgeError → Result A

-- `ChainListener::verify_transaction`: the author's key in hexadecimal, and the amount.
abbrev pub ChainListener : Type 0
ChainListener = List ℕ → Result (List ℕ × ℕ)

pub record SettlementBridge : Type 0 where
  pub chain_connectors : HashMap (List ℕ) ChainListener
  pub registry : VoucherRegistry

pub register_listener : SettlementBridge → List ℕ → ChainListener → SettlementBridge
register_listener b chain listener = record b {
  chain_connectors = HashMap.insert chain listener b.chain_connectors;
}

-- The last step: the fuel is minted for the author.
pub credit_author : Hex → SettlementBridge → List ℕ → ℕ → Result ℕ × SettlementBridge
credit_author hex b author fuel = elim (hex.decode author) [
  | none ↦ (err internal_error, b)
  | some key ↦ (ok fuel, record b { registry = mint b.registry key fuel })
]

-- The proposal that `process_deposit` asks the quorum about.
pub proposal_for : List ℕ → ℕ → DepositProposal
proposal_for tx_hash fuel = record { tx_hash = tx_hash; amount = fuel; signatures = [] }

pub settle_deposit :
    Hex → SettlementBridge → List ℕ → ℕ → Result (List ℕ × ℕ) → Result ℕ × SettlementBridge
unfolding credit_author proposal_for
settle_deposit hex b tx_hash total_nodes (err e) = (err e, b)
settle_deposit hex b tx_hash total_nodes (ok (author, amount)) =
    let fuel = amount * 1000 % u64_mod in
    if verify_deposit_majority (proposal_for tx_hash fuel) total_nodes
    then credit_author hex b author fuel
    else (err quorum_failed, b)

pub process_deposit : Hex → SettlementBridge → List ℕ → List ℕ → ℕ → Result ℕ × SettlementBridge
unfolding settle_deposit
process_deposit hex b chain tx_hash total_nodes = elim (HashMap.lookup chain b.chain_connectors) [
  | none ↦ (err internal_error, b)
  | some listener ↦ settle_deposit hex b tx_hash total_nodes (listener tx_hash)
]
