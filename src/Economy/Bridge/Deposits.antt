-- ===== src/Economy/Bridge/Deposits.antt =====
-- No deposit goes through: the bridge submits each proposal with no signatures.
use trytet.Prelude.{ℕ, ◌≡◌, refl, none, some, List, arith, bytes_eq, Option-cases, inl, inr}
use trytet.Prelude.HashMap
use trytet.Consensus.{verify_deposit_majority}
use trytet.Economy.Crypto.{Hex}
use trytet.Economy.Bridge.{
  BridgeError, internal_error, quorum_failed, Result, ok, err, SettlementBridge, settle_deposit,
  process_deposit,
}

abbrev pub after_listener : Result (List ℕ × ℕ) → BridgeError
after_listener (ok _) = quorum_failed
after_listener (err e) = e

-- The error with which a deposit ends: no listener, the listener's own error, or a failed quorum.
abbrev pub refusal : SettlementBridge → List ℕ → List ℕ → BridgeError
refusal b chain tx_hash = elim (HashMap.lookup chain b.chain_connectors) [
  | none ↦ internal_error
  | some listener ↦ after_listener (listener tx_hash)
]

settle_deposit-refused :
    (hex : Hex) (b : SettlementBridge) (tx_hash : List ℕ) (total_nodes : ℕ)
    (r : Result (List ℕ × ℕ))
    → settle_deposit hex b tx_hash total_nodes r ≡ (err (after_listener r), b)
unfolding settle_deposit verify_deposit_majority
settle_deposit-refused hex b tx_hash total_nodes (err e) = refl
settle_deposit-refused hex b tx_hash total_nodes (ok (author, amount)) = ground arith

-- For every bridge, chain, transaction and number of nodes a deposit ends in an error and mints
-- nothing: also where the chain confirms the transaction, the quorum fails.
pub process_deposit-refused :
    (hex : Hex) (b : SettlementBridge) (chain tx_hash : List ℕ) (total_nodes : ℕ)
    → process_deposit hex b chain tx_hash total_nodes ≡ (err (refusal b chain tx_hash), b)
unfolding process_deposit
process_deposit-refused hex b chain tx_hash total_nodes =
    elim (Option-cases (HashMap.lookup chain b.chain_connectors)) [
      | inl missing ↦ rw (missing, process_deposit, refusal) refl
      | inr (listener, found) ↦
          rw (found, process_deposit, refusal)
            (settle_deposit-refused hex b tx_hash total_nodes (listener tx_hash))
    ]
