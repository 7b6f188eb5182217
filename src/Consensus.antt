-- ===== src/Consensus.antt =====
-- src/consensus.rs: the majority rule of the hive. `total_nodes` and the number of signatures do not
-- wrap.
pub mod Quorum
pub mod Tests
use trytet.Prelude.{ℕ, ◌+◌, ◌/◌, Bool, List, length, leb}

pub record NodeSignature : Type 0 where
  pub node_id : List ℕ
  pub sig_bytes : List ℕ

pub record AliasProposal : Type 0 where
  pub alias_hash : List ℕ
  pub owner_pubkey : List ℕ
  pub signatures : List NodeSignature

pub record DepositProposal : Type 0 where
  pub tx_hash : List ℕ
  pub amount : ℕ
  pub signatures : List NodeSignature

abbrev pub required : ℕ → ℕ
required total_nodes = total_nodes / 2 + 1

unfoldable pub verify_majority : AliasProposal → ℕ → Bool
verify_majority proposal total_nodes = leb (required total_nodes) (length proposal.signatures)

unfoldable pub verify_deposit_majority : DepositProposal → ℕ → Bool
verify_deposit_majority proposal total_nodes =
    leb (required total_nodes) (length proposal.signatures)
