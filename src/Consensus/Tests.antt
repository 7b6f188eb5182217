-- ===== src/Consensus/Tests.antt =====
-- Witnesses of the majority rule, in a hive of three nodes.
use trytet.Prelude.{ℕ, ◌≡◌, refl, true, List, [], ◌∷◌, bytes_eq, nat_eq, contains}
use trytet.Consensus.{NodeSignature, AliasProposal, verify_majority}
use trytet.Consensus.Quorum.{signers, verify_majority-meet}

abbrev hive : List (List ℕ)
hive = (1 ∷ []) ∷ (2 ∷ []) ∷ (3 ∷ []) ∷ []

abbrev sig_of : ℕ → NodeSignature
sig_of n = record { node_id = n ∷ []; sig_bytes = [] }

abbrev by_two : ℕ → ℕ → AliasProposal
by_two m n = record { alias_hash = []; owner_pubkey = []; signatures = sig_of m ∷ sig_of n ∷ [] }

verify_majority-meet_example :
    (node : List ℕ) × (contains node (signers (by_two 1 2)) ≡ true)
    × (contains node (signers (by_two 2 3)) ≡ true)
unfolding contains verify_majority
verify_majority-meet_example =
    verify_majority-meet hive (by_two 1 2) (by_two 2 3)
      (record { distinct = (refl, (refl, tt)); members = (refl, (refl, tt)) })
      (record { distinct = (refl, (refl, tt)); members = (refl, (refl, tt)) }) refl refl
