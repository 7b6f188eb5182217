-- ===== src/Consensus/Quorum.antt =====
-- What the majority rule gives, and what it leaves to the callers.
use trytet.Prelude.{
  ℕ, ◌*◌, ◌<◌, ◌≡◌, refl, true, List, [], ◌∷◌, map, arith, bytes_eq, leb→le, le→leb, zero, suc, ap,
  replicate, length-replicate, contains, Distinct, length, ◌↔◌,
}
use trytet.Prelude.Sets.{Within, pigeonhole}
use trytet.Consensus.{NodeSignature, AliasProposal, required, verify_majority}

abbrev pub signers : AliasProposal → List (List ℕ)
signers p = map (λ (s : NodeSignature). s.node_id) p.signatures

-- The signers of a proposal are different nodes of the hive. The rule does not check this.
pub record IsHonest (nodes : List (List ℕ)) (p : AliasProposal) : Type 0 where
  pub distinct : Distinct (signers p)
  pub members : Within (signers p) nodes

length-signatures :
    (sigs : List NodeSignature) → length (map (λ (s : NodeSignature). s.node_id) sigs) ≡ length sigs
length-signatures [] = refl
length-signatures (s ∷ sigs) = omega (arith, length-signatures sigs)

-- Any two proposals that pass the majority rule of the same hive, and whose signers are different
-- nodes of it, have a signer in common.
pub verify_majority-meet :
    (nodes : List (List ℕ)) (p q : AliasProposal)
    → IsHonest nodes p
    → IsHonest nodes q
    → verify_majority p (length nodes) ≡ true
    → verify_majority q (length nodes) ≡ true
    → (node : List ℕ) × (contains node (signers p) ≡ true) × (contains node (signers q) ≡ true)
unfolding verify_majority
verify_majority-meet nodes p q hp hq vp vq =
    pigeonhole (signers p) (signers q) nodes hp.distinct hq.distinct hp.members hq.members (
      omega (
        arith,
        leb→le (required (length nodes)) (length p.signatures) vp,
        leb→le (required (length nodes)) (length q.signatures) vq,
        length-signatures p.signatures,
        length-signatures q.signatures,
      ))

map-replicate {ℓ κ} :
    {A : Type ℓ} {B : Type κ} (f : A → B) (n : ℕ) (a : A)
    → map f (replicate n a) ≡ replicate n (f a)
map-replicate f zero a = refl
map-replicate f (suc n) a = ap (◌∷◌ (f a)) (map-replicate f n a)

-- A proposal that one node signed `n` times.
abbrev pub signed_by : NodeSignature → ℕ → AliasProposal
signed_by s n = record { alias_hash = []; owner_pubkey = s.node_id; signatures = replicate n s }

-- The rule counts signatures and not signers: a proposal that a single node signed `n` times, and no
-- other node, passes in a hive of `total_nodes` nodes exactly when `n` is above half of them.
pub verify_majority-signed_by :
    (s : NodeSignature) (n total_nodes : ℕ)
    → (signers (signed_by s n) ≡ replicate n s.node_id)
      × ((verify_majority (signed_by s n) total_nodes ≡ true) ↔ (total_nodes < 2 * n))
unfolding verify_majority
verify_majority-signed_by s n total_nodes = (
  map-replicate (λ (x : NodeSignature). x.node_id) n s,
  (
    (λ h. omega (arith, leb→le _ _ h, length-replicate n s)),
    (λ h. le→leb _ _ (omega (arith, length-replicate n s))),
  ),
)
