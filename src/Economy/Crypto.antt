-- ===== src/Economy/Crypto.antt =====
-- What the economy takes from the crates `ed25519_dalek` and `hex`: parameters of the model.
use trytet.Prelude.{ℕ, ◌*◌, ◌≡◌, Bool, Option, some, List, length}

-- `VerifyingKey::try_from`, `Signature::from_slice` and `VerifyingKey::verify`. A key is made from
-- a slice of 32 bytes only.
pub record Ed25519 : Type 1 where
  pub Key : Type 0
  pub Signature : Type 0
  pub verifying_key : List ℕ → Option Key
  pub signature_from_slice : List ℕ → Option Signature
  pub verify : Key → List ℕ → Signature → Bool
  pub length-verifying_key :
      (bytes : List ℕ) (k : Key) → verifying_key bytes ≡ some k → length bytes ≡ 32

-- `hex::decode`: two digits to a byte.
pub record Hex : Type 0 where
  pub decode : List ℕ → Option (List ℕ)
  pub length-decode :
      (digits bytes : List ℕ) → decode digits ≡ some bytes → length digits ≡ 2 * length bytes
