-- ===== src/Economy/Examples.antt =====
-- A concrete choice of the cryptographic parameters, for the witnesses: a key is its 32 bytes, and a
-- signature is the text that it signs.
use trytet.Prelude.{
  ℕ, ◌*◌, ◌≡◌, Option, none, some, List, [], ◌∷◌, arith, length, replicate, nat_beq, bytes_beq,
  if◌then◌else◌,
}
use trytet.Economy.Crypto.{Ed25519, Hex}

abbrev pub slice_key : List ℕ → Option (List ℕ)
slice_key bytes = if nat_beq (length bytes) 32 then some bytes else none

pub length-slice_key : (bytes k : List ℕ) → slice_key bytes ≡ some k → length bytes ≡ 32
length-slice_key bytes k h = ground arith

abbrev pub plain_crypto : Ed25519
plain_crypto = record {
  Key = List ℕ;
  Signature = List ℕ;
  verifying_key = slice_key;
  signature_from_slice = λ s. some s;
  verify = λ key text sig. bytes_beq text sig;
  length-verifying_key = length-slice_key;
}

-- Each byte written twice.
abbrev pub decode_pairs : List ℕ → Option (List ℕ)
decode_pairs [] = some []
decode_pairs (a ∷ []) = none
decode_pairs (a ∷ b ∷ rest) = elim (decode_pairs rest) [
  | none ↦ none
  | some bytes ↦ some (a ∷ bytes)
]

pub length-decode_pairs :
    (digits bytes : List ℕ) → decode_pairs digits ≡ some bytes → length digits ≡ 2 * length bytes
length-decode_pairs [] bytes h = ground arith
length-decode_pairs (a ∷ []) bytes h = cc
length-decode_pairs (a ∷ b ∷ rest) [] h = absurd (ground arith)
length-decode_pairs (a ∷ b ∷ rest) (c ∷ bytes) h =
    let ih = length-decode_pairs rest bytes (ground arith) in omega (arith, ih)

abbrev pub plain_hex : Hex
plain_hex = record { decode = decode_pairs; length-decode = length-decode_pairs }

abbrev pub alice : List ℕ
alice = replicate 32 1

abbrev pub bob : List ℕ
bob = replicate 32 2
