-- ===== src/Economy/Vouchers.antt =====
-- src/economy.rs: `VoucherManager`, which admits each signed fuel voucher once. Texts are their
-- bytes, and the clock is an argument. The nonces are behind one lock, so a claim is one step.
pub mod Claims
pub mod Payload
pub mod Tests
use trytet.Prelude.{
  ℕ, Option, none, some, List, [], ◌∷◌, ◌++◌, ltb, not, ◌==◌, contains, bytes_eq, if◌then◌else◌,
}
use trytet.Prelude.Bytes.{be_bytes}
use trytet.Economy.Crypto.{Ed25519, Hex}

pub record FuelVoucher : Type 0 where
  pub agent_id : List ℕ
  pub provider_id : List ℕ
  pub fuel_limit : ℕ
  pub expiry_timestamp : ℕ
  pub nonce : List ℕ
  pub signature : List ℕ

pub data VoucherError : Type 0 where
  expired : VoucherError
  wrong_provider : List ℕ → List ℕ → VoucherError
  invalid_hex_format : VoucherError
  invalid_public_key : VoucherError
  invalid_signature : VoucherError
  signature_verification_failed : VoucherError
  nonce_reused : VoucherError

pub data Claim : Type 0 where
  ok : Claim
  err : VoucherError → Claim

pub record VoucherManager : Type 0 where
  pub used_nonces : List (List ℕ)
  pub expected_provider_id : List ℕ

unfoldable pub new : List ℕ → VoucherManager
new provider = record { used_nonces = []; expected_provider_id = provider }

unfoldable pub signed_data : FuelVoucher → List ℕ
signed_data v =
    v.agent_id
    ++ (v.provider_id ++ (be_bytes 8 v.fuel_limit ++ (be_bytes 8 v.expiry_timestamp ++ v.nonce)))

-- The end of a claim: `used.insert(voucher.nonce)`.
pub claim_nonce : VoucherManager → FuelVoucher → Claim × VoucherManager
claim_nonce m v =
    if contains v.nonce m.used_nonces
    then (err nonce_reused, m)
    else (ok, record m { used_nonces = v.nonce ∷ m.used_nonces })

module _ (crypto : Ed25519) (hex : Hex) where
  open crypto use {Key, verifying_key, signature_from_slice, verify}

  pub check_signature : VoucherManager → FuelVoucher → Key → Claim × VoucherManager
  unfolding claim_nonce
  check_signature m v key = elim (signature_from_slice v.signature) [
    | none ↦ (err invalid_signature, m)
    | some sig ↦
        if verify key (signed_data v) sig
        then claim_nonce m v
        else (err signature_verification_failed, m)
  ]

  pub check_key : VoucherManager → FuelVoucher → Claim × VoucherManager
  unfolding check_signature
  check_key m v = elim (hex.decode v.agent_id) [
    | none ↦ (err invalid_hex_format, m)
    | some bytes ↦ elim (verifying_key bytes) [
      | none ↦ (err invalid_public_key, m)
      | some key ↦ check_signature m v key
    ]
  ]

  unfoldable pub verify_and_claim : ℕ → VoucherManager → FuelVoucher → Claim × VoucherManager
  unfolding check_key
  verify_and_claim now m v =
      if ltb v.expiry_timestamp now
      then (err expired, m)
      else if not (v.provider_id == m.expected_provider_id)
      then (err (wrong_provider v.provider_id m.expected_provider_id), m)
      else check_key m v

  -- Claims in order, each with the time at which it comes; the accepted vouchers, newest first.
  pub serve : VoucherManager → List (ℕ × FuelVoucher) → List FuelVoucher → List FuelVoucher
  serve m [] accepted = accepted
  serve m ((now, v) ∷ rest) accepted =
      let (result, m') = verify_and_claim now m v in
      serve m' rest (elim result [ ok ↦ v ∷ accepted | err e ↦ accepted ])
