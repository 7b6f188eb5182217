-- ===== src/Calls/Settlement.antt =====
-- src/sandbox/host_api/economy_pay.rs and src/economy/registry.rs: what a guest signs, the registry
-- of accounts accepts.
use trytet.Prelude.{ℕ, ◌≡◌, refl, true, some, List, contains, if◌then◌else◌, nat_eq}
use trytet.Economy.Crypto.{Ed25519}
use trytet.Economy.Registry.{
  VoucherRegistry, err, replay_attack, transfer, settle, verify_and_settle, signed_data,
  record_nonce,
}
use trytet.Calls.Payments.{Signing, transaction}

-- Signing and verifying are of one library: keys and signatures are well formed, and what a seed
-- signed its key verifies.
pub record Agrees (signing : Signing) (crypto : Ed25519) : Type 0 where
  pub accepts :
      (seed message : List ℕ)
      → (key : crypto.Key) × (sig : crypto.Signature) × (crypto.verifying_key
            (signing.public_key seed)
          ≡ some key)
        × (crypto.signature_from_slice (signing.sign seed message) ≡ some sig)
        × (crypto.verify key message sig ≡ true)

verify_and_settle-transaction :
    (signing : Signing) (crypto : Ed25519)
    → Agrees signing crypto
    → (r : VoucherRegistry) (source target : List ℕ) (amount nonce : ℕ)
    → verify_and_settle crypto r (transaction signing source target amount nonce)
      ≡ settle r (transaction signing source target amount nonce)
unfolding verify_and_settle transaction signed_data
verify_and_settle-transaction signing crypto agrees r source target amount nonce =
    let tx = transaction signing source target amount nonce in
    let (key, sig, k, s, v) = agrees.accepts (signing.sha256 source) (signed_data tx) in
    rw (k, verify_and_settle) (rw s (rw v refl))

-- The transaction of a payment, as the guest's host signs it, meets no refusal of the registry for
-- its format or its signature: it is a replay if its nonce was used, and is settled if not, where
-- only missing funds can stop it. Signatures are those of one library.
pub transfer-transaction :
    (signing : Signing) (crypto : Ed25519)
    → Agrees signing crypto
    → (r : VoucherRegistry) (source target : List ℕ) (amount nonce : ℕ)
    → transfer crypto r (transaction signing source target amount nonce) ≡ (
        if contains nonce r.used_nonces
        then (err replay_attack, r)
        else settle (record_nonce r nonce) (transaction signing source target amount nonce))
unfolding transfer contains transaction settle
transfer-transaction signing crypto agrees r source target amount nonce =
    rw
      (
        verify_and_settle-transaction signing crypto agrees (record_nonce r nonce) source target
            amount nonce,
        transfer,
      )
      refl
