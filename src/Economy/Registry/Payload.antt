-- ===== src/Economy/Registry/Payload.antt =====
-- The bytes that a transfer's signature covers.
use trytet.Prelude.{
  ◌<◌, ◌≡◌, some, arith, length-append, append_cancel, append_cancel_right, sym, ◌∙◌,
}
use trytet.Prelude.Bytes.{be_bytes, length-be_bytes, be_bytes_injective}
use trytet.Economy.Crypto.{Ed25519}
use trytet.Economy.Registry.{FuelTransaction, signed_data, u64_mod}

pub record FitsU64 (tx : FuelTransaction) : Type 0 where
  pub amount_fits : tx.amount < u64_mod
  pub nonce_fits : tx.nonce < u64_mod

-- What a signature authorises.
pub record SameOrder (t u : FuelTransaction) : Type 0 where
  pub same_from : t.from ≡ u.from
  pub same_to : t.to ≡ u.to
  pub same_amount : t.amount ≡ u.amount
  pub same_nonce : t.nonce ≡ u.nonce

-- Two transactions whose senders are valid keys, and whose numbers fit a `u64`, have the same
-- signed bytes only if they agree on sender, receiver, amount and nonce: a signature cannot be
-- moved to another order.
pub signed_data_injective :
    (crypto : Ed25519) (t u : FuelTransaction) (k l : crypto.Key)
    → crypto.verifying_key t.from ≡ some k
    → crypto.verifying_key u.from ≡ some l
    → FitsU64 t
    → FitsU64 u
    → signed_data t ≡ signed_data u
    → SameOrder t u
unfolding signed_data
signed_data_injective crypto t u k l hk hl ft fu e =
    let (froms, rest) =
      append_cancel t.from u.from _ _
        (crypto.length-verifying_key t.from k hk ∙ sym (crypto.length-verifying_key u.from l hl))
        e in
    let (tos, numbers) =
      append_cancel_right t.to u.to _ _
        (omega (
          arith,
          length-append (be_bytes 8 t.amount) (be_bytes 8 t.nonce),
          length-append (be_bytes 8 u.amount) (be_bytes 8 u.nonce),
          length-be_bytes 8 t.amount,
          length-be_bytes 8 u.amount,
          length-be_bytes 8 t.nonce,
          length-be_bytes 8 u.nonce,
        ))
        rest in
    let (amounts, nonces) =
      append_cancel (be_bytes 8 t.amount) (be_bytes 8 u.amount) _ _
        (length-be_bytes 8 t.amount ∙ sym (length-be_bytes 8 u.amount)) numbers in
    record {
      same_from = froms;
      same_to = tos;
      same_amount = be_bytes_injective 8 t.amount u.amount ft.amount_fits fu.amount_fits amounts;
      same_nonce = be_bytes_injective 8 t.nonce u.nonce ft.nonce_fits fu.nonce_fits nonces;
    }
