-- ===== src/Economy/Vouchers/Payload.antt =====
-- The bytes that a voucher's signature covers.
use trytet.Prelude.{ℕ, ◌<◌, ◌^◌, ◌≡◌, ◌∙◌, sym, ap, some, List, arith, length, append_cancel}
use trytet.Prelude.Bytes.{be_bytes, length-be_bytes, be_bytes_injective}
use trytet.Economy.Crypto.{Ed25519, Hex}
use trytet.Economy.Vouchers.{FuelVoucher, signed_data}

pub record FitsU64 (v : FuelVoucher) : Type 0 where
  pub fuel_fits : v.fuel_limit < 2 ^ 64
  pub expiry_fits : v.expiry_timestamp < 2 ^ 64

pub record SameGrant (v w : FuelVoucher) : Type 0 where
  pub same_agent : v.agent_id ≡ w.agent_id
  pub same_fuel : v.fuel_limit ≡ w.fuel_limit
  pub same_expiry : v.expiry_timestamp ≡ w.expiry_timestamp
  pub same_nonce : v.nonce ≡ w.nonce

-- Two vouchers for one provider, whose agents are valid keys in hexadecimal and whose numbers fit a
-- `u64`, have the same signed bytes only if they grant the same: a signature cannot be moved to
-- another agent, amount of fuel, expiry or nonce.
pub signed_data_binds :
    (crypto : Ed25519) (hex : Hex) (v w : FuelVoucher)
    → (bytes other : List ℕ) (k l : crypto.Key) → hex.decode v.agent_id ≡ some bytes
    → hex.decode w.agent_id ≡ some other
    → crypto.verifying_key bytes ≡ some k
    → crypto.verifying_key other ≡ some l
    → v.provider_id ≡ w.provider_id
    → FitsU64 v
    → FitsU64 w
    → signed_data v ≡ signed_data w
    → SameGrant v w
unfolding signed_data
signed_data_binds crypto hex v w bytes other k l hv hw kv kw same fv fw e =
    let as_long : length v.agent_id ≡ length w.agent_id = omega (
      arith,
      hex.length-decode v.agent_id bytes hv,
      hex.length-decode w.agent_id other hw,
      crypto.length-verifying_key bytes k kv,
      crypto.length-verifying_key other l kw,
    ) in
    let (agents, rest) = append_cancel v.agent_id w.agent_id _ _ as_long e in
    let (providers, numbers) =
      append_cancel v.provider_id w.provider_id _ _ (ap length same) rest in
    let (fuels, tail) =
      append_cancel (be_bytes 8 v.fuel_limit) (be_bytes 8 w.fuel_limit) _ _
        (width v.fuel_limit w.fuel_limit) numbers in
    let (expiries, nonces) =
      append_cancel (be_bytes 8 v.expiry_timestamp) (be_bytes 8 w.expiry_timestamp) _ _
        (width v.expiry_timestamp w.expiry_timestamp) tail in
    record {
      same_agent = agents;
      same_fuel = be_bytes_injective 8 v.fuel_limit w.fuel_limit fv.fuel_fits fw.fuel_fits fuels;
      same_expiry =
          be_bytes_injective 8 v.expiry_timestamp w.expiry_timestamp fv.expiry_fits fw.expiry_fits
            expiries;
      same_nonce = nonces;
    }
  where
    width : (m n : ℕ) → length (be_bytes 8 m) ≡ length (be_bytes 8 n)
    width m n = length-be_bytes 8 m ∙ sym (length-be_bytes 8 n)
