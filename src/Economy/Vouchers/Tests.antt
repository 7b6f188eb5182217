-- ===== src/Economy/Vouchers/Tests.antt =====
-- Witnesses and tests of fuel vouchers.
use trytet.Prelude.{ℕ, List, [], ◌∷◌, nat_eq, bytes_eq, Distinct, map, replicate}
use trytet.Economy.Examples.{plain_crypto, plain_hex}
use trytet.Economy.Vouchers.{FuelVoucher, new, signed_data, verify_and_claim, serve}
use trytet.Economy.Vouchers.Claims.{Judged, verify_and_claim-Judged, serve-Distinct}

abbrev this_node : List ℕ
this_node = 9 ∷ []

abbrev unsigned : FuelVoucher
unsigned = record {
  agent_id = replicate 64 1;
  provider_id = this_node;
  fuel_limit = 5000;
  expiry_timestamp = 100;
  nonce = 4 ∷ 2 ∷ [];
  signature = [];
}

abbrev voucher : FuelVoucher
voucher = record unsigned { signature = signed_data unsigned }

verify_and_claim-Judged_example :
    Judged plain_crypto plain_hex 50
      (new this_node)
      voucher
      (verify_and_claim plain_crypto plain_hex 50 (new this_node) voucher)
verify_and_claim-Judged_example =
    verify_and_claim-Judged plain_crypto plain_hex 50 (new this_node) voucher

serve-Distinct_example : Distinct (
    map
      (λ (v : FuelVoucher). v.nonce)
      (serve plain_crypto plain_hex (new this_node) ((50, voucher) ∷ (51, voucher) ∷ []) []))
serve-Distinct_example =
    serve-Distinct plain_crypto plain_hex this_node ((50, voucher) ∷ (51, voucher) ∷ [])
