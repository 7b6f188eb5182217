-- ===== src/Economy/Registry/Tests.antt =====
-- Witnesses and tests of the fuel accounts.
use trytet.Prelude.{ℕ, ◌≡◌, refl, List, [], ◌∷◌, arith, bytes_eq, nat_eq, contains}
use trytet.Prelude.HashMap
use trytet.Prelude.Bytes.{be_bytes}
use trytet.Economy.Examples.{plain_crypto, alice, bob}
use trytet.Economy.Registry.{
  VoucherRegistry, FuelTransaction, ok, err, insufficient_funds, replay_attack, Operation, mints,
  transfers, new, supply, signed_data, settle, credit, transfer, run,
}
use trytet.Economy.Registry.Supply.{supply-transfer, supply-run, minted}
use trytet.Economy.Registry.Effect.{Reports, transfer-Reports}
use trytet.Economy.Registry.Replay.{transfer-replay}
use trytet.Economy.Registry.Payload.{SameOrder, signed_data_injective}

abbrev unsigned : ℕ → ℕ → FuelTransaction
unsigned amount nonce = record {
  from = alice;
  to = bob;
  amount = amount;
  nonce = nonce;
  signature = [];
}

abbrev payment : ℕ → ℕ → FuelTransaction
payment amount nonce = record {
  from = alice;
  to = bob;
  amount = amount;
  nonce = nonce;
  signature = signed_data (unsigned amount nonce);
}

abbrev funded : VoucherRegistry
funded = record { balances = (alice, 100) ∷ (bob, 5) ∷ []; audit_log = []; used_nonces = [] }

paid : (transfer plain_crypto funded (payment 30 7)).0 ≡ ok
unfolding transfer signed_data HashMap.lookup HashMap.insert HashMap.or_insert contains be_bytes
    settle credit
paid = refl

paid_balances :
    (transfer plain_crypto funded (payment 30 7)).1.balances ≡ (alice, 70) ∷ (bob, 35) ∷ []
unfolding transfer signed_data HashMap.lookup HashMap.insert HashMap.or_insert contains be_bytes
    settle credit
paid_balances = refl

overdrawn : (transfer plain_crypto funded (payment 101 7)).0 ≡ err insufficient_funds
unfolding transfer signed_data HashMap.lookup HashMap.insert HashMap.or_insert contains be_bytes
    settle credit
overdrawn = refl

supply-transfer_example : supply (transfer plain_crypto funded (payment 30 7)).1 ≡ supply funded
unfolding HashMap.total
supply-transfer_example = supply-transfer plain_crypto funded (payment 30 7) (omega arith)

abbrev history : List Operation
history = mints alice 100 ∷ transfers (payment 30 7) ∷ transfers (payment 30 7) ∷ mints bob 1 ∷ []

supply-run_example : supply (run plain_crypto new history) ≡ minted history
unfolding minted
supply-run_example = supply-run plain_crypto history (omega arith)

transfer-Reports_example :
    Reports funded (payment 30 7) (transfer plain_crypto funded (payment 30 7))
unfolding HashMap.total
transfer-Reports_example = transfer-Reports plain_crypto funded (payment 30 7) (omega arith)

transfer-replay_example :
    let later =
      run plain_crypto (transfer plain_crypto funded (payment 30 7)).1 (mints alice 1 ∷ []) in
    transfer plain_crypto later (payment 1 7) ≡ (err replay_attack, later)
transfer-replay_example =
    transfer-replay plain_crypto funded (payment 30 7) (payment 1 7) (mints alice 1 ∷ []) refl

signed_data_injective_example : SameOrder (payment 30 7) (payment 30 7)
signed_data_injective_example =
    signed_data_injective plain_crypto (payment 30 7) (payment 30 7) alice alice refl refl
      (omega arith) (omega arith) refl
