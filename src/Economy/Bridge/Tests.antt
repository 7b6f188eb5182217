-- ===== src/Economy/Bridge/Tests.antt =====
-- A deposit that the chain confirms, and that the bridge refuses all the same.
use trytet.Prelude.{◌≡◌, [], ◌∷◌, bytes_eq}
use trytet.Economy.Examples.{plain_hex, alice}
use trytet.Economy.Registry.{new}
use trytet.Economy.Bridge.{ok, err, ChainListener, SettlementBridge, process_deposit}
use trytet.Economy.Bridge.Deposits.{refusal, process_deposit-refused}

abbrev confirming : ChainListener
confirming tx_hash = ok (alice, 3)

abbrev bridge : SettlementBridge
bridge = record { chain_connectors = (1 ∷ [], confirming) ∷ []; registry = new }

process_deposit-refused_example :
    process_deposit plain_hex bridge (1 ∷ []) (5 ∷ []) 0
    ≡ (err (refusal bridge (1 ∷ []) (5 ∷ [])), bridge)
process_deposit-refused_example = process_deposit-refused plain_hex bridge (1 ∷ []) (5 ∷ []) 0
