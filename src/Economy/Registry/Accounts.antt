-- ===== src/Economy/Registry/Accounts.antt =====
-- The accounts under a debit and a credit, the two halves of a transfer.
use trytet.Prelude.{
  ℕ, ◌+◌, ◌-◌, ◌%◌, ◌<◌, ◌≤◌, ◌≡◌, List, arith, ◌==◌, bytes_eq, if◌then◌else◌, bytes_beq_iff,
}
use trytet.Prelude.HashMap
use trytet.Prelude.HashMap.{HashMap}
use trytet.Economy.Registry.{VoucherRegistry, FuelTransaction, balance, supply, u64_mod, credit}

pub value_of-credit :
    (to j : List ℕ) (amount : ℕ) (m : HashMap (List ℕ) ℕ)
    → HashMap.total m + amount < u64_mod
    → HashMap.value_of j (credit to amount m)
      ≡ HashMap.value_of j m + (if to == j then amount else 0)
unfolding credit
value_of-credit to j amount m h =
    let v = (HashMap.value_of to m + amount) % u64_mod in
    ground (
      arith,
      HashMap.value_of-insert to j v (HashMap.or_insert to 0 m),
      HashMap.value_of-or_insert_zero to j m,
      HashMap.value_of-le-total to m,
      bytes_beq_iff to j,
    )

pub total-credit :
    (to : List ℕ) (amount : ℕ) (m : HashMap (List ℕ) ℕ)
    → HashMap.total m + amount < u64_mod
    → HashMap.total (credit to amount m) ≡ HashMap.total m + amount
unfolding credit
total-credit to amount m h =
    let v = (HashMap.value_of to m + amount) % u64_mod in
    omega (
      arith,
      HashMap.total-insert to v (HashMap.or_insert to 0 m),
      HashMap.total-or_insert_zero to m,
      HashMap.value_of-or_insert_zero to to m,
      HashMap.value_of-le-total to m,
    )

-- The balances after the debit of `settle`.
unfoldable pub debited : VoucherRegistry → FuelTransaction → HashMap (List ℕ) ℕ
debited r tx =
    HashMap.insert tx.from (balance tx.from r - tx.amount) (HashMap.or_insert tx.from 0 r.balances)

pub total-debited :
    (r : VoucherRegistry) (tx : FuelTransaction)
    → tx.amount ≤ balance tx.from r
    → HashMap.total (debited r tx) + tx.amount ≡ supply r
unfolding debited
total-debited r tx h = omega (
  arith,
  HashMap.total-insert tx.from (balance tx.from r - tx.amount)
      (HashMap.or_insert tx.from 0 r.balances),
  HashMap.total-or_insert_zero tx.from r.balances,
  HashMap.value_of-or_insert_zero tx.from tx.from r.balances,
)

pub value_of-debited :
    (r : VoucherRegistry) (tx : FuelTransaction) (j : List ℕ)
    → tx.amount ≤ balance tx.from r
    → HashMap.value_of j (debited r tx) + (if tx.from == j then tx.amount else 0) ≡ balance j r
unfolding debited
value_of-debited r tx j h = ground (
  arith,
  HashMap.value_of-insert tx.from j (balance tx.from r - tx.amount)
      (HashMap.or_insert tx.from 0 r.balances),
  HashMap.value_of-or_insert_zero tx.from j r.balances,
  bytes_beq_iff tx.from j,
)
