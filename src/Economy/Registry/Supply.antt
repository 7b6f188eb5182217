-- ===== src/Economy/Registry/Supply.antt =====
-- `VoucherRegistry` keeps the books: what mints create is what the accounts hold.
use Prim.Native.Nat.{ℕ}
use trytet.Prelude.{◌+◌, ◌<◌, ◌≡◌, List, [], ◌∷◌, arith, bytes_eq, nat_eq}
use trytet.Prelude.HashMap
use trytet.Prelude.HashMap.{HashMap}
use trytet.Economy.Crypto.{Ed25519}
use trytet.Economy.Registry.Accounts.{debited, total-debited, total-credit}
use trytet.Economy.Registry.{
  VoucherRegistry, FuelTransaction, Operation, mints, transfers, new, u64_mod, mint, supply,
  record_nonce, settle, verify_and_settle, transfer, step, run,
}

supply-settle :
    (r : VoucherRegistry) (tx : FuelTransaction)
    → supply r < u64_mod
    → supply (settle r tx).1 ≡ supply r
unfolding settle debited
supply-settle r tx h = ground (
  arith,
  total-debited r tx,
  total-credit tx.to tx.amount (debited r tx),
  HashMap.total-or_insert_zero tx.from r.balances,
)

supply-verify_and_settle :
    (crypto : Ed25519) (r : VoucherRegistry) (tx : FuelTransaction)
    → supply r < u64_mod
    → supply (verify_and_settle crypto r tx).1 ≡ supply r
unfolding verify_and_settle
supply-verify_and_settle crypto r tx h = ground (arith, supply-settle r tx)

-- No transfer creates or destroys fuel, whether it succeeds or fails, if the fuel in all accounts
-- together fits a `u64`.
pub supply-transfer :
    (crypto : Ed25519) (r : VoucherRegistry) (tx : FuelTransaction)
    → supply r < u64_mod
    → supply (transfer crypto r tx).1 ≡ supply r
unfolding transfer
supply-transfer crypto r tx h =
    ground (arith, supply-verify_and_settle crypto (record_nonce r tx.nonce) tx)

supply-mint :
    (r : VoucherRegistry) (to : List ℕ) (amount : ℕ)
    → supply r + amount < u64_mod
    → supply (mint r to amount) ≡ supply r + amount
unfolding mint
supply-mint r to amount h = total-credit to amount r.balances h

unfoldable pub minted : List Operation → ℕ
minted [] = 0
minted (mints to amount ∷ ops) = amount + minted ops
minted (transfers tx ∷ ops) = minted ops

supply-run_from :
    (crypto : Ed25519) (r : VoucherRegistry) (ops : List Operation)
    → supply r + minted ops < u64_mod
    → supply (run crypto r ops) ≡ supply r + minted ops
unfolding run minted step
supply-run_from crypto r [] h = omega arith
supply-run_from crypto r (mints to amount ∷ ops) h = omega (
  arith,
  supply-mint r to amount (omega arith),
  supply-run_from crypto (mint r to amount) ops
      (omega (arith, supply-mint r to amount (omega arith))),
)
supply-run_from crypto r (transfers tx ∷ ops) h =
    let same = supply-transfer crypto r tx (omega arith) in
    omega (arith, same, supply-run_from crypto (transfer crypto r tx).1 ops (omega (arith, same)))

-- After any history of mints and transfers from the empty registry, the accounts hold together
-- exactly what was minted, if that fits a `u64`.
pub supply-run :
    (crypto : Ed25519) (ops : List Operation)
    → minted ops < u64_mod
    → supply (run crypto new ops) ≡ minted ops
unfolding HashMap.total
supply-run crypto ops h =
    let start = supply-run_from crypto new ops (omega arith) in omega (arith, start)
