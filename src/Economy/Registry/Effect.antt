-- ===== src/Economy/Registry/Effect.antt =====
-- What one `transfer` does to the accounts, the nonces and the audit log, on every path.
use trytet.Prelude.{
  ℕ, ◌+◌, ◌<◌, ◌≤◌, ◌≡◌, refl, List, [], ◌∷◌, ◌++◌, arith, Bool-cases, Option-cases, inl, inr, ◌==◌,
  ltb, bytes_eq, nat_eq, contains, if◌then◌else◌,
}
use trytet.Prelude.HashMap
use trytet.Economy.Crypto.{Ed25519}
use trytet.Economy.Registry.{
  VoucherRegistry, FuelTransaction, Outcome, ok, err, balance, u64_mod, supply, carry_out,
  record_nonce, signed_data, settle, verify_and_settle, transfer,
}
use trytet.Economy.Registry.Accounts.{debited, total-debited, value_of-credit, value_of-debited}

-- What account `j` gains, and what it loses, by a transaction.
abbrev pub gain : List ℕ → FuelTransaction → ℕ
gain j tx = if tx.to == j then tx.amount else 0

abbrev pub loss : List ℕ → FuelTransaction → ℕ
loss j tx = if tx.from == j then tx.amount else 0

-- A step of the registry in which `tx` was carried out.
pub record Moves (r r' : VoucherRegistry) (tx : FuelTransaction) : Type 0 where
  pub funded : tx.amount ≤ balance tx.from r
  pub books : (j : List ℕ) → balance j r' + loss j tx ≡ balance j r + gain j tx
  pub logged : r'.audit_log ≡ r.audit_log ++ tx ∷ []

-- A step of the registry that moved nothing.
pub record Idle (r r' : VoucherRegistry) : Type 0 where
  pub books : (j : List ℕ) → balance j r' ≡ balance j r
  pub logged : r'.audit_log ≡ r.audit_log

abbrev pub Reports : VoucherRegistry → FuelTransaction → Outcome × VoucherRegistry → Type 0
Reports r tx (ok, r') = Moves r r' tx
Reports r tx (err e, r') = Idle r r'

carry_out-Moves :
    (r : VoucherRegistry) (tx : FuelTransaction)
    → supply r < u64_mod
    → tx.amount ≤ balance tx.from r
    → Moves r (carry_out r tx) tx
unfolding carry_out debited
carry_out-Moves r tx fits funded = record {
  funded = funded;
  books = λ j. ground (
    arith,
    value_of-debited r tx j,
    value_of-credit tx.to j tx.amount (debited r tx),
    total-debited r tx,
  );
  logged = refl;
}

settle-Reports :
    (r : VoucherRegistry) (tx : FuelTransaction) → supply r < u64_mod → Reports r tx (settle r tx)
unfolding settle
settle-Reports r tx fits = elim (Bool-cases (ltb (balance tx.from r) tx.amount)) [
  | inl short ↦
      rw short (record {
        books = λ j. HashMap.value_of-or_insert_zero tx.from j r.balances;
        logged = refl;
      })
  | inr funded ↦ rw funded (carry_out-Moves r tx fits (ground arith))
]

verify_and_settle-Reports :
    (crypto : Ed25519) (r : VoucherRegistry) (tx : FuelTransaction)
    → supply r < u64_mod
    → Reports r tx (verify_and_settle crypto r tx)
unfolding verify_and_settle
verify_and_settle-Reports crypto r tx fits = elim (Option-cases (crypto.verifying_key tx.from)) [
  | inl no_key ↦ rw (no_key, verify_and_settle) nothing
  | inr (key, has_key) ↦ elim (Option-cases (crypto.signature_from_slice tx.signature)) [
    | inl no_sig ↦ rw (has_key, no_sig, verify_and_settle) nothing
    | inr (sig, has_sig) ↦ elim (Bool-cases (crypto.verify key (signed_data tx) sig)) [
      | inl good ↦ rw (has_key, has_sig, good, verify_and_settle) (settle-Reports r tx fits)
      | inr bad ↦ rw (has_key, has_sig, bad, verify_and_settle) nothing
    ]
  ]
]
  where
    nothing : Idle r r
    nothing = record { books = λ j. refl; logged = refl }

Reports-record_nonce :
    (r : VoucherRegistry) (tx : FuelTransaction) (out : Outcome × VoucherRegistry)
    → Reports (record_nonce r tx.nonce) tx out
    → Reports r tx out
Reports-record_nonce r tx (ok, r') m = record {
  funded = m.funded;
  books = m.books;
  logged = m.logged;
}
Reports-record_nonce r tx (err e, r') m = record { books = m.books; logged = m.logged }

-- Where the fuel of all accounts together fits a `u64`: a transfer that reports success found the
-- sender's balance sufficient, took the amount from the sender and gave it to the receiver (for a
-- transfer to oneself, both), left all other balances alone and appended itself to the audit log;
-- a transfer that reports an error changed no balance and no log entry.
pub transfer-Reports :
    (crypto : Ed25519) (r : VoucherRegistry) (tx : FuelTransaction)
    → supply r < u64_mod
    → Reports r tx (transfer crypto r tx)
unfolding transfer
transfer-Reports crypto r tx fits = elim (Bool-cases (contains tx.nonce r.used_nonces)) [
  | inl used ↦ rw used (record { books = λ j. refl; logged = refl })
  | inr fresh ↦ rw fresh (
      Reports-record_nonce r tx _
        (verify_and_settle-Reports crypto (record_nonce r tx.nonce) tx fits))
]
