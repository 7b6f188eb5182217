-- ===== src/Economy/Registry/Replay.antt =====
-- A nonce serves one transfer, whatever became of it.
use mathlib.Core.List.{map-append}
use trytet.Prelude.{
  ℕ, ◌≡◌, true, false, List, [], ◌∷◌, ◌++◌, map, arith, Bool-cases, inl, inr, nat_eq, contains,
  contains-cons_self, contains-cons_old, Distinct, Distinct-append_one, contains-append, ◌⊎◌,
}
use trytet.Economy.Crypto.{Ed25519}
use trytet.Economy.Registry.{
  VoucherRegistry, FuelTransaction, replay_attack, err, settle, carry_out, verify_and_settle,
  transfer, record_nonce, Operation, mints, transfers, new, mint, step, run,
}

nonces-settle :
    (r : VoucherRegistry) (tx : FuelTransaction) → (settle r tx).1.used_nonces ≡ r.used_nonces
unfolding settle
nonces-settle r tx = ground arith

nonces-verify_and_settle :
    (crypto : Ed25519) (r : VoucherRegistry) (tx : FuelTransaction)
    → (verify_and_settle crypto r tx).1.used_nonces ≡ r.used_nonces
unfolding verify_and_settle
nonces-verify_and_settle crypto r tx = ground (arith, nonces-settle r tx)

-- Once a nonce is recorded it stays so under any operation.
used-step :
    (crypto : Ed25519) (n : ℕ) (r : VoucherRegistry) (op : Operation)
    → contains n r.used_nonces ≡ true
    → contains n (step crypto r op).used_nonces ≡ true
unfolding step transfer mint
used-step crypto n r (mints to amount) h = h
used-step crypto n r (transfers tx) h = ground (
  arith,
  nonces-verify_and_settle crypto (record_nonce r tx.nonce) tx,
  contains-cons_old n tx.nonce r.used_nonces,
)

used-run :
    (crypto : Ed25519) (n : ℕ) (r : VoucherRegistry) (ops : List Operation)
    → contains n r.used_nonces ≡ true
    → contains n (run crypto r ops).used_nonces ≡ true
unfolding run
used-run crypto n r [] h = h
used-run crypto n r (op ∷ ops) h =
    used-run crypto n (step crypto r op) ops (used-step crypto n r op h)

used-transfer :
    (crypto : Ed25519) (r : VoucherRegistry) (tx : FuelTransaction)
    → contains tx.nonce (transfer crypto r tx).1.used_nonces ≡ true
unfolding transfer
used-transfer crypto r tx = ground (
  arith,
  nonces-verify_and_settle crypto (record_nonce r tx.nonce) tx,
  contains-cons_self tx.nonce r.used_nonces,
)

-- After a transfer, successful or not, and any further operations, a transfer with the same nonce,
-- by whatever sender, is refused as a replay and leaves the registry as it was.
pub transfer-replay :
    (crypto : Ed25519) (r : VoucherRegistry) (tx again : FuelTransaction) (between : List Operation)
    → again.nonce ≡ tx.nonce
    → let later = run crypto (transfer crypto r tx).1 between in
      transfer crypto later again ≡ (err replay_attack, later)
unfolding transfer
transfer-replay crypto r tx again between same =
    let used =
      used-run crypto tx.nonce (transfer crypto r tx).1 between (used-transfer crypto r tx) in
    rw (same, used)

abbrev nonces : List FuelTransaction → List ℕ
nonces log = map (λ tx. tx.nonce) log

-- The log's nonces are distinct, and all are recorded.
record Audited (log : List FuelTransaction) (used : List ℕ) : Type 0 where
  distinct : Distinct (nonces log)
  recorded : (n : ℕ) → contains n (nonces log) ≡ true → contains n used ≡ true

Audited-record :
    (log : List FuelTransaction) (used : List ℕ) (n : ℕ) → Audited log used → Audited log (n ∷ used)
Audited-record log used n h = record {
  distinct = h.distinct;
  recorded = λ m logged. contains-cons_old m n used (h.recorded m logged);
}

Audited-append :
    (log : List FuelTransaction) (used : List ℕ) (tx : FuelTransaction)
    → Audited log used
    → contains tx.nonce used ≡ false
    → Audited (log ++ tx ∷ []) (tx.nonce ∷ used)
unfolding contains
Audited-append log used tx h fresh =
    let split = map-append (λ (t : FuelTransaction). t.nonce) log (tx ∷ []) in
    record {
      distinct = rw split (
          Distinct-append_one (nonces log) tx.nonce h.distinct
            (ground (arith, h.recorded tx.nonce)));
      recorded = λ m logged.
          let there = contains-append m (nonces log) (tx.nonce ∷ []) in
          let found : contains m (nonces log ++ tx.nonce ∷ []) ≡ true = rw split at logged in
          ground (arith, there, found, h.recorded m);
    }

-- What steps 2 to 4 do to the log: nothing, or one entry for the transaction.
log-verify_and_settle :
    (crypto : Ed25519) (r : VoucherRegistry) (tx : FuelTransaction)
    → ((verify_and_settle crypto r tx).1.audit_log ≡ r.audit_log)
      ⊎ ((verify_and_settle crypto r tx).1.audit_log ≡ r.audit_log ++ tx ∷ [])
unfolding verify_and_settle settle carry_out
log-verify_and_settle crypto r tx = ground arith

abbrev IsAudited : VoucherRegistry → Type 0
IsAudited r = Audited r.audit_log r.used_nonces

transfer-IsAudited :
    (crypto : Ed25519) (r : VoucherRegistry) (tx : FuelTransaction)
    → IsAudited r
    → IsAudited (transfer crypto r tx).1
unfolding transfer
transfer-IsAudited crypto r tx h = elim (Bool-cases (contains tx.nonce r.used_nonces)) [
  | inl used ↦ rw used h
  | inr fresh ↦
      let kept = nonces-verify_and_settle crypto (record_nonce r tx.nonce) tx in
      elim (log-verify_and_settle crypto (record_nonce r tx.nonce) tx) [
        | inl same ↦ rw (fresh, same, kept) (Audited-record r.audit_log r.used_nonces tx.nonce h)
        | inr more ↦ rw (fresh, more, kept) (Audited-append r.audit_log r.used_nonces tx h fresh)
      ]
]

run-IsAudited :
    (crypto : Ed25519) (r : VoucherRegistry) (ops : List Operation)
    → IsAudited r
    → IsAudited (run crypto r ops)
unfolding run step mint
run-IsAudited crypto r [] h = h
run-IsAudited crypto r (mints to amount ∷ ops) h = run-IsAudited crypto (mint r to amount) ops h
run-IsAudited crypto r (transfers tx ∷ ops) h =
    run-IsAudited crypto (transfer crypto r tx).1 ops (transfer-IsAudited crypto r tx h)

-- After any history from the empty registry, no two entries of the audit log have the same nonce,
-- so no transaction was carried out twice.
pub run-Distinct :
    (crypto : Ed25519) (ops : List Operation)
    → Distinct (map (λ (tx : FuelTransaction). tx.nonce) (run crypto new ops).audit_log)
unfolding contains
run-Distinct crypto ops =
    (run-IsAudited crypto new ops (record { distinct = tt; recorded = λ n h. cc })).distinct
