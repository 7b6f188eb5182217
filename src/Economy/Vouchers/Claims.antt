-- ===== src/Economy/Vouchers/Claims.antt =====
-- When a claim succeeds, what it changes, and that no nonce is accepted twice.
use trytet.Prelude.{
  ℕ, ◌≤◌, ◌≡◌, refl, true, false, some, List, [], ◌∷◌, arith, Bool-cases, Option-cases, inl, inr,
  bytes_eq, bytes_beq_iff, ◌==◌, ltb, contains, Distinct, map,
}
use trytet.Economy.Crypto.{Ed25519, Hex}
use trytet.Economy.Vouchers.{
  FuelVoucher, VoucherManager, Claim, ok, err, new, signed_data, claim_nonce, check_signature,
  check_key, verify_and_claim, serve,
}

module _ (crypto : Ed25519) (hex : Hex) where
  -- All that an accepted voucher was checked for, and the manager afterwards.
  pub record Accepted (now : ℕ) (m m' : VoucherManager) (v : FuelVoucher) : Type 0 where
    pub bytes : List ℕ
    pub key : crypto.Key
    pub sig : crypto.Signature
    pub in_time : now ≤ v.expiry_timestamp
    pub here : v.provider_id ≡ m.expected_provider_id
    pub decoded : hex.decode v.agent_id ≡ some bytes
    pub is_key : crypto.verifying_key bytes ≡ some key
    pub is_sig : crypto.signature_from_slice v.signature ≡ some sig
    pub signed : crypto.verify key (signed_data v) sig ≡ true
    pub fresh : contains v.nonce m.used_nonces ≡ false
    pub recorded : m' ≡ record m { used_nonces = v.nonce ∷ m.used_nonces }

  abbrev pub Judged : ℕ → VoucherManager → FuelVoucher → Claim × VoucherManager → Type 0
  Judged now m v (ok, m') = Accepted now m m' v
  Judged now m v (err e, m') = m' ≡ m

  check_signature-Judged :
      (now : ℕ) (m : VoucherManager) (v : FuelVoucher) (bytes : List ℕ) (key : crypto.Key)
      → now ≤ v.expiry_timestamp
      → v.provider_id ≡ m.expected_provider_id
      → hex.decode v.agent_id ≡ some bytes
      → crypto.verifying_key bytes ≡ some key
      → Judged now m v (check_signature crypto hex m v key)
  unfolding check_signature claim_nonce
  check_signature-Judged now m v bytes key in_time here decoded is_key =
      elim (Option-cases (crypto.signature_from_slice v.signature)) [
        | inl no_sig ↦ rw (no_sig, check_signature) refl
        | inr (sig, is_sig) ↦ elim (Bool-cases (crypto.verify key (signed_data v) sig)) [
          | inr bad ↦ rw (is_sig, bad, check_signature) refl
          | inl signed ↦ elim (Bool-cases (contains v.nonce m.used_nonces)) [
            | inl used ↦ rw (is_sig, signed, used, check_signature) refl
            | inr fresh ↦
                rw (is_sig, signed, fresh, check_signature)
                  (record {
                    bytes = bytes;
                    key = key;
                    sig = sig;
                    in_time = in_time;
                    here = here;
                    decoded = decoded;
                    is_key = is_key;
                    is_sig = is_sig;
                    signed = signed;
                    fresh = fresh;
                    recorded = refl;
                  })
          ]
        ]
      ]

  check_key-Judged :
      (now : ℕ) (m : VoucherManager) (v : FuelVoucher)
      → now ≤ v.expiry_timestamp
      → v.provider_id ≡ m.expected_provider_id
      → Judged now m v (check_key crypto hex m v)
  unfolding check_key
  check_key-Judged now m v in_time here = elim (Option-cases (hex.decode v.agent_id)) [
    | inl no_hex ↦ rw (no_hex, check_key) refl
    | inr (bytes, decoded) ↦ elim (Option-cases (crypto.verifying_key bytes)) [
      | inl no_key ↦ rw (decoded, no_key, check_key) refl
      | inr (key, is_key) ↦
          rw (decoded, is_key, check_key)
            (check_signature-Judged now m v bytes key in_time here decoded is_key)
    ]
  ]

  -- A voucher is accepted only if it is not expired, is made out to this provider, carries a
  -- signature that verifies under the key in `agent_id` over its own fields, and has a nonce that
  -- was not used before; then exactly that nonce is recorded. A refused voucher changes nothing.
  pub verify_and_claim-Judged :
      (now : ℕ) (m : VoucherManager) (v : FuelVoucher)
      → Judged now m v (verify_and_claim crypto hex now m v)
  unfolding verify_and_claim
  verify_and_claim-Judged now m v = elim (Bool-cases (ltb v.expiry_timestamp now)) [
    | inl late ↦ rw late refl
    | inr in_time ↦ elim (Bool-cases (v.provider_id == m.expected_provider_id)) [
      | inl here ↦
          rw (in_time, here) (check_key-Judged now m v (ground arith) ((bytes_beq_iff _ _).0 here))
      | inr elsewhere ↦ rw (in_time, elsewhere) refl
    ]
  ]

  abbrev nonces : List FuelVoucher → List (List ℕ)
  nonces = map (λ v. v.nonce)

  -- Each accepted nonce is recorded, and they are distinct.
  record Fresh (m : VoucherManager) (accepted : List FuelVoucher) : Type 0 where
    distinct : Distinct (nonces accepted)
    known : (n : List ℕ) → contains n (nonces accepted) ≡ true → contains n m.used_nonces ≡ true

  Fresh-cons :
      (now : ℕ) (m m' : VoucherManager) (v : FuelVoucher) (accepted : List FuelVoucher)
      → Fresh m accepted
      → Accepted now m m' v
      → Fresh m' (v ∷ accepted)
  unfolding contains
  Fresh-cons now m m' v accepted h a = rw a.recorded (record {
    distinct = (ground (arith, h.known v.nonce, a.fresh), h.distinct);
    known = λ n there. ground (arith, h.known n);
  })

  -- One claim, and the claims that follow.
  serve_step :
      (now : ℕ) (m : VoucherManager) (v : FuelVoucher) (accepted : List FuelVoucher)
      → (out : Claim × VoucherManager) → Fresh m accepted
      → Judged now m v out
      → Fresh out.1 (elim out.0 [ ok ↦ v ∷ accepted | err e ↦ accepted ])
  serve_step now m v accepted (ok, m') h a = Fresh-cons now m m' v accepted h a
  serve_step now m v accepted (err e, m') h same = rw same h

  serve-Fresh :
      (m : VoucherManager) (claims : List (ℕ × FuelVoucher)) (accepted : List FuelVoucher)
      → Fresh m accepted
      → Distinct (nonces (serve crypto hex m claims accepted))
  unfolding serve
  serve-Fresh m [] accepted h = h.distinct
  serve-Fresh m ((now, v) ∷ rest) accepted h =
      let out = verify_and_claim crypto hex now m v in
      serve-Fresh out.1 rest _ (serve_step now m v accepted out h (verify_and_claim-Judged now m v))

  -- Whatever vouchers a new manager is shown, in whatever order and at whatever times, those that it
  -- accepts have distinct nonces: no voucher is claimed twice.
  pub serve-Distinct :
      (provider : List ℕ) (claims : List (ℕ × FuelVoucher))
      → Distinct (map (λ (v : FuelVoucher). v.nonce) (serve crypto hex (new provider) claims []))
  unfolding contains
  serve-Distinct provider claims =
      serve-Fresh (new provider) claims [] (record { distinct = tt; known = λ n h. cc })
