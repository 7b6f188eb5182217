-- ===== src/Auth/Revocation.antt =====
-- src/auth.rs: the key store as the ledger sees it, and what a revocation does to it.
use trytet.Prelude.{
  ℕ, ◌≡◌, refl, arith, Bool, true, false, ◌&&◌, none, some, List, [], ◌∷◌, ◌==◌, bytes_eq, take,
  contains, sym, ap, subst, ◌∙◌, Option-cases, Bool-cases, inl, inr,
}
use trytet.Prelude.HashMap
use trytet.Prelude.HashMap.{HashMap}
use trytet.Auth.Ledger.{Ledger, issue, withdraw, is_live, any_live, Revokes, raws, raws-withdraw}
use trytet.Auth.{ApiKey, Library, any_active, is_active, revoke_in}

-- The steps of the search.
revoke_in-absent :
    (hash : List ℕ) (order : List (List ℕ)) (prefix : List ℕ) (keys : HashMap (List ℕ) ApiKey)
    → HashMap.lookup hash keys ≡ none
    → revoke_in (hash ∷ order) prefix keys ≡ revoke_in order prefix keys
unfolding revoke_in
revoke_in-absent hash order prefix keys e = ground (arith, e)

revoke_in-fits :
    (hash : List ℕ) (order : List (List ℕ)) (prefix : List ℕ) (keys : HashMap (List ℕ) ApiKey)
    (key : ApiKey)
    → HashMap.lookup hash keys ≡ some key
    → (key.prefix == prefix && key.active) ≡ true
    → revoke_in (hash ∷ order) prefix keys
      ≡ (true, HashMap.insert hash (record key { active = false }) keys)
unfolding revoke_in
revoke_in-fits hash order prefix keys key e fits = ground (arith, e, fits)

revoke_in-other :
    (hash : List ℕ) (order : List (List ℕ)) (prefix : List ℕ) (keys : HashMap (List ℕ) ApiKey)
    (key : ApiKey)
    → HashMap.lookup hash keys ≡ some key
    → (key.prefix == prefix && key.active) ≡ false
    → revoke_in (hash ∷ order) prefix keys ≡ revoke_in order prefix keys
unfolding revoke_in
revoke_in-other hash order prefix keys key e other = ground (arith, e, other)

module _ (library : Library)
    (digest_injective : (a b : List ℕ) → library.digest a ≡ library.digest b → a ≡ b) where
  open library use {digest}

  -- The records are those of the ledger, each under the digest of its key.
  abbrev pub Mirrors : HashMap (List ℕ) ApiKey → Ledger → Type 0
  Mirrors [] [] = Unit
  Mirrors ((hash, key) ∷ keys) ((raw, live) ∷ l) =
      (hash ≡ digest raw) × (key.active ≡ live) × (key.prefix ≡ take 12 raw) × Mirrors keys l
  Mirrors _ _ = ⊥

  later_in :
      (raw hash : List ℕ) (order : List (List ℕ))
      → (hash == digest raw) ≡ false
      → contains (digest raw) (hash ∷ order) ≡ true
      → contains (digest raw) order ≡ true
  unfolding contains
  later_in raw hash order apart h =
      ground
        (arith, apart, bytes_eq.beq_iff hash (digest raw), bytes_eq.beq_iff (digest raw) hash, h)

  digest-beq : (a b : List ℕ) → (digest a == digest b) ≡ (a == b)
  digest-beq a b =
      ground
        (arith, bytes_eq.beq_iff a b, bytes_eq.beq_iff (digest a) (digest b), digest_injective a b)

  pub Mirrors-insert :
      (keys : HashMap (List ℕ) ApiKey) (l : Ledger) (raw : List ℕ) (key : ApiKey)
      → Mirrors keys l
      → contains raw (raws l) ≡ false
      → key.active ≡ true
      → key.prefix ≡ take 12 raw
      → Mirrors (HashMap.insert (digest raw) key keys) (issue raw l)
  unfolding HashMap.insert issue contains
  Mirrors-insert [] [] raw key m fresh live p = (refl, live, p, tt)
  Mirrors-insert [] (_ ∷ l) raw key m fresh live p = elim m [ ]
  Mirrors-insert ((hash, k) ∷ keys) [] raw key m fresh live p = elim m [ ]
  Mirrors-insert ((hash, k) ∷ keys) ((other, b) ∷ l) raw key m fresh live p =
      let apart : (hash == digest raw) ≡ false = ground (
        arith,
        m.0,
        digest-beq other raw,
        bytes_eq.beq_iff other raw,
        bytes_eq.beq_iff raw other,
        fresh,
      ) in
      rw apart (m.0, m.1, m.2, Mirrors-insert keys l raw key m.3 (ground (arith, fresh)) live p)

  pub any_active-any_live :
      (keys : HashMap (List ℕ) ApiKey) (l : Ledger) → Mirrors keys l → any_active keys ≡ any_live l
  unfolding any_active any_live
  any_active-any_live [] [] m = refl
  any_active-any_live [] (_ ∷ l) m = elim m [ ]
  any_active-any_live ((hash, k) ∷ keys) [] m = elim m [ ]
  any_active-any_live ((hash, k) ∷ keys) ((raw, live) ∷ l) m =
      ground (arith, any_active-any_live keys l m.3)

  pub is_active-is_live :
      (raw : List ℕ) (keys : HashMap (List ℕ) ApiKey) (l : Ledger)
      → Mirrors keys l
      → is_active (HashMap.lookup (digest raw) keys) ≡ is_live raw l
  unfolding HashMap.lookup is_live
  is_active-is_live raw [] [] m = refl
  is_active-is_live raw [] (_ ∷ l) m = elim m [ ]
  is_active-is_live raw ((hash, k) ∷ keys) [] m = elim m [ ]
  is_active-is_live raw ((hash, k) ∷ keys) ((other, live) ∷ l) m =
      ground (arith, m.0, m.1, digest-beq other raw, is_active-is_live raw keys l m.3)

  Mirrors-withdraw :
      (raw : List ℕ) (key : ApiKey) (keys : HashMap (List ℕ) ApiKey) (l : Ledger)
      → Mirrors keys l
      → HashMap.lookup (digest raw) keys ≡ some key
      → Mirrors (HashMap.insert (digest raw) (record key { active = false }) keys) (withdraw raw l)
  unfolding HashMap.lookup HashMap.insert withdraw
  Mirrors-withdraw raw key [] l m e = cc
  Mirrors-withdraw raw key ((hash, k) ∷ keys) [] m e = elim m [ ]
  Mirrors-withdraw raw key ((hash, k) ∷ keys) ((other, live) ∷ l) m e =
      let same : (hash == digest raw) ≡ (other == raw) =
        ground (arith, m.0, digest-beq other raw) in
      elim (Bool-cases (other == raw)) [
        | inl here ↦
            let found : key ≡ k = ground (arith, same, here, e) in
            rw (same, here)
              (
                sym (ap digest ((bytes_eq.beq_iff other raw).0 here)),
                refl,
                ap (λ (k : ApiKey). k.prefix) found ∙ m.2,
                m.3,
              )
        | inr there ↦
            let later : HashMap.lookup (digest raw) keys ≡ some key =
              ground (arith, same, there, e) in
            rw (same, there) (m.0, m.1, m.2, Mirrors-withdraw raw key keys l m.3 later)
      ]

  -- Each hash in the store is that of a key, whose prefix the record has.
  raw_of :
      (hash : List ℕ) (key : ApiKey) (keys : HashMap (List ℕ) ApiKey) (l : Ledger)
      → Mirrors keys l
      → HashMap.lookup hash keys ≡ some key
      → (raw : List ℕ) × (hash ≡ digest raw) × (key.prefix ≡ take 12 raw)
  unfolding HashMap.lookup
  raw_of hash key [] l m e = cc
  raw_of hash key ((h, k) ∷ keys) [] m e = elim m [ ]
  raw_of hash key ((h, k) ∷ keys) ((other, live) ∷ l) m e = elim (Bool-cases (h == hash)) [
    | inl here ↦
        let found : key ≡ k = ground (arith, here, e) in
        (
          other,
          sym ((bytes_eq.beq_iff h hash).0 here) ∙ m.0,
          ap (λ (k : ApiKey). k.prefix) found ∙ m.2,
        )
    | inr there ↦ raw_of hash key keys l m.3 (ground (arith, there, e))
  ]

  abbrev pub Revoked : List ℕ → Ledger → Bool × HashMap (List ℕ) ApiKey → Type 0
  Revoked prefix l r = (l' : Ledger) × Revokes prefix l l' × Mirrors r.1 l' × (raws l' ≡ raws l)

  -- A live key of the prefix is not that of a hash that the search passes over.
  apart-absent :
      (hash raw : List ℕ) (keys : HashMap (List ℕ) ApiKey) (l : Ledger)
      → Mirrors keys l
      → HashMap.lookup hash keys ≡ none
      → is_live raw l ≡ true
      → (hash == digest raw) ≡ false
  apart-absent hash raw keys l m e live = elim (Bool-cases (hash == digest raw)) [
    | inl here ↦
        let active = is_active-is_live raw keys l m in
        let gone : HashMap.lookup (digest raw) keys ≡ none =
          subst (λ h. HashMap.lookup h keys ≡ none) ((bytes_eq.beq_iff hash (digest raw)).0 here)
            e in
        absurd (ground (arith, active, gone, live))
    | inr there ↦ there
  ]

  apart-other :
      (hash raw prefix : List ℕ) (key : ApiKey) (keys : HashMap (List ℕ) ApiKey) (l : Ledger)
      → Mirrors keys l
      → HashMap.lookup hash keys ≡ some key
      → (key.prefix == prefix && key.active) ≡ false
      → (take 12 raw == prefix) ≡ true
      → is_live raw l ≡ true
      → (hash == digest raw) ≡ false
  apart-other hash raw prefix key keys l m e other p live = elim (Bool-cases (hash == digest raw)) [
    | inl here ↦
        let (own, at, named) = raw_of hash key keys l m e in
        let mine = (bytes_eq.beq_iff hash (digest raw)).0 here in
        let same : raw ≡ own = digest_injective raw own (sym mine ∙ at) in
        let p' : (key.prefix == prefix) ≡ true =
          subst (λ n. (n == prefix) ≡ true) (ap (take 12) same ∙ sym named) p in
        let found : HashMap.lookup (digest raw) keys ≡ some key =
          subst (λ h. HashMap.lookup h keys ≡ some key) mine e in
        let live' : key.active ≡ true =
          sym (ap is_active found) ∙ (is_active-is_live raw keys l m ∙ live) in
        absurd (ground (arith, p', live', other))
    | inr there ↦ there
  ]

  Revoked-fits :
      (hash prefix : List ℕ) (key : ApiKey) (keys : HashMap (List ℕ) ApiKey) (l : Ledger)
      → Mirrors keys l
      → HashMap.lookup hash keys ≡ some key
      → (key.prefix == prefix && key.active) ≡ true
      → Revoked prefix l (true, HashMap.insert hash (record key { active = false }) keys)
  Revoked-fits hash prefix key keys l m e fits =
      let (own, at, named) = raw_of hash key keys l m e in
      let found : HashMap.lookup (digest own) keys ≡ some key =
        subst (λ h. HashMap.lookup h keys ≡ some key) at e in
      let named' : (take 12 own == prefix) ≡ true =
        subst (λ p. (p == prefix) ≡ true) named (ground (arith, fits)) in
      let live : is_live own l ≡ true =
        sym (is_active-is_live own keys l m) ∙ (ap is_active found ∙ ground (arith, fits)) in
      let mirrors =
        subst
          (λ h. Mirrors (HashMap.insert h (record key { active = false }) keys) (withdraw own l))
          (sym at) (Mirrors-withdraw own key keys l m found) in
      (withdraw own l, inl (own, named', live, refl), mirrors, raws-withdraw own l)

  -- A revocation that visits every live key of the prefix.
  pub Revoked-revoke_in :
      (order : List (List ℕ)) (prefix : List ℕ) (keys : HashMap (List ℕ) ApiKey) (l : Ledger)
      → Mirrors keys l
      → ((raw : List ℕ)
          → (take 12 raw == prefix) ≡ true
          → is_live raw l ≡ true
          → contains (digest raw) order ≡ true)
      → Revoked prefix l (revoke_in order prefix keys)
  unfolding contains revoke_in
  Revoked-revoke_in [] prefix keys l m visits =
      let spared : (raw : List ℕ) → (take 12 raw == prefix) ≡ true → is_live raw l ≡ false =
        λ raw p. elim (Bool-cases (is_live raw l)) [
          | inl live ↦ absurd (ground (arith, visits raw p live))
          | inr dead ↦ dead
        ] in
      (l, inr (spared, refl), m, refl)
  Revoked-revoke_in (hash ∷ order) prefix keys l m visits =
      elim (Option-cases (HashMap.lookup hash keys)) [
        | inl e ↦
            let later = Revoked-revoke_in order prefix keys l m (λ raw p live.
              later_in raw hash order (apart-absent hash raw keys l m e live)
                (visits raw p live)) in
            subst (Revoked prefix l) (sym (revoke_in-absent hash order prefix keys e)) later
        | inr (key, e) ↦ elim (Bool-cases (key.prefix == prefix && key.active)) [
          | inl fits ↦
              subst (Revoked prefix l) (sym (revoke_in-fits hash order prefix keys key e fits))
                (Revoked-fits hash prefix key keys l m e fits)
          | inr other ↦
              let later = Revoked-revoke_in order prefix keys l m (λ raw p live.
                later_in raw hash order (apart-other hash raw prefix key keys l m e other p live)
                  (visits raw p live)) in
              subst (Revoked prefix l) (sym (revoke_in-other hash order prefix keys key e other))
                later
        ]
      ]
