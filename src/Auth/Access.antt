-- ===== src/Auth/Access.antt =====
-- src/auth.rs: the key store against a ledger of the keys that were issued.
use trytet.Prelude.{
  ℕ, ◌≡◌, refl, arith, true, false, List, [], ◌∷◌, ◌++◌, ◌==◌, bytes_eq, contains, All, sym, ap,
  subst, ◌∙◌, Option-cases, Bool-cases, inl, inr,
}
use trytet.Auth.Ledger.{
  Event, create, revoke_prefix, request, Ledger, issue, is_live, raw_key, Leads, raws, raws-issue,
  serves,
}
use trytet.Auth.Revocation.{
  Mirrors, Mirrors-insert, any_active-any_live, is_active-is_live, Revoked-revoke_in,
}
use trytet.Auth.{
  KeyStore, Library, new, new_key, has_keys, create_key, validate, revoke, Headers, extract_api_key,
  verdict, require_api_key,
}

module _ (library : Library)
    (digest_injective : (a b : List ℕ) → library.digest a ≡ library.digest b → a ≡ b) where
  open library use {digest}

  unfoldable pub after : KeyStore → Event → KeyStore
  unfolding create_key revoke require_api_key
  after s (create label uuid now) = (create_key library s label uuid now).1
  after s (revoke_prefix order prefix) = (revoke order s prefix).1
  after s (request headers) = (require_api_key library s headers).1

  -- No UUID is drawn twice, and each revocation visits the key store in an order that has every key
  -- issued so far.
  abbrev pub Sound : List (List ℕ) → List Event → Type 0
  Sound issued [] = Unit
  Sound issued (create label uuid now ∷ events) =
      (contains (raw_key uuid) issued ≡ false) × Sound (issued ++ raw_key uuid ∷ []) events
  Sound issued (revoke_prefix order prefix ∷ events) =
      All (λ raw. contains (digest raw) order ≡ true) issued × Sound issued events
  Sound issued (request headers ∷ events) = Sound issued events

  unfoldable pub run : KeyStore → List Event → KeyStore
  unfolding after
  run s [] = s
  run s (e ∷ events) = run (after s e) events

  keys-require_api_key :
      (s : KeyStore) (headers : Headers) → (require_api_key library s headers).1.keys ≡ s.keys
  unfolding require_api_key validate verdict
  keys-require_api_key s headers = ground arith

  serves-require_api_key :
      (s : KeyStore) (l : Ledger) (headers : Headers)
      → Mirrors library digest_injective s.keys l
      → (require_api_key library s headers).0 ≡ serves l (extract_api_key library headers)
  unfolding require_api_key serves has_keys validate verdict
  serves-require_api_key s l headers m =
      let same = any_active-any_live library digest_injective s.keys l m in
      elim (Option-cases (extract_api_key library headers)) [
        | inl e ↦ rw (e, same) (ground arith)
        | inr (key, e) ↦
            let active = is_active-is_live library digest_injective key s.keys l m in
            rw (e, same) (ground (arith, active))
      ]

  visits-All :
      (order : List (List ℕ)) (l : Ledger)
      → All (λ raw. contains (digest raw) order ≡ true) (raws l)
      → (raw : List ℕ) → is_live raw l ≡ true
      → contains (digest raw) order ≡ true
  unfolding is_live
  visits-All order [] h raw live = cc
  visits-All order ((other, b) ∷ l) h raw live = elim (Bool-cases (other == raw)) [
    | inl here ↦
        subst (λ r. contains (digest r) order ≡ true) ((bytes_eq.beq_iff other raw).0 here) h.0
    | inr there ↦ visits-All order l h.1 raw (ground (arith, there, live))
  ]

  Mirrors-run :
      (s : KeyStore) (l : Ledger) (issued : List (List ℕ)) (events : List Event)
      → Mirrors library digest_injective s.keys l
      → raws l ≡ issued
      → Sound issued events
      → (last : Ledger) × Leads l events last
        × Mirrors library digest_injective (run s events).keys last
  unfolding run after create_key new_key revoke raw_key
  Mirrors-run s l issued [] m e f = (l, refl, m)
  Mirrors-run s l issued (create label uuid now ∷ events) m e f =
      let fresh : contains (raw_key uuid) (raws l) ≡ false =
        subst (λ is. contains (raw_key uuid) is ≡ false) (sym e) f.0 in
      Mirrors-run (after s (create label uuid now)) (issue (raw_key uuid) l)
        (issued ++ raw_key uuid ∷ []) events
        (Mirrors-insert library digest_injective s.keys l (raw_key uuid) _ m fresh refl refl)
        (raws-issue (raw_key uuid) l ∙ ap (λ is. is ++ raw_key uuid ∷ []) e) f.1
  Mirrors-run s l issued (revoke_prefix order prefix ∷ events) m e f =
      let visited = subst (All (λ raw. contains (digest raw) order ≡ true)) (sym e) f.0 in
      let (l', revokes, m', same) =
        Revoked-revoke_in library digest_injective order prefix s.keys l m
          (λ raw p live. visits-All order l visited raw live) in
      let (last, leads, mirrors) =
        Mirrors-run (after s (revoke_prefix order prefix)) l' issued events m' (same ∙ e) f.1 in
      (last, (l', revokes, leads), mirrors)
  Mirrors-run s l issued (request headers ∷ events) m e f =
      Mirrors-run (after s (request headers)) l issued events
        (rw (keys-require_api_key s headers) m) e f

  -- After any history of keys created and revoked and of requests, from the empty store, the requests
  -- that pass are those of a ledger of the keys issued, in which each revocation has withdrawn one live
  -- key of its prefix, if there was one: a request passes exactly when no key is live or the key that
  -- it carries is. UUIDs are never drawn twice, the digest tells keys apart, and each revocation visits
  -- the map in any order that has every key issued so far.
  pub require_api_key-serves :
      (events : List Event)
      → Sound [] events
      → (last : Ledger) × Leads [] events last
        × ((headers : Headers)
            → (require_api_key library (run new events) headers).0
              ≡ serves last (extract_api_key library headers))
  unfolding new
  require_api_key-serves events f =
      let (last, leads, mirrors) = Mirrors-run new [] [] events tt refl f in
      (last, leads, λ headers. serves-require_api_key (run new events) last headers mirrors)
