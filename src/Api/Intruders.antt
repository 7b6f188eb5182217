-- ===== src/Api/Intruders.antt =====
-- src/api.rs: the protected routes against requests without a key that counts.
use trytet.Prelude.{
  ℕ, ◌≡◌, refl, arith, Bool, true, false, Option, none, some, List, [], ◌∷◌, All, bytes_eq, subst,
  codes, if◌then◌else◌, Option-cases, inl, inr,
}
use trytet.Prelude.HashMap
use trytet.Api.{AppState, Call, Response, answer, error, Moment}
use trytet.Api.Handlers.{Parts, respond, protected}
use trytet.Auth.{
  KeyStore, Headers, unauthorized, has_keys, is_active, validate, extract_api_key, verdict,
  require_api_key,
}

pub record Attempt : Type 0 where
  pub moment : Moment
  pub headers : Headers
  pub call : Call

abbrev pub refusal : Response
refusal = answer 401 (error (codes "unauthorized") (codes "AuthenticationRequired"))

module _ (parts : Parts) where
  open parts use {library}

  abbrev pub is_rejected : KeyStore → Option (List ℕ) → Bool
  is_rejected store none = true
  is_rejected store (some key) =
      if is_active (HashMap.lookup (library.digest key) store.keys) then false else true

  -- The request carries no key, or one that the store has not as an active one.
  abbrev pub Intrudes : KeyStore → Attempt → Type 0
  Intrudes store a = is_rejected store (extract_api_key library a.headers) ≡ true

  unfoldable pub attempts : AppState → List Attempt → List Response × AppState
  unfolding protected
  attempts s [] = ([], s)
  attempts s (a ∷ rest) =
      let (response, s') = protected parts a.moment s a.headers a.call in
      let (responses, last) = attempts s' rest in (response ∷ responses, last)

  require_api_key-rejected :
      (store : KeyStore) (headers : Headers)
      → has_keys store ≡ true
      → is_rejected store (extract_api_key library headers) ≡ true
      → require_api_key library store headers ≡ (unauthorized, store)
  unfolding require_api_key validate verdict
  require_api_key-rejected store headers keys h =
      elim (Option-cases (extract_api_key library headers)) [
        | inl e ↦ ground (arith, keys, e)
        | inr (key, e) ↦
            let h' : is_rejected store (some key) ≡ true =
              subst (λ o. is_rejected store o ≡ true) e h in
            ground (arith, keys, e, h')
      ]

  protected-Intrudes :
      (s : AppState) (a : Attempt)
      → has_keys s.key_store ≡ true
      → Intrudes s.key_store a
      → protected parts a.moment s a.headers a.call ≡ (refusal, s)
  unfolding protected respond
  protected-Intrudes s a keys h =
      rw (protected, require_api_key-rejected s.key_store a.headers keys h) refl

  -- As long as a key is active, whatever requests come to the protected routes without a key that is,
  -- in any number and whatever they ask for, each is refused, and the node is left as it was, whatever
  -- the handlers that are left out would do.
  pub attempts-Intrudes :
      (s : AppState) (tries : List Attempt)
      → has_keys s.key_store ≡ true
      → All (Intrudes s.key_store) tries
      → All (λ r. r ≡ refusal) (attempts s tries).0 × ((attempts s tries).1 ≡ s)
  unfolding attempts
  attempts-Intrudes s [] keys h = (tt, refl)
  attempts-Intrudes s (a ∷ rest) keys (h, hs) =
      rw (protected-Intrudes s a keys h)
        (let (refused, same) = attempts-Intrudes s rest keys hs in ((refl, refused), same))
