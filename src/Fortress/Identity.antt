-- ===== src/Fortress/Identity.antt =====
-- src/fortress.rs: what keeps tenants apart, and what the identity headers cost.
use trytet.Prelude.{
  ℕ, zero, suc, ◌+◌, ◌≡◌, ◌≢◌, ◌≤◌, refl, ap, arith, none, some, List, [], ◌∷◌, length, take,
  length-take, ◌++◌, ◌↔◌, codes, ◌==◌, ◌&&◌, bytes_eq, not, true,
}
use trytet.Fortress.{Identities, IsBytes, tenant_id, inject, header_overhead}

-- A key that the source takes for a tenant's.
abbrev pub IsKey : List ℕ → Type 0
IsKey pk = (not (pk == []) && not (pk == codes "UNKNOWN")) ≡ true

take-IsBytes : (n : ℕ) (bytes : List ℕ) → IsBytes bytes → IsBytes (take n bytes)
take-IsBytes zero bytes h = tt
take-IsBytes (suc n) [] h = tt
take-IsBytes (suc n) (b ∷ bytes) h = (h.0, take-IsBytes n bytes h.1)

-- The bytes of headers on the wire: `name: value\r\n`.
pub wire_length : List (List ℕ × List ℕ) → ℕ
wire_length [] = 0
wire_length ((name, value) ∷ headers) = length name + 2 + length value + 2 + wire_length headers

module _ (identities : Identities) where
  open identities use {
    sha256, length-sha256, sha256-IsBytes, encode, length-encode, encode_injective, sign_bytes,
    length-sign_bytes,
  }

  tenant_id-of_key :
      (pk : List ℕ) → IsKey pk → tenant_id identities (some pk) ≡ encode (take 8 (sha256 pk))
  unfolding tenant_id
  tenant_id-of_key pk h = rw h refl

  -- Two keys name one tenant exactly when the first eight bytes of their hashes agree, and no key
  -- names the tenant of the agents without a key.
  pub tenant_id-separates :
      (pk other : List ℕ)
      → IsKey pk
      → IsKey other
      → ((tenant_id identities (some pk) ≡ tenant_id identities (some other))
          ↔ (take 8 (sha256 pk) ≡ take 8 (sha256 other)))
        × (tenant_id identities (some pk) ≢ tenant_id identities none)
  unfolding tenant_id
  tenant_id-separates pk other h k =
      rw (h, k)
        (
          (
            (λ same.
                encode_injective (take 8 (sha256 pk)) (take 8 (sha256 other))
                  (take-IsBytes 8 (sha256 pk) (sha256-IsBytes pk))
                  (take-IsBytes 8 (sha256 other) (sha256-IsBytes other)) same),
            (λ same. ap encode same),
          ),
          (λ same.
              let lengths = ap length same in
              let hex = length-encode (take 8 (sha256 pk)) in
              let eight = length-take 8 (sha256 pk) in let hash = length-sha256 pk in omega arith),
        )

  -- The overhead that is metered covers the bytes of the injected headers on the wire.
  pub inject-within_overhead :
      (tet_id author_pubkey method url body : List ℕ)
      → wire_length (inject identities tet_id author_pubkey method url body)
        ≤ header_overhead tet_id author_pubkey
  unfolding inject header_overhead wire_length
  inject-within_overhead tet_id author_pubkey method url body =
      let payload = method ++ (codes "|" ++ (url ++ (codes "|" ++ body))) in
      let hex = length-encode (sign_bytes payload) in
      let sig = length-sign_bytes payload in omega arith
