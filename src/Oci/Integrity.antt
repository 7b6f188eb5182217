-- ===== src/Oci/Integrity.antt =====
-- src/registry/oci.rs: what is pushed is what is pulled, from a registry that keeps what it is given.
use trytet.Prelude.{
  ℕ, ◌≡◌, refl, ap, ◌∙◌, arith, true, Option, none, some, List, [], ◌∷◌, bytes_eq, eq_refl, All,
  Bool-cases, inl, inr, codes,
}
use trytet.Builder.{TetArtifact}
use trytet.Hive.{SnapshotPayload}
use trytet.Oci.{
  OciManifest, Registry, Libraries, name_and_tag, ◌>>=◌, find_layer, upload_blob, upload_all,
  artifact_manifest, push, fetch_blob, pull, state_manifest, push_state, pull_state,
}

bind-some {ℓ κ} :
    {A : Type ℓ} {B : Type κ} (m : Option A) (f : A → Option B) {b : B}
    → (m >>= f) ≡ some b
    → (a : A) × (m ≡ some a) × (f a ≡ some b)
bind-some none f h = cc
bind-some (some a) f h = (a, refl, h)

-- A registry keeps each blob under the digest of its content, and the last manifest of a tag.
pub record Keeps (registry : Registry) (libraries : Libraries) : Type 0 where
  pub content_addressed :
      (s : registry.State) (name digest : List ℕ)
      → registry.has_blob s name digest ≡ true
      → (content : List ℕ) × (registry.get_blob s name digest ≡ some content)
        × (libraries.digest_of content ≡ digest)
  pub get-put_blob :
      (s s' : registry.State) (name digest content : List ℕ)
      → registry.put_blob s name digest content ≡ some s'
      → registry.get_blob s' name digest ≡ some content
  pub get-put_blob_other :
      (s s' : registry.State) (name digest content other kept : List ℕ)
      → registry.put_blob s name digest content ≡ some s'
      → registry.get_blob s name other ≡ some kept
      → (other ≡ digest → kept ≡ content)
      → registry.get_blob s' name other ≡ some kept
  pub get-put_manifest :
      (s s' : registry.State) (name tag : List ℕ) (m : OciManifest)
      → registry.put_manifest s name tag m ≡ some s'
      → registry.get_manifest s' name tag ≡ some m
  pub get_blob-put_manifest :
      (s s' : registry.State) (name tag digest : List ℕ) (m : OciManifest)
      → registry.put_manifest s name tag m ≡ some s'
      → registry.get_blob s' name digest ≡ registry.get_blob s name digest
  pub digest_injective : (a b : List ℕ) → libraries.digest_of a ≡ libraries.digest_of b → a ≡ b

module _ (registry : Registry) (libraries : Libraries) (keeps : Keeps registry libraries) where
  open registry use {State, has_blob, put_blob, get_blob, put_manifest, get_manifest}
  open libraries use {digest_of}

  -- The content is there under its digest.
  abbrev Holds : State → List ℕ → List ℕ → Type 0
  Holds s name content = get_blob s name (digest_of content) ≡ some content

  upload_blob-Holds :
      (s s' : State) (name content : List ℕ)
      → upload_blob registry libraries s name (digest_of content) content ≡ some s'
      → Holds s' name content
  unfolding upload_blob
  upload_blob-Holds s s' name content h = elim (Bool-cases (has_blob s name (digest_of content))) [
    | inl there ↦
        let (found, got, same) = keeps.content_addressed s name (digest_of content) there in
        let equal = keeps.digest_injective found content same in
        ground (arith, h, there, got, equal)
    | inr missing ↦ keeps.get-put_blob s s' name (digest_of content) content (rw missing at h)
  ]

  Holds-upload_blob :
      (s s' : State) (name content other : List ℕ)
      → upload_blob registry libraries s name (digest_of content) content ≡ some s'
      → Holds s name other
      → Holds s' name other
  unfolding upload_blob
  Holds-upload_blob s s' name content other h held =
      elim (Bool-cases (has_blob s name (digest_of content))) [
        | inl there ↦ ground (arith, h, there, held)
        | inr missing ↦
            keeps.get-put_blob_other s s' name (digest_of content) content (digest_of other) other
              (rw missing at h) held (keeps.digest_injective other content)
      ]

  Holds-upload_all :
      (s s' : State) (name other : List ℕ) (contents : List (List ℕ))
      → upload_all registry libraries s name contents ≡ some s'
      → Holds s name other
      → Holds s' name other
  unfolding upload_all
  Holds-upload_all s s' name other [] h held = ground (arith, h, held)
  Holds-upload_all s s' name other (content ∷ contents) h held =
      let (t, first, rest) =
        bind-some (upload_blob registry libraries s name (digest_of content) content) _ h in
      Holds-upload_all t s' name other contents rest
        (Holds-upload_blob s t name content other first held)

  upload_all-Holds :
      (s s' : State) (name : List ℕ) (contents : List (List ℕ))
      → upload_all registry libraries s name contents ≡ some s'
      → All (Holds s' name) contents
  unfolding upload_all
  upload_all-Holds s s' name [] h = tt
  upload_all-Holds s s' name (content ∷ contents) h =
      let (t, first, rest) =
        bind-some (upload_blob registry libraries s name (digest_of content) content) _ h in
      (
        Holds-upload_all t s' name content contents rest (upload_blob-Holds s t name content first),
        upload_all-Holds t s' name contents rest,
      )

  -- What is held is fetched, also after a manifest has been put.
  fetch_blob-Holds :
      (s s' : State) (name tag content : List ℕ) (m : OciManifest)
      → Holds s name content
      → put_manifest s name tag m ≡ some s'
      → fetch_blob registry libraries s' name (digest_of content) ≡ some content
  unfolding fetch_blob
  fetch_blob-Holds s s' name tag content m held put =
      let got = keeps.get_blob-put_manifest s s' name tag (digest_of content) m put ∙ held in
      rw got (rw (eq_refl (digest_of content)) refl)

  -- A pull, from what its requests answer.
  pull_state-found :
      (s : State) (p : SnapshotPayload) (reference bytes : List ℕ)
      → get_manifest s (name_and_tag reference).0 (name_and_tag reference).1
        ≡ some (state_manifest registry libraries bytes)
      → fetch_blob registry libraries s (name_and_tag reference).0 (digest_of bytes) ≡ some bytes
      → libraries.deserialize bytes ≡ some p
      → pull_state registry libraries s reference ≡ some p
  unfolding pull_state state_manifest find_layer
  pull_state-found s p reference bytes found fetched read = rw (found, fetched, read) refl

  pull-found :
      (s : State) (a : TetArtifact) (reference json : List ℕ)
      → get_manifest s (name_and_tag reference).0 (name_and_tag reference).1
        ≡ some (artifact_manifest registry libraries a json)
      → All
          (λ c. fetch_blob registry libraries s (name_and_tag reference).0 (digest_of c) ≡ some c)
          (a.blueprint_wasm ∷ a.vfs_zstd ∷ a.signature ∷ json ∷ [])
      → libraries.parse_manifest json ≡ some a.manifest
      → pull registry libraries s reference ≡ some a
  unfolding pull artifact_manifest find_layer
  pull-found s a reference json found fetched read =
      rw (found, fetched.1.1.1.0, fetched.0, fetched.1.0, fetched.1.1.0, read) refl

  -- All that a push uploads is fetched once its manifest is put.
  fetch_blob-pushed :
      (t s' : State) (name tag : List ℕ) (m : OciManifest) (contents : List (List ℕ))
      → All (Holds t name) contents
      → put_manifest t name tag m ≡ some s'
      → All (λ c. fetch_blob registry libraries s' name (digest_of c) ≡ some c) contents
  fetch_blob-pushed t s' name tag m [] held put = tt
  fetch_blob-pushed t s' name tag m (c ∷ contents) held put = (
    fetch_blob-Holds t s' name tag c m held.0 put,
    fetch_blob-pushed t s' name tag m contents held.1 put,
  )

  -- A state that was pushed under a reference is pulled from it as it was.
  pub pull_state-push_state :
      (s s' : State) (p : SnapshotPayload) (reference digest : List ℕ)
      → push_state registry libraries s p reference ≡ some (digest, s')
      → pull_state registry libraries s' reference ≡ some p
  unfolding push_state
  pull_state-push_state s s' p reference digest h =
      let name = (name_and_tag reference).0 in
      let tag = (name_and_tag reference).1 in
      let (bytes, written, h1) = bind-some (libraries.serialize p) _ h in
      let contents = bytes ∷ codes "{}" ∷ [] in
      let (t, uploaded, h2) = bind-some (upload_all registry libraries s name contents) _ h1 in
      let m = state_manifest registry libraries bytes in
      let (u, put, h3) = bind-some (put_manifest t name tag m) _ h2 in
      let same : u ≡ s' = cc (h3) in
      let put' : put_manifest t name tag m ≡ some s' = put ∙ ap some same in
      let fetched =
        fetch_blob-pushed t s' name tag m contents (upload_all-Holds s t name contents uploaded)
          put' in
      pull_state-found s' p reference bytes (keeps.get-put_manifest t s' name tag m put') fetched.0
        (libraries.deserialize-serialize p bytes written)

  -- An artifact that was pushed under a reference is pulled from it as it was.
  pub pull-push :
      (s s' : State) (a : TetArtifact) (reference : List ℕ)
      → push registry libraries s a reference ≡ some s'
      → pull registry libraries s' reference ≡ some a
  unfolding push
  pull-push s s' a reference h =
      let name = (name_and_tag reference).0 in
      let tag = (name_and_tag reference).1 in
      let (json, written, h1) = bind-some (libraries.print_manifest a.manifest) _ h in
      let contents = a.blueprint_wasm ∷ a.vfs_zstd ∷ a.signature ∷ json ∷ [] in
      let (t, uploaded, put) = bind-some (upload_all registry libraries s name contents) _ h1 in
      let m = artifact_manifest registry libraries a json in
      pull-found s' a reference json (keeps.get-put_manifest t s' name tag m put)
        (fetch_blob-pushed t s' name tag m contents (upload_all-Holds s t name contents uploaded)
          put)
        (libraries.parse-print_manifest a.manifest json written)
