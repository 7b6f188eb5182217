-- ===== src/Builder/Signatures.antt =====
-- src/builder.rs: what an artifact that loads is, and what its signature covers.
use trytet.Prelude.{
  ℕ, ◌*◌, ◌≤◌, ◌≡◌, ◌∙◌, ap, subst, refl, arith, Bool, true, Option, none, some, List, ◌++◌, length,
}
use trytet.Engine.{AgentManifest}
use trytet.Builder.{
  BuildError, TetArtifact, ArtifactReceipt, Libraries, Files, Result, ok, err, with_author,
  from_toml, check_headroom, signed_hash, sign_artifact, read_files, write_artifact, assemble,
  decode_key, check_artifact, verify_and_load, io, serialization, or_error, require, ◌>>=◌, zstd,
  is_named, hardware_limit,
}

-- What the two steps of a chain gave, when it succeeds.
bind-ok {ℓ κ} :
    {A : Type ℓ} {B : Type κ} (step : Result A) (next : A → Result B) {result : B}
    → (step >>= next) ≡ ok result
    → (a : A) × (next a ≡ ok result) × (step ≡ ok a)
bind-ok (err e) next h = cc
bind-ok (ok a) next h = (a, h, refl)

or_error-eq-ok {ℓ} :
    {A : Type ℓ} (e : BuildError) (o : Option A) {a : A} → or_error e o ≡ ok a → o ≡ some a
or_error-eq-ok e none h = cc
or_error-eq-ok e (some a) h = cc

module _ (libraries : Libraries) where
  open libraries use {
    SigningKey, Key, public_bytes, sign, key_of, verify, encode, decode, sha256, encode_all,
    serialize, deserialize,
  }

  check_artifact-sign_artifact :
      (key : SigningKey) (manifest : AgentManifest) (wasm vfs_zstd : List ℕ)
      → check_artifact libraries (sign_artifact libraries key manifest wasm vfs_zstd) ≡ ok tt
  unfolding check_artifact sign_artifact with_author decode_key
  check_artifact-sign_artifact key manifest wasm vfs_zstd =
      let m = signed_hash libraries wasm vfs_zstd in
      let (v, found, good) = libraries.verify-sign key m in
      ground (
        arith,
        libraries.decode-encode (public_bytes key),
        libraries.length-public_bytes key,
        found,
        libraries.length-sign key m,
        good,
      )

  -- What a build reads: its manifest, which names an author and fits the hardware, the Wasm, and the
  -- compressed form of the VFS.
  abbrev Read : Files → AgentManifest → List ℕ → List ℕ → Type 0
  Read files manifest wasm vfs_zstd =
      ((text : List ℕ) × (files.manifest ≡ some text) × (libraries.toml text ≡ some manifest))
      × (is_named manifest.metadata.author_pubkey ≡ true)
      × (manifest.constraints.max_memory_pages * 65536 ≤ 10000000000)
      × (files.wasm ≡ some wasm)
      × ((vfs : List ℕ) × (files.vfs ≡ some vfs) × (encode_all vfs ≡ some vfs_zstd))

  from_toml-ok :
      (text : List ℕ) (manifest : AgentManifest)
      → from_toml libraries text ≡ ok manifest
      → (libraries.toml text ≡ some manifest) × (is_named manifest.metadata.author_pubkey ≡ true)
  unfolding from_toml
  from_toml-ok text manifest h = (ground (arith, h), ground (arith, h))

  check_headroom-ok :
      (manifest : AgentManifest)
      → check_headroom libraries manifest ≡ ok tt
      → manifest.constraints.max_memory_pages * 65536 ≤ 10000000000
  unfolding check_headroom hardware_limit
  check_headroom-ok manifest h = ground (arith, h)

  Read-read_files :
      (files : Files) (manifest : AgentManifest) (wasm vfs_zstd : List ℕ)
      → read_files libraries files ≡ ok (manifest, wasm, vfs_zstd)
      → Read files manifest wasm vfs_zstd
  unfolding read_files
  Read-read_files files manifest wasm vfs_zstd h =
      let (text, h1, e1) = bind-ok (or_error io files.manifest) _ h in
      let (parsed, h2, e2) = bind-ok (from_toml libraries text) _ h1 in
      let (u, h3, e3) = bind-ok (check_headroom libraries parsed) _ h2 in
      let (bytes, h4, e4) = bind-ok (or_error io files.wasm) _ h3 in
      let (vfs, h5, e5) = bind-ok (or_error io files.vfs) _ h4 in
      let (packed, h6, e6) = bind-ok (or_error zstd (encode_all vfs)) _ h5 in
      let same : parsed ≡ manifest = cc (h6) in
      let (toml, named) = from_toml-ok text parsed e2 in
      (
        (text, or_error-eq-ok io files.manifest e1, toml ∙ ap some same),
        subst (λ (m : AgentManifest). is_named m.metadata.author_pubkey ≡ true) same named,
        subst (λ (m : AgentManifest). m.constraints.max_memory_pages * 65536 ≤ 10000000000) same
            (check_headroom-ok parsed e3),
        or_error-eq-ok io files.wasm e4 ∙ cc (h6),
        (vfs, or_error-eq-ok io files.vfs e5, or_error-eq-ok zstd (encode_all vfs) e6 ∙ cc (h6)),
      )

  -- What is written loads as the artifact that was signed.
  write_artifact-loads :
      (key : SigningKey) (writes : Bool) (manifest : AgentManifest) (wasm vfs_zstd : List ℕ)
      (receipt : ArtifactReceipt) (blob : List ℕ)
      → write_artifact libraries key writes (manifest, wasm, vfs_zstd) ≡ ok (receipt, blob)
      → (verify_and_load libraries blob ≡ ok (sign_artifact libraries key manifest wasm vfs_zstd))
        × (receipt.hash ≡ encode (signed_hash libraries wasm vfs_zstd))
        × (receipt.size_bytes ≡ length blob)
  unfolding write_artifact verify_and_load
  write_artifact-loads key writes manifest wasm vfs_zstd receipt blob h =
      let a = sign_artifact libraries key manifest wasm vfs_zstd in
      let (blob', h1, e) = bind-ok (or_error serialization (serialize a)) _ h in
      let (u, h2, e1) = bind-ok (require writes io) _ h1 in
      let same : blob' ≡ blob = cc (h2) in
      let written = or_error-eq-ok serialization (serialize a) e in
      let back = libraries.deserialize-serialize a blob' written in
      let good = check_artifact-sign_artifact key manifest wasm vfs_zstd in
      (ground (arith, same, back, good), ground (arith, h2), ground (arith, h2))

  -- What an artifact has of the files of its build, under the name of the build's key.
  abbrev pub Holds : Files → SigningKey → TetArtifact → Type 0
  Holds files key a =
      ((text : List ℕ) × (manifest : AgentManifest) × (files.manifest ≡ some text)
        × (libraries.toml text ≡ some manifest)
        × (is_named manifest.metadata.author_pubkey ≡ true)
        × (manifest.constraints.max_memory_pages * 65536 ≤ 10000000000)
        × (a.manifest.permissions ≡ manifest.permissions)
        × (a.manifest.constraints ≡ manifest.constraints)
        × (a.manifest.metadata.name ≡ manifest.metadata.name)
        × (a.manifest.metadata.version ≡ manifest.metadata.version))
      × (a.manifest.metadata.author_pubkey ≡ some (encode (public_bytes key)))
      × (files.wasm ≡ some a.blueprint_wasm)
      × ((vfs : List ℕ) × (files.vfs ≡ some vfs) × (encode_all vfs ≡ some a.vfs_zstd))

  -- What a build writes is accepted by `verify_and_load`, which gives back the artifact of the build:
  -- the Wasm of its files, the compressed form of their VFS, and their manifest, with its permissions,
  -- its constraints, its name and its version, in the name of the build's key as author. The manifest
  -- had named an author, and asks for at most 10 GB of memory. The receipt has the digest of the Wasm
  -- with the compressed VFS, and the length of what is written.
  pub verify_and_load-assemble :
      (files : Files) (key : SigningKey) (receipt : ArtifactReceipt) (blob : List ℕ)
      → assemble libraries files key ≡ ok (receipt, blob)
      → (a : TetArtifact) × (verify_and_load libraries blob ≡ ok a)
        × Holds files key a
        × (receipt.hash ≡ encode (sha256 (a.blueprint_wasm ++ a.vfs_zstd)))
        × (receipt.size_bytes ≡ length blob)
  unfolding assemble sign_artifact with_author signed_hash
  verify_and_load-assemble files key receipt blob h =
      let ((manifest, wasm, vfs_zstd), h1, e) = bind-ok (read_files libraries files) _ h in
      let (loads, hash, size) =
        write_artifact-loads key files.writes manifest wasm vfs_zstd receipt blob h1 in
      let ((text, read, toml), named, fits, wasm_read, packed) =
        Read-read_files files manifest wasm vfs_zstd e in
      (
        sign_artifact libraries key manifest wasm vfs_zstd,
        loads,
        (
          (text, manifest, read, toml, named, fits, refl, refl, refl, refl),
          refl,
          wasm_read,
          packed,
        ),
        hash,
        size,
      )

  -- The signature covers neither the manifest nor where the Wasm ends: an artifact that loads still
  -- does with any other manifest of the same author and with any other division of the same bytes.
  pub check_artifact-malleable :
      (a b : TetArtifact)
      → check_artifact libraries a ≡ ok tt
      → b.manifest.metadata.author_pubkey ≡ a.manifest.metadata.author_pubkey
      → b.blueprint_wasm ++ b.vfs_zstd ≡ a.blueprint_wasm ++ a.vfs_zstd
      → b.signature ≡ a.signature
      → check_artifact libraries b ≡ ok tt
  unfolding check_artifact signed_hash
  check_artifact-malleable a b h author bytes signature =
      ground (arith, author, bytes, signature, h)
