-- ===== src/Artifacts/Blocks.antt =====
-- src/registry/identity.rs: what a pull gives, whatever the swarm answers.
use trytet.Prelude.{
  ℕ, ◌<◌, ◌≢◌, ◌≡◌, Bool, true, false, none, some, Option, List, [], ◌∷◌, ◌++◌, ◌⊎◌, codes,
}
use trytet.Economy.Crypto.{Ed25519, Hex}
use trytet.Artifacts.{
  ArtifactManifest, Block, write_block, read_block, max_size_bytes, total_size, Route, found,
  missing, refused, Libraries, Result, ok, err, hash_mismatch, serde_error, resolution_failed,
  signature_verification_failed, verify_signature, push_artifact,
}

pub record Push : Type 0 where
  pub now : ℕ
  pub updates : List ℕ → Bool
  pub manifest : ArtifactManifest
  pub wasm_bytes : List ℕ

module _ (crypto : Ed25519) (hex : Hex) (libraries : Libraries) where
  open libraries use {encode, sha256, print_number, parse_manifest}

  -- A block that is named by the digest of its content.
  abbrev pub IsAddressed : Block → Type 0
  IsAddressed b = encode (sha256 b.content) ≡ b.name

  -- The disk after any number of pushes, whether they succeed or not.
  unfoldable pub push_all : List Block → List Push → List Block
  unfolding push_artifact
  push_all blocks [] = blocks
  push_all blocks (p ∷ pushes) =
      push_all (push_artifact crypto hex libraries p.now p.updates blocks p.manifest p.wasm_bytes).1
        pushes

  -- The author of a manifest has signed its alias, its digest and its time.
  abbrev pub is_signed : ArtifactManifest → Bool
  is_signed m =
      verify_signature crypto hex libraries m.author_pubkey
        (m.alias ++ (codes ":" ++ (m.wasm_cid ++ (codes ":" ++ print_number m.timestamp))))
        (encode m.signature)

  -- The bytes are those of the block that the manifest names, with its digest, or there is no such
  -- block, and they are none.
  abbrev pub AreStored : List Block → ArtifactManifest → List ℕ → Type 0
  AreStored blocks m bytes =
      ((read_block m.wasm_cid blocks ≡ some bytes) × (encode (sha256 bytes) ≡ m.wasm_cid))
      ⊎ ((read_block m.wasm_cid blocks ≡ none) × (bytes ≡ []))

  abbrev pub Parsed :
      List Block → Option ArtifactManifest → Result (ArtifactManifest × List ℕ) → Type 0
  Parsed blocks none r = r ≡ err resolution_failed
  Parsed blocks (some m) r =
      ((is_signed m ≡ false) × (r ≡ err signature_verification_failed))
      ⊎ ((is_signed m ≡ true) × ((bytes : List ℕ) × (r ≡ ok (m, bytes)) × AreStored blocks m bytes))

  abbrev pub Pulled : List Block → Route → Result (ArtifactManifest × List ℕ) → Type 0
  Pulled blocks (refused e) r = r ≡ err resolution_failed
  Pulled blocks missing r = r ≡ err resolution_failed
  Pulled blocks (found route_data) r = Parsed blocks (parse_manifest route_data) r

  -- The manifest was given to the swarm, which took it or not.
  abbrev pub IsPublished : Push → Bool → Type 0
  IsPublished p taken =
      (text : List ℕ) × (libraries.print_manifest p.manifest ≡ some text) × (p.updates text ≡ taken)

  abbrev pub block_of : Push → Block
  block_of p = record { name = p.manifest.wasm_cid; content = p.wasm_bytes; accessed = p.now }

  -- What a push has checked and leaves: with a bad signature or digest, the disk as it was; else the
  -- block, unless a disk that is over its limit is cut, and the manifest with the swarm.
  abbrev pub Pushed : List Block → Push → Result (List ℕ) → List Block → Type 0
  Pushed blocks p (err signature_verification_failed) after =
      (is_signed p.manifest ≡ false) × (after ≡ blocks)
  Pushed blocks p (err hash_mismatch) after =
      (is_signed p.manifest ≡ true)
      × (encode (sha256 p.wasm_bytes) ≢ p.manifest.wasm_cid)
      × (after ≡ blocks)
  Pushed blocks p (err serde_error) after =
      (is_signed p.manifest ≡ true)
      × (encode (sha256 p.wasm_bytes) ≡ p.manifest.wasm_cid)
      × (libraries.print_manifest p.manifest ≡ none)
      × (read_block p.manifest.wasm_cid after ≡ some p.wasm_bytes)
  Pushed blocks p (err resolution_failed) after =
      (is_signed p.manifest ≡ true)
      × (encode (sha256 p.wasm_bytes) ≡ p.manifest.wasm_cid)
      × IsPublished p false
      × (read_block p.manifest.wasm_cid after ≡ some p.wasm_bytes)
  Pushed blocks p (ok cid) after =
      (is_signed p.manifest ≡ true)
      × (encode (sha256 p.wasm_bytes) ≡ p.manifest.wasm_cid)
      × (cid ≡ p.manifest.wasm_cid)
      × IsPublished p true
      × ((read_block cid after ≡ some p.wasm_bytes)
          ⊎ (max_size_bytes < total_size (write_block (block_of p) blocks)))

  push_on : List Block → Push → Result (List ℕ) × List Block
  unfolding push_artifact
  push_on blocks p =
      push_artifact crypto hex libraries p.now p.updates blocks p.manifest p.wasm_bytes
