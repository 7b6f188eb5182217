-- ===== src/Builder.antt =====
-- src/builder.rs and src/resurrection.rs: the building of a signed artifact, its verification, and
-- the request with which an artifact is booted. `AgentManifest::from_toml` is that of
-- src/models/manifest.rs. Files enter as what reading them gives; TOML, SHA-256, hexadecimal digits,
-- ed25519, Zstd and bincode are parameters.
pub mod Signatures
pub mod Tests
use trytet.Prelude.{
  ℕ, ◌+◌, ◌*◌, ◌/◌, ◌%◌, ◌^◌, ◌≡◌, Bool, true, false, Option, none, some, List, [], ◌∷◌, ◌++◌, ltb,
  nat_beq, length, if◌then◌else◌, codes,
}
use trytet.Engine.{AgentManifest, Metadata, EgressPolicy, TetExecutionRequest}

pub data ManifestError : Type 0 where
  parse_error missing_identity : ManifestError
  exceeds_hardware_headroom : ℕ → ℕ → ManifestError

pub data BuildError : Type 0 where
  manifest_error : ManifestError → BuildError
  io zstd signature_mismatch serialization : BuildError

pub record TetArtifact : Type 0 where
  pub manifest : AgentManifest
  pub blueprint_wasm : List ℕ
  pub vfs_zstd : List ℕ
  pub signature : List ℕ

pub record ArtifactReceipt : Type 0 where
  pub hash : List ℕ
  pub size_bytes : ℕ

-- The libraries, with what they document: a signature of 64 bytes verifies under the public key of
-- the key that made it, which has 32 bytes; digits and the serialised form are read back.
pub record Libraries : Type 1 where
  pub SigningKey : Type 0
  pub Key : Type 0
  pub public_bytes : SigningKey → List ℕ
  pub sign : SigningKey → List ℕ → List ℕ
  pub key_of : List ℕ → Option Key
  pub verify : Key → List ℕ → List ℕ → Bool
  pub encode : List ℕ → List ℕ
  pub decode : List ℕ → Option (List ℕ)
  pub sha256 : List ℕ → List ℕ
  pub encode_all : List ℕ → Option (List ℕ)
  pub toml : List ℕ → Option AgentManifest
  pub serialize : TetArtifact → Option (List ℕ)
  pub deserialize : List ℕ → Option TetArtifact
  pub length-public_bytes : (k : SigningKey) → length (public_bytes k) ≡ 32
  pub length-sign : (k : SigningKey) (m : List ℕ) → length (sign k m) ≡ 64
  pub verify-sign :
      (k : SigningKey) (m : List ℕ)
      → (v : Key) × (key_of (public_bytes k) ≡ some v) × (verify v m (sign k m) ≡ true)
  pub decode-encode : (bytes : List ℕ) → decode (encode bytes) ≡ some bytes
  pub deserialize-serialize :
      (a : TetArtifact) (bytes : List ℕ) → serialize a ≡ some bytes → deserialize bytes ≡ some a

-- What the files of a build hold; `none` is a file that cannot be read, and no path for the VFS, or
-- one that is no file, is `[]`.
pub record Files : Type 0 where
  pub manifest : Option (List ℕ)
  pub wasm : Option (List ℕ)
  pub vfs : Option (List ℕ)
  pub writes : Bool

pub data Result {ℓ} (A : Type ℓ) : Type ℓ where
  ok : A → Result A
  err : BuildError → Result A

infixl 5 ◌>>=◌
abbrev pub ◌>>=◌ {ℓ κ} : {A : Type ℓ} {B : Type κ} → Result A → (A → Result B) → Result B
ok a >>= f = f a
err e >>= f = err e

abbrev pub or_error {ℓ} : {A : Type ℓ} → BuildError → Option A → Result A
or_error e none = err e
or_error e (some a) = ok a

abbrev pub require : Bool → BuildError → Result (Unit {0})
require true e = ok tt
require false e = err e

abbrev pub is_named : Option (List ℕ) → Bool
is_named none = false
is_named (some []) = false
is_named (some (c ∷ text)) = true

unfoldable pub hardware_limit : ℕ
hardware_limit = 10000000000

unfoldable pub with_author : AgentManifest → List ℕ → AgentManifest
with_author m author = record m {
  metadata = record {
    name = m.metadata.name;
    version = m.metadata.version;
    author_pubkey = some author;
  };
}

module _ (libraries : Libraries) where
  open libraries use {
    SigningKey, public_bytes, sign, key_of, verify, encode, decode, sha256, encode_all, toml,
    serialize, deserialize,
  }

  unfoldable pub from_toml : List ℕ → Result AgentManifest
  from_toml raw = do
    manifest ← or_error (manifest_error parse_error) (toml raw)
    _ ← require (is_named manifest.metadata.author_pubkey) (manifest_error missing_identity)
    ok manifest

  unfoldable pub check_headroom : AgentManifest → Result (Unit {0})
  unfolding hardware_limit
  check_headroom manifest =
      let pages = manifest.constraints.max_memory_pages in
      if ltb hardware_limit (pages * 65536)
      then err (manifest_error (exceeds_hardware_headroom pages (hardware_limit / 65536)))
      else ok tt

  -- The digest that is signed.
  unfoldable pub signed_hash : List ℕ → List ℕ → List ℕ
  signed_hash wasm vfs_zstd = sha256 (wasm ++ vfs_zstd)

  unfoldable pub sign_artifact : SigningKey → AgentManifest → List ℕ → List ℕ → TetArtifact
  unfolding with_author signed_hash
  sign_artifact key manifest wasm vfs_zstd = record {
    manifest = with_author manifest (encode (public_bytes key));
    blueprint_wasm = wasm;
    vfs_zstd = vfs_zstd;
    signature = sign key (signed_hash wasm vfs_zstd);
  }

  -- The files of a build, read and compressed, and the manifest checked: the manifest, the Wasm and
  -- the compressed VFS.
  unfoldable pub read_files : Files → Result (AgentManifest × List ℕ × List ℕ)
  unfolding from_toml check_headroom
  read_files files = do
    manifest_str ← or_error io files.manifest
    manifest ← from_toml manifest_str
    _ ← check_headroom manifest
    wasm ← or_error io files.wasm
    vfs ← or_error io files.vfs
    vfs_zstd ← or_error zstd (encode_all vfs)
    ok (manifest, wasm, vfs_zstd)

  -- The receipt and the bytes that are written.
  unfoldable pub write_artifact :
      SigningKey → Bool → AgentManifest × List ℕ × List ℕ → Result (ArtifactReceipt × List ℕ)
  unfolding sign_artifact signed_hash
  write_artifact key writes (manifest, wasm, vfs_zstd) = do
    blob ← or_error serialization (serialize (sign_artifact key manifest wasm vfs_zstd))
    _ ← require writes io
    ok (record { hash = encode (signed_hash wasm vfs_zstd); size_bytes = length blob }, blob)

  unfoldable pub assemble : Files → SigningKey → Result (ArtifactReceipt × List ℕ)
  unfolding read_files write_artifact
  assemble files key = do parts ← read_files files; write_artifact key files.writes parts

  -- `decode_to_slice` into 32 bytes.
  unfoldable pub decode_key : List ℕ → Option (List ℕ)
  decode_key digits = elim (decode digits) [
    | none ↦ none
    | some bytes ↦ if nat_beq (length bytes) 32 then some bytes else none
  ]

  unfoldable pub check_artifact : TetArtifact → Result (Unit {0})
  unfolding decode_key signed_hash
  check_artifact a = do
    hex_key ← or_error (manifest_error missing_identity) a.manifest.metadata.author_pubkey
    pk_bytes ← or_error signature_mismatch (decode_key hex_key)
    vk ← or_error signature_mismatch (key_of pk_bytes)
    _ ← require (nat_beq (length a.signature) 64) signature_mismatch
    require (verify vk (signed_hash a.blueprint_wasm a.vfs_zstd) a.signature) signature_mismatch

  unfoldable pub verify_and_load : List ℕ → Result TetArtifact
  unfolding check_artifact
  verify_and_load bytes = do
    a ← or_error serialization (deserialize bytes)
    _ ← check_artifact a
    ok a

-- The policy of an artifact that may reach out, and the request of `ResurrectionContext::boot`.
unfoldable pub egress_of : List (List ℕ) → Option EgressPolicy
egress_of [] = none
egress_of (d ∷ domains) =
    some (record { allowed_domains = d ∷ domains; max_daily_bytes = 1000000; require_https = true })

abbrev pub fuel_or : ℕ → Option ℕ → ℕ
fuel_or d none = d
fuel_or d (some fuel) = fuel

-- A `u32` product wraps, as in a release build.
unfoldable pub memory_mb_of : ℕ → ℕ
memory_mb_of pages = (pages * 65536) % 2 ^ 32 / 1024 / 1024

unfoldable pub boot_request : TetArtifact → Option ℕ → TetExecutionRequest
unfolding egress_of memory_mb_of
boot_request a fuel_override = record {
  payload = some a.blueprint_wasm;
  alias = some a.manifest.metadata.name;
  env = [];
  injected_files = [];
  allocated_fuel = fuel_or a.manifest.constraints.fuel_limit fuel_override;
  max_memory_mb = memory_mb_of a.manifest.constraints.max_memory_pages;
  parent_snapshot_id = none;
  target_function = none;
  call_depth = 0;
  voucher = none;
  manifest = some a.manifest;
  egress_policy = egress_of a.manifest.permissions.can_egress;
}
