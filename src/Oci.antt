-- ===== src/Oci.antt =====
-- src/registry/oci.rs: the client of an OCI registry, which pushes and pulls artifacts and states. The
-- registry is a parameter with a state of its own: what it answers to each request. SHA-256 with its
-- digits, JSON and bincode are parameters. Requests carry the token of the client, which is left out,
-- and connections do not fail; an answer that is no success ends the operation.
pub mod Integrity
pub mod Tests
use trytet.Prelude.{
  ℕ, ◌≡◌, Bool, true, false, Option, none, some, List, [], ◌∷◌, ◌++◌, ◌==◌, nat_beq, bytes_eq,
  codes, length, if◌then◌else◌,
}
use trytet.Builder.{TetArtifact}
use trytet.Engine.{AgentManifest}
use trytet.Hive.{SnapshotPayload}

-- A media type, as the texts tell them apart.
pub data MediaType : Type 0 where
  media_manifest media_config media_wasm media_vfs media_signature : MediaType
  media_state media_state_manifest : MediaType
  other : List ℕ → MediaType

abbrev pub is_wasm : MediaType → Bool
is_wasm media_wasm = true
is_wasm _ = false

abbrev pub is_vfs : MediaType → Bool
is_vfs media_vfs = true
is_vfs _ = false

abbrev pub is_signature : MediaType → Bool
is_signature media_signature = true
is_signature _ = false

abbrev pub is_state : MediaType → Bool
is_state media_state = true
is_state _ = false

pub record OciDescriptor : Type 0 where
  pub media_type : MediaType
  pub digest : List ℕ
  pub size : ℕ

pub record OciManifest : Type 0 where
  pub schema_version : ℕ
  pub media_type : MediaType
  pub config : OciDescriptor
  pub layers : List OciDescriptor

-- The registry: each request is answered, and may change it. A `none` is an answer that is no
-- success. `put_blob` is the upload with the request that starts it and the place that this names.
pub record Registry : Type 1 where
  pub State : Type 0
  pub has_blob : State → List ℕ → List ℕ → Bool
  pub put_blob : State → List ℕ → List ℕ → List ℕ → Option State
  pub get_blob : State → List ℕ → List ℕ → Option (List ℕ)
  pub put_manifest : State → List ℕ → List ℕ → OciManifest → Option State
  pub get_manifest : State → List ℕ → List ℕ → Option OciManifest

-- `sha256:` and the digits of the SHA-256; JSON of a manifest, of an agent's too; bincode of a state.
pub record Libraries : Type 0 where
  pub digest_of : List ℕ → List ℕ
  pub print_oci_manifest : OciManifest → List ℕ
  pub print_manifest : AgentManifest → Option (List ℕ)
  pub parse_manifest : List ℕ → Option AgentManifest
  pub serialize : SnapshotPayload → Option (List ℕ)
  pub deserialize : List ℕ → Option SnapshotPayload
  pub parse-print_manifest :
      (m : AgentManifest) (json : List ℕ)
      → print_manifest m ≡ some json
      → parse_manifest json ≡ some m
  pub deserialize-serialize :
      (p : SnapshotPayload) (bytes : List ℕ) → serialize p ≡ some bytes → deserialize bytes ≡ some p

-- `split_once(':')`, with the tag `latest` where there is none.
unfoldable pub split_once : List ℕ → Option (List ℕ × List ℕ)
split_once [] = none
split_once (c ∷ text) =
    let later : Option (List ℕ × List ℕ) = elim (split_once text) [
      | none ↦ none
      | some (name, tag) ↦ some (c ∷ name, tag)
    ] in
    if nat_beq c 58 then some ([], text) else later

unfoldable pub name_and_tag : List ℕ → List ℕ × List ℕ
unfolding split_once
name_and_tag reference = elim (split_once reference) [
  | none ↦ (reference, codes "latest")
  | some parts ↦ parts
]

infixl 5 ◌>>=◌
abbrev pub ◌>>=◌ {ℓ κ} : {A : Type ℓ} {B : Type κ} → Option A → (A → Option B) → Option B
none >>= f = none
some a >>= f = f a

unfoldable pub find_layer : (MediaType → Bool) → List OciDescriptor → Option OciDescriptor
find_layer test [] = none
find_layer test (layer ∷ layers) =
    if test layer.media_type then some layer else find_layer test layers

module _ (registry : Registry) (libraries : Libraries) where
  open registry use {State, has_blob, put_blob, get_blob, put_manifest, get_manifest}
  open libraries use {
    digest_of, print_oci_manifest, print_manifest, parse_manifest, serialize, deserialize,
  }

  unfoldable pub upload_blob : State → List ℕ → List ℕ → List ℕ → Option State
  upload_blob s name digest content =
      if has_blob s name digest then some s else put_blob s name digest content

  -- The uploads of a push, each under the digest of its content.
  unfoldable pub upload_all : State → List ℕ → List (List ℕ) → Option State
  unfolding upload_blob
  upload_all s name [] = some s
  upload_all s name (content ∷ contents) =
      upload_blob s name (digest_of content) content >>= λ s'. upload_all s' name contents

  abbrev pub descriptor : MediaType → List ℕ → OciDescriptor
  descriptor media_type content = record {
    media_type = media_type;
    digest = digest_of content;
    size = length content;
  }

  unfoldable pub artifact_manifest : TetArtifact → List ℕ → OciManifest
  artifact_manifest a config_json = record {
    schema_version = 2;
    media_type = media_manifest;
    config = descriptor media_config config_json;
    layers =
        descriptor media_wasm a.blueprint_wasm
        ∷ descriptor media_vfs a.vfs_zstd
        ∷ descriptor media_signature a.signature
        ∷ [];
  }

  unfoldable pub push : State → TetArtifact → List ℕ → Option State
  unfolding upload_all artifact_manifest name_and_tag
  push s a reference =
      let (name, tag) = name_and_tag reference in
      do
        config_json ← print_manifest a.manifest
        s1 ← upload_all s name (a.blueprint_wasm ∷ a.vfs_zstd ∷ a.signature ∷ config_json ∷ [])
        put_manifest s1 name tag (artifact_manifest a config_json)

  -- A blob that has the digest by which it was asked for.
  unfoldable pub fetch_blob : State → List ℕ → List ℕ → Option (List ℕ)
  fetch_blob s name digest = do
    content ← get_blob s name digest
    if digest_of content == digest then some content else none

  unfoldable pub pull : State → List ℕ → Option TetArtifact
  unfolding name_and_tag find_layer fetch_blob
  pull s reference =
      let (name, tag) = name_and_tag reference in
      do
        manifest ← get_manifest s name tag
        wasm_desc ← find_layer is_wasm manifest.layers
        vfs_desc ← find_layer is_vfs manifest.layers
        sig_desc ← find_layer is_signature manifest.layers
        config_data ← fetch_blob s name manifest.config.digest
        wasm_bytes ← fetch_blob s name wasm_desc.digest
        vfs_bytes ← fetch_blob s name vfs_desc.digest
        sig_bytes ← fetch_blob s name sig_desc.digest
        agent_manifest ← parse_manifest config_data
        some (record {
          manifest = agent_manifest;
          blueprint_wasm = wasm_bytes;
          vfs_zstd = vfs_bytes;
          signature = sig_bytes;
        })

  unfoldable pub state_manifest : List ℕ → OciManifest
  state_manifest state_bytes = record {
    schema_version = 2;
    media_type = media_state_manifest;
    config = descriptor media_config (codes "{}");
    layers = descriptor media_state state_bytes ∷ [];
  }

  -- The digest of the manifest, and the registry afterwards.
  unfoldable pub push_state : State → SnapshotPayload → List ℕ → Option (List ℕ × State)
  unfolding upload_all state_manifest name_and_tag
  push_state s payload reference =
      let (name, tag) = name_and_tag reference in
      do
        state_bytes ← serialize payload
        s1 ← upload_all s name (state_bytes ∷ codes "{}" ∷ [])
        s2 ← put_manifest s1 name tag (state_manifest state_bytes)
        some (digest_of (print_oci_manifest (state_manifest state_bytes)), s2)

  unfoldable pub pull_state : State → List ℕ → Option SnapshotPayload
  unfolding name_and_tag find_layer fetch_blob
  pull_state s reference =
      let (name, tag) = name_and_tag reference in
      do
        manifest ← get_manifest s name tag
        state_desc ← find_layer is_state manifest.layers
        state_bytes ← fetch_blob s name state_desc.digest
        deserialize state_bytes
