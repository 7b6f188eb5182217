-- ===== src/Artifacts.antt =====
-- src/registry: the stores of artifacts on a node. `IdentityRegistry` of identity.rs is a directory of
-- blocks under their hashes, with a limit on its size; `QuorumRegistry` of quorum.rs is kept in
-- memory. Reading and writing do not fail. Hashes, digits, JSON and signatures are parameters, and
-- the time at which a block was last used is that of its writing.
pub mod Files
pub mod Eviction
pub mod Store
pub mod Blocks
pub mod Tests
use trytet.Prelude.{
  ℕ, ◌+◌, ◌-◌, ◌*◌, ◌≡◌, Bool, true, false, not, Option, none, some, List, [], ◌∷◌, ◌++◌, map, ◌==◌,
  nat_beq, leb, bytes_eq, codes, contains, drop, length, if◌then◌else◌, starts_with,
}
use trytet.Prelude.HashMap
use trytet.Prelude.HashMap.{HashMap}
use trytet.Economy.Crypto.{Ed25519, Hex}

-- `QuorumRegistry`
pub data QuorumStatus : Type 0 where
  proposed committed : QuorumStatus
  locked : List ℕ → ℕ → QuorumStatus

pub record QuorumRegistry : Type 0 where
  pub alias_map : HashMap (List ℕ) QuorumStatus
  pub shard_locations : HashMap (List ℕ) (List (List ℕ))

abbrev pub or_empty : Option (List (List ℕ)) → List (List ℕ)
or_empty none = []
or_empty (some nodes) = nodes

abbrev pub add_to_set : List ℕ → List (List ℕ) → List (List ℕ)
add_to_set x xs = if contains x xs then xs else x ∷ xs

unfoldable pub update_shard_location : QuorumRegistry → List ℕ → List ℕ → QuorumRegistry
unfolding contains
update_shard_location r layer_id node_ip =
    let nodes = or_empty (HashMap.lookup layer_id r.shard_locations) in
    record r {
      shard_locations = HashMap.insert layer_id (add_to_set node_ip nodes) r.shard_locations;
    }

unfoldable pub get_shard_locations : QuorumRegistry → List ℕ → Option (List (List ℕ))
get_shard_locations r layer_id = HashMap.lookup layer_id r.shard_locations

pub data Route : Type 0 where
  found : List ℕ → Route
  missing : Route
  refused : List ℕ → Route

unfoldable pub resolve_alias : QuorumRegistry → List ℕ → Route
resolve_alias r alias = elim (HashMap.lookup alias r.alias_map) [
  | none ↦ missing
  | some proposed ↦ missing
  | some committed ↦ found (codes "127.0.0.1")
  | some (locked node_id expires_at) ↦ refused (codes "Alias is locked by " ++ node_id)
]

unfoldable pub update_route : QuorumRegistry → List ℕ → QuorumRegistry
update_route r alias = record r { alias_map = HashMap.insert alias committed r.alias_map }

-- `IdentityRegistry`
pub data RegistryError : Type 0 where
  signature_verification_failed hash_mismatch resolution_failed serde_error : RegistryError

pub record ArtifactManifest : Type 0 where
  pub alias : List ℕ
  pub wasm_cid : List ℕ
  pub gene_layers : List (List ℕ)
  pub timestamp : ℕ
  pub author_pubkey : List ℕ
  pub signature : List ℕ

pub record Block : Type 0 where
  pub name : List ℕ
  pub content : List ℕ
  pub accessed : ℕ

unfoldable pub write_block : Block → List Block → List Block
write_block b [] = b ∷ []
write_block b (c ∷ blocks) = if c.name == b.name then b ∷ blocks else c ∷ write_block b blocks

unfoldable pub read_block : List ℕ → List Block → Option (List ℕ)
read_block name [] = none
read_block name (b ∷ blocks) = if b.name == name then some b.content else read_block name blocks

unfoldable pub max_size_bytes : ℕ
max_size_bytes = 2000000000

unfoldable pub total_size : List Block → ℕ
total_size [] = 0
total_size (b ∷ blocks) = length b.content + total_size blocks

-- `sort_by_key` on the time of the last use, which is stable.
unfoldable pub insert_block : Block → List Block → List Block
insert_block b [] = b ∷ []
insert_block b (c ∷ blocks) =
    if leb b.accessed c.accessed then b ∷ c ∷ blocks else c ∷ insert_block b blocks

unfoldable pub sort_blocks : List Block → List Block
unfolding insert_block
sort_blocks [] = []
sort_blocks (b ∷ blocks) = insert_block b (sort_blocks blocks)

-- The loop that removes files, from the total of their sizes.
unfoldable pub evict_blocks : ℕ → ℕ → List Block → List Block
evict_blocks limit total [] = []
evict_blocks limit total (b ∷ blocks) =
    let rest = evict_blocks limit (total - length b.content) blocks in
    if leb total limit then b ∷ blocks else rest

unfoldable pub enforce_lru_cache_limits : List Block → List Block
unfolding max_size_bytes total_size sort_blocks evict_blocks
enforce_lru_cache_limits blocks =
    if leb (total_size blocks) max_size_bytes
    then blocks
    else evict_blocks max_size_bytes (total_size blocks) (sort_blocks blocks)

-- The digits of a hash, the printing of numbers, and JSON of a manifest.
pub record Libraries : Type 0 where
  pub encode : List ℕ → List ℕ
  pub sha256 : List ℕ → List ℕ
  pub print_number : ℕ → List ℕ
  pub print_manifest : ArtifactManifest → Option (List ℕ)
  pub parse_manifest : List ℕ → Option ArtifactManifest

pub data Result {ℓ} (A : Type ℓ) : Type ℓ where
  ok : A → Result A
  err : RegistryError → Result A

module _ (crypto : Ed25519) (hex : Hex) (libraries : Libraries) where
  open crypto use {Key, verifying_key, signature_from_slice, verify}
  open libraries use {encode, sha256, print_number, print_manifest, parse_manifest}

  -- `AgentWallet::verify_signature` of src/crypto.rs
  unfoldable pub verify_signature : List ℕ → List ℕ → List ℕ → Bool
  verify_signature pubkey_hex payload signature_hex = elim (hex.decode pubkey_hex) [
    | none ↦ false
    | some pub_bytes ↦ elim (hex.decode signature_hex) [
      | none ↦ false
      | some sig_bytes ↦ elim (signature_from_slice sig_bytes) [
        | none ↦ false
        | some sig ↦ elim (verifying_key pub_bytes) [
          | none ↦ false
          | some key ↦ verify key payload sig
        ]
      ]
    ]
  ]

  unfoldable pub is_verified : ArtifactManifest → Bool
  unfolding verify_signature
  is_verified m =
      verify_signature m.author_pubkey
        (m.alias ++ (codes ":" ++ (m.wasm_cid ++ (codes ":" ++ print_number m.timestamp))))
        (encode m.signature)

  -- `updates` is whether the route is taken by the registry of the swarm.
  unfoldable pub push_artifact :
      ℕ → (List ℕ → Bool) → List Block → ArtifactManifest → List ℕ → Result (List ℕ) × List Block
  unfolding is_verified write_block enforce_lru_cache_limits
  push_artifact now updates blocks m wasm_bytes =
      if not (is_verified m)
      then (err signature_verification_failed, blocks)
      else if not (encode (sha256 wasm_bytes) == m.wasm_cid)
      then (err hash_mismatch, blocks)
      else (let written =
            write_block (record { name = m.wasm_cid; content = wasm_bytes; accessed = now })
              blocks in
          elim (print_manifest m) [
            | none ↦ (err serde_error, written)
            | some manifest_bytes ↦
                if updates manifest_bytes
                then (ok m.wasm_cid, enforce_lru_cache_limits written)
                else (err resolution_failed, written)
          ])

  -- A block that is not on the disk is taken to be empty.
  unfoldable pub pull_artifact_from_mesh :
      List Block → ArtifactManifest → Result (ArtifactManifest × List ℕ)
  unfolding is_verified read_block
  pull_artifact_from_mesh blocks m =
      if not (is_verified m)
      then err signature_verification_failed
      else elim (read_block m.wasm_cid blocks) [ some bytes ↦ ok (m, bytes) | none ↦ ok (m, []) ]

  -- `resolve_alias` is that of the registry of the swarm, whichever it is.
  unfoldable pub pull_artifact :
      (List ℕ → Route) → List Block → List ℕ → Result (ArtifactManifest × List ℕ)
  unfolding is_verified read_block pull_artifact_from_mesh
  pull_artifact resolve blocks alias = elim (resolve alias) [
    | refused e ↦ err resolution_failed
    | missing ↦ err resolution_failed
    | found route_data ↦ elim (parse_manifest route_data) [
      | none ↦ err resolution_failed
      | some m ↦
          if not (is_verified m)
          then err signature_verification_failed
          else elim (read_block m.wasm_cid blocks) [
            | some bytes ↦ ok (m, bytes)
            | none ↦ pull_artifact_from_mesh blocks m
          ]
    ]
  ]
