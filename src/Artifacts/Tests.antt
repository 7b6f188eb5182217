-- ===== src/Artifacts/Tests.antt =====
-- Witnesses of the stores of artifacts, with digits that are each byte written twice, hashes that are
-- the bytes themselves, and signatures that are the text that they sign.
use trytet.Prelude.{
  ℕ, ◌≤◌, ◌≡◌, refl, true, false, some, List, [], ◌∷◌, ◌++◌, ◌⊎◌, replicate, codes,
}
use trytet.Economy.Examples.{plain_crypto, plain_hex}
use trytet.Artifacts.{
  ArtifactManifest, Block, Libraries, found, ok, max_size_bytes, total_size, write_block,
  read_block, sort_blocks, insert_block, enforce_lru_cache_limits, push_artifact, pull_artifact,
  is_verified, verify_signature,
}
use trytet.Artifacts.Blocks.{Push, push_all}
use trytet.Artifacts.Eviction.{Ordered, Cut, enforce_lru_cache_limits-Cut}

abbrev twice : List ℕ → List ℕ
twice [] = []
twice (b ∷ bytes) = b ∷ b ∷ twice bytes

abbrev manifest : ArtifactManifest
manifest = record {
  alias = codes "tet";
  wasm_cid = 7 ∷ 7 ∷ 8 ∷ 8 ∷ [];
  gene_layers = [];
  timestamp = 5;
  author_pubkey = replicate 64 1;
  signature = codes "tet:" ++ 7 ∷ 7 ∷ 8 ∷ 8 ∷ 58 ∷ 5 ∷ [];
}

abbrev libraries : Libraries
libraries = record {
  encode = twice;
  sha256 = λ bytes. bytes;
  print_number = λ n. n ∷ [];
  print_manifest = λ m. some [];
  parse_manifest = λ text. some manifest;
}

abbrev blocks : List Block
blocks =
    record { name = codes "old"; content = 1 ∷ 2 ∷ 3 ∷ []; accessed = 9 }
    ∷ record { name = codes "older"; content = 4 ∷ []; accessed = 2 }
    ∷ []

-- A push that the swarm does not take, and one that it does.
abbrev pushes : List Push
pushes =
    record { now = 11; updates = λ bytes. false; manifest = manifest; wasm_bytes = 7 ∷ 8 ∷ [] }
    ∷ record { now = 12; updates = λ bytes. true; manifest = manifest; wasm_bytes = 7 ∷ 8 ∷ [] }
    ∷ []

abbrev last : Push
last = record { now = 13; updates = λ bytes. true; manifest = manifest; wasm_bytes = 7 ∷ 8 ∷ [] }

pulled :
    pull_artifact plain_crypto plain_hex libraries
      (λ alias. found (codes "manifest"))
      (push_all plain_crypto plain_hex libraries [] pushes)
      (codes "tet")
    ≡ ok (manifest, 7 ∷ 8 ∷ [])
unfolding push_all push_artifact pull_artifact is_verified verify_signature write_block read_block
    enforce_lru_cache_limits total_size max_size_bytes
pulled = refl

oldest_first :
    sort_blocks blocks
    ≡ record { name = codes "older"; content = 4 ∷ []; accessed = 2 }
      ∷ record { name = codes "old"; content = 1 ∷ 2 ∷ 3 ∷ []; accessed = 9 }
      ∷ []
unfolding sort_blocks insert_block
oldest_first = refl

enforce_lru_cache_limits-Cut_example :
    (total_size (enforce_lru_cache_limits blocks) ≤ max_size_bytes)
    × ((total_size blocks ≤ max_size_bytes) × (enforce_lru_cache_limits blocks ≡ blocks)
        ⊎ Ordered (sort_blocks blocks)
          × Cut max_size_bytes (sort_blocks blocks) (enforce_lru_cache_limits blocks))
enforce_lru_cache_limits-Cut_example = enforce_lru_cache_limits-Cut blocks
