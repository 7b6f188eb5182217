-- ===== src/Artifacts/Files.antt =====
-- src/registry/mod.rs and src/registry/cache.rs: `LocalRegistry` and `ArtifactCache`, directories of
-- files. A directory is a map from file names; reading and writing do not fail.
use trytet.Prelude.{
  ℕ, Bool, true, false, Option, none, some, List, ◌++◌, map, nat_beq, bytes_eq, codes, drop,
  if◌then◌else◌, starts_with,
}
use trytet.Prelude.HashMap
use trytet.Prelude.HashMap.{HashMap}

-- `replace("/", "_").replace(":", "_")`
unfoldable pub safe_name : List ℕ → List ℕ
safe_name text = map (λ c. if nat_beq c 47 then 95 else if nat_beq c 58 then 95 else c) text

abbrev pub Directory : Type 0
Directory = HashMap (List ℕ) (List ℕ)

-- `LocalRegistry`
unfoldable pub tag_to_path : List ℕ → List ℕ
unfolding safe_name
tag_to_path tag = safe_name tag ++ codes ".tet"

unfoldable pub push : Directory → List ℕ → List ℕ → Directory
unfolding tag_to_path
push files tag payload = HashMap.insert (tag_to_path tag) payload files

unfoldable pub pull : Directory → List ℕ → Option (List ℕ)
unfolding tag_to_path
pull files tag = HashMap.lookup (tag_to_path tag) files

-- `ArtifactCache`
pub record ArtifactCache : Type 0 where
  pub blobs : Directory
  pub tags : Directory

unfoldable pub blob_name : List ℕ → List ℕ
blob_name digest = if starts_with digest (codes "sha256:") then drop 7 digest else digest

unfoldable pub blob_exists : ArtifactCache → List ℕ → Bool
unfolding blob_name
blob_exists c digest = elim (HashMap.lookup (blob_name digest) c.blobs) [
  | none ↦ false
  | some content ↦ true
]

unfoldable pub store_blob : ArtifactCache → List ℕ → List ℕ → ArtifactCache
unfolding blob_name
store_blob c digest content = record c { blobs = HashMap.insert (blob_name digest) content c.blobs }

unfoldable pub read_blob : ArtifactCache → List ℕ → Option (List ℕ)
unfolding blob_name
read_blob c digest = HashMap.lookup (blob_name digest) c.blobs

unfoldable pub link_tag : ArtifactCache → List ℕ → List ℕ → ArtifactCache
unfolding safe_name
link_tag c reference manifest_digest = record c {
  tags = HashMap.insert (safe_name reference) manifest_digest c.tags;
}

unfoldable pub resolve_tag : ArtifactCache → List ℕ → Option (List ℕ)
unfolding safe_name
resolve_tag c reference = HashMap.lookup (safe_name reference) c.tags
