-- ===== src/Jail.antt =====
-- src/sandbox/security.rs: `PathJailer`, which keeps a guest's path below a root, and the watchdog.
-- The paths of the host and its file system are parameters.
use trytet.Prelude.{
  ℕ, Bool, ◌||◌, Option, none, some, List, [], ◌∷◌, ltb, if◌then◌else◌, codes, contains_text,
}

pub data SecurityError : Type 0 where
  path_traversal_attempt resource_exhaustion : SecurityError

-- `std::path` and the file system, as `safe_join` uses them.
pub record Paths : Type 1 where
  pub PathBuf : Type 0
  pub join : PathBuf → List ℕ → PathBuf
  pub exists_ : PathBuf → Bool
  pub canonicalize : PathBuf → Option PathBuf
  -- the parent, if there is one and it is not empty
  pub parent : PathBuf → Option PathBuf
  pub join_file_name : PathBuf → PathBuf → PathBuf
  pub starts_with : PathBuf → PathBuf → Bool

module _ (paths : Paths) where
  open paths use {PathBuf, join, exists_, canonicalize, parent, join_file_name, starts_with}

  pub data Joined : Type 0 where
    ok : PathBuf → Joined
    err : SecurityError → Joined

  -- `canonicalize().unwrap_or(path)`
  unfoldable pub canonical : PathBuf → PathBuf
  canonical path = elim (canonicalize path) [ none ↦ path | some p ↦ p ]

  unfoldable pub canonical_root : PathBuf → PathBuf
  unfolding canonical
  canonical_root root = if exists_ root then canonical root else root

  -- The path that is compared with the root: of a file that is not there, by its parent.
  unfoldable pub path_to_eval : PathBuf → Option PathBuf
  unfolding canonical
  path_to_eval full_path =
      if exists_ full_path then some (canonical full_path) else elim (parent full_path) [
        | none ↦ none
        | some p ↦ some (if exists_ p then join_file_name (canonical p) full_path else full_path)
      ]

  unfoldable pub check_prefix : PathBuf → Option PathBuf → Joined
  unfolding canonical_root
  check_prefix root none = err path_traversal_attempt
  check_prefix root (some path) =
      if starts_with path (canonical_root root) then ok path else err path_traversal_attempt

  unfoldable pub safe_join : PathBuf → List ℕ → Joined
  unfolding contains_text path_to_eval check_prefix
  safe_join root guest_path =
      if contains_text guest_path (codes "..") || contains_text guest_path (0 ∷ [])
      then err path_traversal_attempt
      else check_prefix root (path_to_eval (join root guest_path))

-- `Watchdog::check`, from the time that has passed.
unfoldable pub watchdog_check : ℕ → ℕ → Option SecurityError
watchdog_check time_limit elapsed =
    if ltb time_limit elapsed then some resource_exhaustion else none
