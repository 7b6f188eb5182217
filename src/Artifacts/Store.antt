-- ===== src/Artifacts/Store.antt =====
-- src/registry/identity.rs: what the store of blocks keeps.
use trytet.Prelude.{
  ℕ, ◌-◌, ◌≤◌, eq_refl, le→leb, length, ◌≡◌, refl, arith, some, List, [], ◌∷◌, inl, inr, All,
  bytes_eq, ◌==◌, leb, Bool-cases,
}
use trytet.Artifacts.{
  Block, write_block, read_block, insert_block, sort_blocks, evict_blocks, max_size_bytes,
  total_size, enforce_lru_cache_limits,
}

pub read_block-write_block :
    (b : Block) (blocks : List Block) → read_block b.name (write_block b blocks) ≡ some b.content
unfolding read_block write_block
read_block-write_block b [] = rw (eq_refl b.name) refl
read_block-write_block b (c ∷ blocks) =
    ground (arith, eq_refl b.name, read_block-write_block b blocks)

-- A store within the limit loses nothing.
pub enforce_lru_cache_limits-within :
    (blocks : List Block)
    → total_size blocks ≤ max_size_bytes
    → enforce_lru_cache_limits blocks ≡ blocks
unfolding enforce_lru_cache_limits
enforce_lru_cache_limits-within blocks h = rw (le→leb (total_size blocks) max_size_bytes h) refl

-- A predicate on blocks passes through the store.
module _ (P : Block → Type 0) where
  pub All-write_block :
      (b : Block) (blocks : List Block) → P b → All P blocks → All P (write_block b blocks)
  unfolding write_block
  All-write_block b [] p h = (p, tt)
  All-write_block b (c ∷ blocks) p h = elim (Bool-cases (c.name == b.name)) [
    | inl same ↦ rw same (p, h.1)
    | inr apart ↦ rw apart (h.0, All-write_block b blocks p h.1)
  ]

  All-insert_block :
      (b : Block) (blocks : List Block) → P b → All P blocks → All P (insert_block b blocks)
  unfolding insert_block
  All-insert_block b [] p h = (p, tt)
  All-insert_block b (c ∷ blocks) p h = elim (Bool-cases (leb b.accessed c.accessed)) [
    | inl older ↦ rw older (p, h)
    | inr newer ↦ rw newer (h.0, All-insert_block b blocks p h.1)
  ]

  All-sort_blocks : (blocks : List Block) → All P blocks → All P (sort_blocks blocks)
  unfolding sort_blocks
  All-sort_blocks [] h = tt
  All-sort_blocks (b ∷ blocks) h =
      All-insert_block b (sort_blocks blocks) h.0 (All-sort_blocks blocks h.1)

  All-evict_blocks :
      (limit total : ℕ) (blocks : List Block)
      → All P blocks
      → All P (evict_blocks limit total blocks)
  unfolding evict_blocks
  All-evict_blocks limit total [] h = tt
  All-evict_blocks limit total (b ∷ blocks) h = elim (Bool-cases (leb total limit)) [
    | inl fits ↦ rw fits h
    | inr over ↦ rw over (All-evict_blocks limit (total - length b.content) blocks h.1)
  ]

  pub All-enforce_lru_cache_limits :
      (blocks : List Block) → All P blocks → All P (enforce_lru_cache_limits blocks)
  unfolding enforce_lru_cache_limits
  All-enforce_lru_cache_limits blocks h =
      elim (Bool-cases (leb (total_size blocks) max_size_bytes)) [
        | inl fits ↦ rw fits h
        | inr over ↦ rw over (All-evict_blocks _ _ (sort_blocks blocks) (All-sort_blocks blocks h))
      ]

  pub All-read_block :
      (name : List ℕ) (blocks : List Block) (bytes : List ℕ)
      → All P blocks
      → read_block name blocks ≡ some bytes
      → (b : Block) × P b × (b.name ≡ name) × (b.content ≡ bytes)
  unfolding read_block
  All-read_block name [] bytes h e = cc
  All-read_block name (b ∷ blocks) bytes h e = elim (Bool-cases (b.name == name)) [
    | inl here ↦ (b, h.0, (bytes_eq.beq_iff b.name name).0 here, ground (arith, here, e))
    | inr there ↦ All-read_block name blocks bytes h.1 (ground (arith, there, e))
  ]
