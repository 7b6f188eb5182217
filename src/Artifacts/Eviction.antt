-- ===== src/Artifacts/Eviction.antt =====
-- src/registry/identity.rs: `enforce_lru_cache_limits`.
use trytet.Prelude.{
  ℕ, ◌+◌, ◌-◌, ◌≤◌, ◌<◌, ◌≡◌, refl, ap, ◌∙◌, arith, List, [], ◌∷◌, ◌++◌, leb, leb→le, length,
  Bool-cases, inl, inr, ◌⊎◌, All, subst,
}
use trytet.Artifacts.{
  Block, max_size_bytes, total_size, insert_block, sort_blocks, evict_blocks,
  enforce_lru_cache_limits,
}

total_size-insert_block :
    (b : Block) (blocks : List Block)
    → total_size (insert_block b blocks) ≡ length b.content + total_size blocks
unfolding total_size insert_block
total_size-insert_block b [] = refl
total_size-insert_block b (c ∷ blocks) = ground (arith, total_size-insert_block b blocks)

total_size-sort_blocks : (blocks : List Block) → total_size (sort_blocks blocks) ≡ total_size blocks
unfolding total_size sort_blocks
total_size-sort_blocks [] = refl
total_size-sort_blocks (b ∷ blocks) =
    omega (arith, total_size-insert_block b (sort_blocks blocks), total_size-sort_blocks blocks)

-- Each block was last used no later than those after it.
abbrev pub Ordered : List Block → Type 0
Ordered [] = Unit
Ordered (b ∷ blocks) = All (λ c. b.accessed ≤ c.accessed) blocks × Ordered blocks

All-insert_block :
    (n : ℕ) (b : Block) (blocks : List Block)
    → n ≤ b.accessed
    → All (λ c. n ≤ c.accessed) blocks
    → All (λ c. n ≤ c.accessed) (insert_block b blocks)
unfolding insert_block
All-insert_block n b [] h k = (h, tt)
All-insert_block n b (c ∷ blocks) h k =
    ground (arith, h, k.0, k.1, All-insert_block n b blocks h k.1)

All-later :
    (n m : ℕ) (blocks : List Block)
    → n ≤ m
    → All (λ c. m ≤ c.accessed) blocks
    → All (λ c. n ≤ c.accessed) blocks
All-later n m [] h k = tt
All-later n m (c ∷ blocks) h k = (omega (arith, k.0), All-later n m blocks h k.1)

insert_block-Ordered :
    (b : Block) (blocks : List Block) → Ordered blocks → Ordered (insert_block b blocks)
unfolding insert_block
insert_block-Ordered b [] h = (tt, tt)
insert_block-Ordered b (c ∷ blocks) h = elim (Bool-cases (leb b.accessed c.accessed)) [
  | inl first ↦
      let le = leb→le b.accessed c.accessed first in
      rw first ((le, All-later b.accessed c.accessed blocks le h.0), h)
  | inr later ↦ rw later (
    All-insert_block c.accessed b blocks (ground (arith, later)) h.0,
    insert_block-Ordered b blocks h.1,
  )
]

sort_blocks-Ordered : (blocks : List Block) → Ordered (sort_blocks blocks)
unfolding sort_blocks
sort_blocks-Ordered [] = tt
sort_blocks-Ordered (b ∷ blocks) =
    insert_block-Ordered b (sort_blocks blocks) (sort_blocks-Ordered blocks)

-- A list is cut in front, no further than it has to be.
pub record Cut (limit : ℕ) (blocks kept : List Block) : Type 0 where
  pub removed : List Block
  pub whole : blocks ≡ removed ++ kept
  pub within : total_size kept ≤ limit
  pub least :
      (before : List Block) (b : Block) → removed ≡ before ++ b ∷ [] → limit < total_size (b ∷ kept)

nil-ne-snoc : (before : List Block) (b : Block) → [] ≡ before ++ b ∷ [] → ⊥
nil-ne-snoc [] b e = cc
nil-ne-snoc (c ∷ before) b e = cc

Cut-whole : (limit : ℕ) (blocks : List Block) → total_size blocks ≤ limit → Cut limit blocks blocks
Cut-whole limit blocks h = record {
  removed = [];
  whole = refl;
  within = h;
  least = λ before b e. absurd (nil-ne-snoc before b e);
}

least-cons :
    (limit : ℕ) (b : Block) (blocks kept : List Block) (cut : Cut limit blocks kept)
    → limit < total_size (b ∷ blocks)
    → (before : List Block) (c : Block) → b ∷ cut.removed ≡ before ++ c ∷ []
    → limit < total_size (c ∷ kept)
unfolding total_size
least-cons limit b blocks kept cut over [] c e =
    let same : b ≡ c = cc (e) in
    let none_removed : cut.removed ≡ [] = cc (e) in
    let all_kept : blocks ≡ kept = cut.whole ∙ ap (λ r. r ++ kept) none_removed in
    omega (arith, over, ap (λ (x : Block). length x.content) same, ap total_size all_kept)
least-cons limit b blocks kept cut over (x ∷ before) c e = cut.least before c (cc (e))

Cut-cons :
    (limit : ℕ) (b : Block) (blocks kept : List Block)
    → Cut limit blocks kept
    → limit < total_size (b ∷ blocks)
    → Cut limit (b ∷ blocks) kept
Cut-cons limit b blocks kept cut over = record {
  removed = b ∷ cut.removed;
  whole = ap (λ bs. b ∷ bs) cut.whole;
  within = cut.within;
  least = least-cons limit b blocks kept cut over;
}

evict_blocks-Cut :
    (limit : ℕ) (blocks : List Block)
    → Cut limit blocks (evict_blocks limit (total_size blocks) blocks)
unfolding evict_blocks total_size
evict_blocks-Cut limit [] = Cut-whole limit [] (omega arith)
evict_blocks-Cut limit (b ∷ blocks) =
    let total = length b.content + total_size blocks in
    elim (Bool-cases (leb total limit)) [
      | inl fits ↦ rw fits (Cut-whole limit (b ∷ blocks) (leb→le total limit fits))
      | inr over ↦
          let rest : total - length b.content ≡ total_size blocks = omega arith in
          rw (over, rest)
            (Cut-cons limit b blocks (evict_blocks limit (total_size blocks) blocks)
              (evict_blocks-Cut limit blocks) (ground (arith, over)))
    ]

-- After the limits are enforced the blocks take at most 2 GB, whatever was there. If they took no
-- more before, nothing is removed; else those that were used last are kept, and with the last of the
-- removed ones they would take more.
pub enforce_lru_cache_limits-Cut :
    (blocks : List Block)
    → (total_size (enforce_lru_cache_limits blocks) ≤ max_size_bytes)
      × ((total_size blocks ≤ max_size_bytes) × (enforce_lru_cache_limits blocks ≡ blocks)
          ⊎ Ordered (sort_blocks blocks)
            × Cut max_size_bytes (sort_blocks blocks) (enforce_lru_cache_limits blocks))
unfolding enforce_lru_cache_limits
enforce_lru_cache_limits-Cut blocks = elim (Bool-cases (leb (total_size blocks) max_size_bytes)) [
  | inl fits ↦
      let le = leb→le (total_size blocks) max_size_bytes fits in rw fits (le, inl (le, refl))
  | inr over ↦
      let cut : Cut max_size_bytes (sort_blocks blocks)
          (evict_blocks max_size_bytes (total_size blocks) (sort_blocks blocks)) =
        subst
          (λ total.
            Cut max_size_bytes (sort_blocks blocks)
              (evict_blocks max_size_bytes total (sort_blocks blocks)))
          (total_size-sort_blocks blocks) (evict_blocks-Cut max_size_bytes (sort_blocks blocks)) in
      rw over (cut.within, inr (sort_blocks-Ordered blocks, cut))
]
