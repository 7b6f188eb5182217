-- ===== src/Context/Router/Candidates.antt =====
-- The block that `find_eviction_candidate` picks.
use Prim.Native.Nat.{Ordering}
use trytet.Prelude.{
  ℕ, zero, suc, ◌+◌, ◌-◌, ◌≤◌, ◌≡◌, ◌≢◌, refl, true, false, Option, none, some, List, [], ◌∷◌,
  arith, inl, inr, Option-cases, ◌⊎◌, get_elem?, All, if◌then◌else◌,
}
use trytet.Context.Floats.{Floats}
use trytet.Context.Models.{EvictionStrategy, fifo, large_block_first, hybrid}
use trytet.Context.Router.{
  Block, first_candidate, better, best_from, index_of, by_length, by_score, find_eviction_candidate,
}

module _ (floats : Floats) where
  abbrev pub IsPersistent : Block floats → Type 0
  IsPersistent b = b.is_persistent ≡ true

  -- Position `i` holds a block that may be evicted.
  pub record IsCandidate (bs : List (Block floats)) (i : ℕ) : Type 0 where
    pub block : Block floats
    pub found : get_elem? bs i ≡ some block
    pub evictable : block.is_persistent ≡ false

  first_candidate-IsCandidate :
      (bs : List (Block floats)) (i : ℕ) → first_candidate floats bs ≡ some i → IsCandidate bs i
  unfolding first_candidate
  first_candidate-IsCandidate [] i h = cc
  first_candidate-IsCandidate (b ∷ bs) zero h = record {
    block = b;
    found = refl;
    evictable = ground arith;
  }
  first_candidate-IsCandidate (b ∷ bs) (suc i) h =
      let later = first_candidate-IsCandidate bs i (ground arith) in
      record { block = later.block; found = later.found; evictable = later.evictable }

  first_candidate-none :
      (bs : List (Block floats)) → first_candidate floats bs ≡ none → All IsPersistent bs
  unfolding first_candidate
  first_candidate-none [] h = tt
  first_candidate-none (b ∷ bs) h = ground (arith, first_candidate-none bs)

  better-cases :
      (cmp : Block floats → Block floats → Ordering) (acc : Option (ℕ × Block floats)) (i : ℕ)
      (b : Block floats)
      → (better floats cmp acc i b ≡ some (i, b))
        ⊎ ((better floats cmp acc i b ≡ acc) × (acc ≢ none))
  unfolding better
  better-cases cmp none i b = inl refl
  better-cases cmp (some (j, best)) i b = ground arith

  best_from_sound :
      (cmp : Block floats → Block floats → Ordering) (i : ℕ) (acc : Option (ℕ × Block floats))
      (bs : List (Block floats))
      → (j : ℕ) (c : Block floats) → best_from floats cmp i acc bs ≡ some (j, c)
      → (acc ≡ some (j, c))
        ⊎ ((i ≤ j) × (get_elem? bs (j - i) ≡ some c) × (c.is_persistent ≡ false))
  unfolding best_from
  best_from_sound cmp i acc [] j c h = inl h
  best_from_sound cmp i acc (b ∷ bs) j c h =
      let acc' = if b.is_persistent then acc else better floats cmp acc i b in
      elim (best_from_sound cmp (i + 1) acc' bs j c h) [
        | inl early ↦ ground (arith, better-cases cmp acc i b, here)
        | inr (later, found, evictable) ↦
            let shift : j - i ≡ suc (j - (i + 1)) = omega arith in
            inr (omega arith, rw shift found, evictable)
      ]
    where
      here : get_elem? (b ∷ bs) (i - i) ≡ some b
      here = let zero_off : i - i ≡ 0 = omega arith in rw zero_off refl

  best_from-none :
      (cmp : Block floats → Block floats → Ordering) (i : ℕ) (acc : Option (ℕ × Block floats))
      (bs : List (Block floats))
      → best_from floats cmp i acc bs ≡ none
      → (acc ≡ none) × All IsPersistent bs
  unfolding best_from
  best_from-none cmp i acc [] h = (h, tt)
  best_from-none cmp i acc (b ∷ bs) h = ground (
    arith,
    best_from-none cmp (i + 1) (if b.is_persistent then acc else better floats cmp acc i b) bs,
    better-cases cmp acc i b,
  )

  best-IsCandidate :
      (cmp : Block floats → Block floats → Ordering) (bs : List (Block floats)) (i : ℕ)
      → index_of floats (best_from floats cmp 0 none bs) ≡ some i
      → IsCandidate bs i
  best-IsCandidate cmp bs i h = elim (Option-cases (best_from floats cmp 0 none bs)) [
    | inl nothing ↦ absurd (ground arith)
    | inr ((j, c), picked) ↦ elim (best_from_sound cmp 0 none bs j c picked) [
      | inl impossible ↦ cc
      | inr (_, found, evictable) ↦
          let same : j - 0 ≡ i = ground arith in
          record { block = c; found = rw same at found; evictable = evictable }
    ]
  ]

  index_of-none : (o : Option (ℕ × Block floats)) → index_of floats o ≡ none → o ≡ none
  index_of-none none h = refl
  index_of-none (some (i, b)) h = cc

  -- The strategy's choice is a block that may be evicted.
  pub find_eviction_candidate-IsCandidate :
      (strategy : EvictionStrategy) (bs : List (Block floats)) (i : ℕ)
      → find_eviction_candidate floats strategy bs ≡ some i
      → IsCandidate bs i
  unfolding find_eviction_candidate
  find_eviction_candidate-IsCandidate fifo bs i h = first_candidate-IsCandidate bs i h
  find_eviction_candidate-IsCandidate large_block_first bs i h =
      best-IsCandidate (by_length floats) bs i h
  find_eviction_candidate-IsCandidate hybrid bs i h = best-IsCandidate (by_score floats) bs i h

  -- It makes none only where all blocks are persistent.
  pub find_eviction_candidate-none :
      (strategy : EvictionStrategy) (bs : List (Block floats))
      → find_eviction_candidate floats strategy bs ≡ none
      → All IsPersistent bs
  unfolding find_eviction_candidate
  find_eviction_candidate-none fifo bs h = first_candidate-none bs h
  find_eviction_candidate-none large_block_first bs h =
      (best_from-none (by_length floats) 0 none bs (index_of-none _ h)).1
  find_eviction_candidate-none hybrid bs h =
      (best_from-none (by_score floats) 0 none bs (index_of-none _ h)).1
