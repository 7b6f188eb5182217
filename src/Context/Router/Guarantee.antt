-- ===== src/Context/Router/Guarantee.antt =====
-- What `optimize` guarantees.
use trytet.Prelude.{
  ℕ, suc, ◌+◌, ◌≤◌, ◌<◌, ◌≡◌, refl, none, some, List, arith, inl, inr, map, Option-cases,
  Bool-cases, leb, length, All,
}
use trytet.Context.Floats.{Floats}
use trytet.Context.Models.{no_change, pruned, system_prompt_too_large}
use trytet.Context.Estimator.{total_tokens, estimate_tokens, estimate_tokens_mono}
use trytet.Context.Router.{
  Block, ContextRouter, hydrate, truncate_blocks, Optimized, ok, err, panic, out_of_fuel,
  optimize_truncated, optimize,
}
use trytet.Context.Router.Candidates.{IsPersistent}
use trytet.Context.Router.Truncation.{total_tokens-truncate_blocks}
use trytet.Context.Router.Eviction.{Ends, evict-Ends, length-Evicts, total_tokens-Evicts}

module _ (floats : Floats) (r : ContextRouter floats) where
  abbrev estimate : List (Block floats) → ℕ
  estimate = estimate_tokens floats

  -- The report of a session that was over the limit.
  pub record Pruned (blocks bs : List (Block floats)) (tokens_removed blocks_evicted : ℕ)
      : Type 0 where
    pub fits : estimate_tokens floats bs ≤ r.max_tokens
    pub tokens : tokens_removed + estimate_tokens floats bs ≡ estimate_tokens floats blocks
    pub blocks_left : length bs + blocks_evicted ≡ length blocks

  abbrev pub Guarantee : List (Block floats) → Optimized floats → Type 0
  Guarantee blocks (ok no_change bs) = (bs ≡ blocks) × (estimate_tokens floats bs ≤ r.max_tokens)
  Guarantee blocks (ok (pruned removed evicted) bs) = Pruned blocks bs removed evicted
  Guarantee blocks (err e bs) =
      (e ≡ system_prompt_too_large)
      × All (IsPersistent floats) bs
      × (r.max_tokens < estimate_tokens floats bs)
  Guarantee blocks panic = truncate_blocks floats (floats.half r.max_tokens) blocks ≡ none
  Guarantee blocks out_of_fuel = ⊥

  evicted-Guarantee :
      (blocks bs : List (Block floats)) (out : Optimized floats)
      → total_tokens floats bs ≤ total_tokens floats blocks
      → length bs ≡ length blocks
      → Ends floats r (estimate_tokens floats blocks) 0 bs out
      → Guarantee blocks out
  evicted-Guarantee blocks bs (ok no_change cs) less same h = absurd (ground (arith, h.reported))
  evicted-Guarantee blocks bs (ok (pruned removed evicted) cs) less same h =
      let smaller =
        estimate_tokens_mono floats cs blocks (omega (arith, total_tokens-Evicts floats h.path)) in
      record {
        fits = h.fits;
        tokens = ground (arith, smaller, h.reported);
        blocks_left = ground (arith, h.reported, length-Evicts floats h.path);
      }
  evicted-Guarantee blocks bs (err e cs) less same (why, t) = (why, t.stuck, t.over)
  evicted-Guarantee blocks bs panic less same h = elim h [ ]
  evicted-Guarantee blocks bs out_of_fuel less same h = elim h [ ]

  truncated-Guarantee :
      (blocks bs : List (Block floats))
      → truncate_blocks floats (floats.half r.max_tokens) blocks ≡ some bs
      → Guarantee blocks (optimize_truncated floats r (estimate_tokens floats blocks) bs)
  unfolding optimize_truncated
  truncated-Guarantee blocks bs h =
      let (less, same) =
        total_tokens-truncate_blocks floats (floats.half r.max_tokens) blocks bs h in
      elim (Bool-cases (leb (estimate_tokens floats bs) r.max_tokens)) [
        | inl fits ↦ rw fits (record {
          fits = ground arith;
          tokens = omega (arith, estimate_tokens_mono floats bs blocks less);
          blocks_left = omega (arith, same);
        })
        | inr over ↦ rw over (
            evicted-Guarantee blocks bs _ less same (
              evict-Ends floats r (suc (length bs)) (estimate_tokens floats blocks) 0 bs
                (omega arith)))
      ]

  -- `optimize` always ends. If it reports success the blocks that are left fit the window; the tokens
  -- that it reports removed are exactly the difference of the two estimates, with no underflow, and
  -- the evicted and the remaining blocks add up. It reports `system_prompt_too_large` only with all
  -- remaining blocks persistent and still above the window. It panics only where the truncation
  -- rule does.
  pub optimize-Guarantee :
      (blocks : List (Block floats))
      → Guarantee (map (hydrate floats) blocks) (optimize floats r blocks)
  unfolding optimize
  optimize-Guarantee blocks =
      let hydrated = map (hydrate floats) blocks in
      elim (Bool-cases (leb (estimate_tokens floats hydrated) r.max_tokens)) [
        | inl fits ↦ rw fits (refl, ground arith)
        | inr over ↦
            elim (Option-cases (truncate_blocks floats (floats.half r.max_tokens) hydrated)) [
              | inl panics ↦ rw (over, panics, optimize) panics
              | inr (bs, cut) ↦ rw (over, cut, optimize) (truncated-Guarantee hydrated bs cut)
            ]
      ]
