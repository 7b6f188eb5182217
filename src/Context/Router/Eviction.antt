-- ===== src/Context/Router/Eviction.antt =====
-- The eviction loop of `optimize`: what it removes, when it stops, and that it does.
use trytet.Prelude.{
  ℕ, zero, suc, ◌+◌, ◌-◌, ◌≤◌, ◌<◌, ◌≡◌, refl, ◌∙◌, false, some, List, [], ◌∷◌, arith, inl, inr,
  Option-cases, Bool-cases, ltb, length, get_elem?, All, if◌then◌else◌,
}
use trytet.Context.Floats.{Floats}
use trytet.Context.Models.{PruningReport, pruned, system_prompt_too_large}
use trytet.Context.Estimator.{total_tokens, estimate_tokens}
use trytet.Context.Router.{
  Block, ContextRouter, remove_at, find_eviction_candidate, Optimized, ok, err, panic, out_of_fuel,
  evict,
}
use trytet.Context.Router.Candidates.{
  IsPersistent, find_eviction_candidate-IsCandidate, find_eviction_candidate-none,
}

module _ (floats : Floats) where
  -- The blocks that no strategy may evict, in order.
  unfoldable pub persistent : List (Block floats) → List (Block floats)
  persistent [] = []
  persistent (b ∷ bs) = if b.is_persistent then b ∷ persistent bs else persistent bs

  -- `Evicts r bs n cs`: `n` rounds, each over the limit and each removing a block that is not
  -- persistent, lead from `bs` to `cs`.
  pub data Evicts (r : ContextRouter floats)
      : List (Block floats) → ℕ → List (Block floats) → Type 0 where
    done : (bs : List (Block floats)) → Evicts r bs 0 bs
    round :
        (bs cs : List (Block floats)) (i n : ℕ)
        → r.max_tokens < estimate_tokens floats bs
        → find_eviction_candidate floats r.strategy bs ≡ some i
        → Evicts r (remove_at i bs) n cs
        → Evicts r bs (suc n) cs

  length-remove_at :
      (bs : List (Block floats)) (i : ℕ) (b : Block floats)
      → get_elem? bs i ≡ some b
      → length (remove_at i bs) + 1 ≡ length bs
  unfolding remove_at
  length-remove_at [] i b h = cc
  length-remove_at (x ∷ bs) zero b h = omega arith
  length-remove_at (x ∷ bs) (suc i) b h = omega (arith, length-remove_at bs i b h)

  persistent-remove_at :
      (bs : List (Block floats)) (i : ℕ) (b : Block floats)
      → get_elem? bs i ≡ some b
      → b.is_persistent ≡ false
      → persistent (remove_at i bs) ≡ persistent bs
  unfolding remove_at persistent
  persistent-remove_at [] i b h p = cc
  persistent-remove_at (x ∷ bs) zero b h p = ground arith
  persistent-remove_at (x ∷ bs) (suc i) b h p = ground (arith, persistent-remove_at bs i b h p)

  total_tokens-remove_at :
      (bs : List (Block floats)) (i : ℕ)
      → total_tokens floats (remove_at i bs) ≤ total_tokens floats bs
  unfolding remove_at total_tokens
  total_tokens-remove_at [] i = omega arith
  total_tokens-remove_at (x ∷ bs) zero = omega arith
  total_tokens-remove_at (x ∷ bs) (suc i) = omega (arith, total_tokens-remove_at bs i)

  module _ {r : ContextRouter floats} where
    pub persistent-Evicts :
        {bs cs : List (Block floats)} {n : ℕ} → Evicts r bs n cs → persistent cs ≡ persistent bs
    persistent-Evicts (done bs) = refl
    persistent-Evicts (round bs cs i n over pick rest) =
        let c = find_eviction_candidate-IsCandidate floats r.strategy bs i pick in
        persistent-Evicts rest ∙ persistent-remove_at bs i c.block c.found c.evictable

    pub length-Evicts :
        {bs cs : List (Block floats)} {n : ℕ} → Evicts r bs n cs → length cs + n ≡ length bs
    length-Evicts (done bs) = omega arith
    length-Evicts (round bs cs i n over pick rest) =
        let c = find_eviction_candidate-IsCandidate floats r.strategy bs i pick in
        omega (arith, length-Evicts rest, length-remove_at bs i c.block c.found)

    pub total_tokens-Evicts :
        {bs cs : List (Block floats)} {n : ℕ}
        → Evicts r bs n cs
        → total_tokens floats cs ≤ total_tokens floats bs
    total_tokens-Evicts (done bs) = omega arith
    total_tokens-Evicts (round bs cs i n over pick rest) =
        omega (arith, total_tokens-Evicts rest, total_tokens-remove_at bs i)

  -- What `evict` reports, having started with `evicted` blocks evicted.
  pub record Fits (r : ContextRouter floats) (initial evicted : ℕ) (bs : List (Block floats))
      (report : PruningReport) (cs : List (Block floats)) : Type 0 where
    pub rounds : ℕ
    pub path : Evicts r bs rounds cs
    pub fits : estimate_tokens floats cs ≤ r.max_tokens
    pub reported : report ≡ pruned (initial - estimate_tokens floats cs) (evicted + rounds)

  pub record TooLarge (r : ContextRouter floats) (bs cs : List (Block floats)) : Type 0 where
    pub rounds : ℕ
    pub path : Evicts r bs rounds cs
    pub over : r.max_tokens < estimate_tokens floats cs
    pub stuck : All (IsPersistent floats) cs

  abbrev pub Ends : ContextRouter floats → ℕ → ℕ → List (Block floats) → Optimized floats → Type 0
  Ends r initial evicted bs (ok report cs) = Fits r initial evicted bs report cs
  Ends r initial evicted bs (err e cs) = (e ≡ system_prompt_too_large) × TooLarge r bs cs
  Ends r initial evicted bs panic = ⊥
  Ends r initial evicted bs out_of_fuel = ⊥

  Ends-round :
      (r : ContextRouter floats) (initial evicted : ℕ) (bs : List (Block floats)) (i : ℕ)
      (out : Optimized floats)
      → r.max_tokens < estimate_tokens floats bs
      → find_eviction_candidate floats r.strategy bs ≡ some i
      → Ends r initial (evicted + 1) (remove_at i bs) out
      → Ends r initial evicted bs out
  Ends-round r initial evicted bs i (ok report cs) over pick f = record {
    rounds = suc f.rounds;
    path = round bs cs i f.rounds over pick f.path;
    fits = f.fits;
    reported = ground (arith, f.reported);
  }
  Ends-round r initial evicted bs i (err e cs) over pick (same, t) = (
    same,
    record {
      rounds = suc t.rounds;
      path = round bs cs i t.rounds over pick t.path;
      over = t.over;
      stuck = t.stuck;
    },
  )
  Ends-round r initial evicted bs i panic over pick f = elim f [ ]
  Ends-round r initial evicted bs i out_of_fuel over pick f = elim f [ ]

  -- With fuel above the number of blocks the loop ends.
  pub evict-Ends :
      (r : ContextRouter floats) (fuel initial evicted : ℕ) (bs : List (Block floats))
      → length bs < fuel
      → Ends r initial evicted bs (evict floats r fuel initial evicted bs)
  unfolding evict
  evict-Ends r zero initial evicted bs h = absurd (omega arith)
  evict-Ends r (suc fuel) initial evicted bs h =
      elim (Bool-cases (ltb r.max_tokens (estimate_tokens floats bs))) [
        | inr fits ↦
            rw (fits, evict)
              (record { rounds = 0; path = done bs; fits = ground arith; reported = ground arith })
        | inl over ↦ elim (Option-cases (find_eviction_candidate floats r.strategy bs)) [
          | inl none_left ↦
              rw (over, none_left, evict)
                (
                  refl,
                  record {
                    rounds = 0;
                    path = done bs;
                    over = ground arith;
                    stuck = find_eviction_candidate-none floats r.strategy bs none_left;
                  },
                )
          | inr (i, pick) ↦
              let c = find_eviction_candidate-IsCandidate floats r.strategy bs i pick in
              rw (over, pick, evict)
                (Ends-round r initial evicted bs i _ (ground arith) pick (
                  evict-Ends r fuel initial (evicted + 1) (remove_at i bs)
                    (omega (arith, length-remove_at bs i c.block c.found))))
        ]
      ]
