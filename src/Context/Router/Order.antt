-- ===== src/Context/Router/Order.antt =====
-- Which blocks `optimize` leaves: all persistent ones, and under `Fifo` the newest of the others.
use trytet.Prelude.{
  ℕ, zero, suc, ◌<◌, ◌≡◌, refl, subst, ◌∙◌, some, List, [], ◌∷◌, arith, inl, inr, map, Option-cases,
  Bool-cases, leb, length, if◌then◌else◌,
}
use trytet.Context.Floats.{Floats}
use trytet.Context.Models.{fifo, pruned}
use trytet.Context.Estimator.{estimate_tokens}
use trytet.Context.Router.{
  Block, ContextRouter, hydrate, remove_at, first_candidate, find_eviction_candidate,
  truncate_blocks, Optimized, ok, err, panic, out_of_fuel, optimize_truncated, optimize,
}
use trytet.Context.Router.Truncation.{KeepsTools, persistent-truncate_blocks}
use trytet.Context.Router.Eviction.{
  persistent, Evicts, done, round, Ends, evict-Ends, persistent-Evicts,
}

module _ (floats : Floats) (r : ContextRouter floats) where
  -- Where blocks are left, the persistent ones are those of `blocks`, unaltered and in order.
  abbrev pub KeepsPersistent : List (Block floats) → Optimized floats → Type 0
  KeepsPersistent blocks (ok report bs) = persistent floats bs ≡ persistent floats blocks
  KeepsPersistent blocks (err e bs) = persistent floats bs ≡ persistent floats blocks
  KeepsPersistent blocks panic = Unit
  KeepsPersistent blocks out_of_fuel = ⊥

  Ends-KeepsPersistent :
      (initial : ℕ) (bs : List (Block floats)) (out : Optimized floats)
      → Ends floats r initial 0 bs out
      → KeepsPersistent bs out
  Ends-KeepsPersistent initial bs (ok report cs) h = persistent-Evicts floats h.path
  Ends-KeepsPersistent initial bs (err e cs) (why, t) = persistent-Evicts floats t.path
  Ends-KeepsPersistent initial bs panic h = elim h [ ]
  Ends-KeepsPersistent initial bs out_of_fuel h = elim h [ ]

  truncated-KeepsPersistent :
      (initial : ℕ) (bs : List (Block floats))
      → KeepsPersistent bs (optimize_truncated floats r initial bs)
  unfolding optimize_truncated
  truncated-KeepsPersistent initial bs =
      elim (Bool-cases (leb (estimate_tokens floats bs) r.max_tokens)) [
        | inl fits ↦ rw fits refl
        | inr over ↦ rw over (
            Ends-KeepsPersistent initial bs _
              (evict-Ends floats r (suc (length bs)) initial 0 bs (omega arith)))
      ]

  KeepsPersistent-trans :
      (xs ys : List (Block floats)) (out : Optimized floats)
      → persistent floats ys ≡ persistent floats xs
      → KeepsPersistent ys out
      → KeepsPersistent xs out
  KeepsPersistent-trans xs ys (ok report bs) e k = k ∙ e
  KeepsPersistent-trans xs ys (err why bs) e k = k ∙ e
  KeepsPersistent-trans xs ys panic e k = tt
  KeepsPersistent-trans xs ys out_of_fuel e k = elim k [ ]

  hydrate-KeepsTools :
      (blocks : List (Block floats))
      → KeepsTools floats blocks
      → KeepsTools floats (map (hydrate floats) blocks)
  unfolding hydrate
  hydrate-KeepsTools [] k = tt
  hydrate-KeepsTools (b ∷ bs) (k, ks) = (k, hydrate-KeepsTools bs ks)

  -- Where no tool result is persistent, `optimize` keeps every persistent block, unaltered but for
  -- its recomputed length, and their order, also when it reports an error.
  pub optimize-KeepsPersistent :
      (blocks : List (Block floats))
      → KeepsTools floats blocks
      → KeepsPersistent (map (hydrate floats) blocks) (optimize floats r blocks)
  unfolding optimize
  optimize-KeepsPersistent blocks k =
      let hydrated = map (hydrate floats) blocks in
      elim (Bool-cases (leb (estimate_tokens floats hydrated) r.max_tokens)) [
        | inl fits ↦ rw fits refl
        | inr over ↦
            elim (Option-cases (truncate_blocks floats (floats.half r.max_tokens) hydrated)) [
              | inl panics ↦ rw (over, panics, optimize) tt
              | inr (bs, cut) ↦
                  let same =
                    persistent-truncate_blocks floats (floats.half r.max_tokens) hydrated bs
                      (hydrate-KeepsTools blocks k) cut in
                  rw (over, cut, optimize)
                    (KeepsPersistent-trans hydrated bs _ same
                      (truncated-KeepsPersistent (estimate_tokens floats hydrated) bs))
            ]
      ]

module _ (floats : Floats) where
  -- The list without its oldest block that is not persistent.
  pub without_oldest : List (Block floats) → List (Block floats)
  without_oldest [] = []
  without_oldest (b ∷ bs) = if b.is_persistent then b ∷ without_oldest bs else bs

  pub drop_oldest : ℕ → List (Block floats) → List (Block floats)
  drop_oldest zero bs = bs
  drop_oldest (suc n) bs = drop_oldest n (without_oldest bs)

  remove_at-first_candidate :
      (bs : List (Block floats)) (i : ℕ)
      → first_candidate floats bs ≡ some i
      → remove_at i bs ≡ without_oldest bs
  unfolding first_candidate remove_at without_oldest
  remove_at-first_candidate [] i h = refl
  remove_at-first_candidate (b ∷ bs) zero h = ground arith
  remove_at-first_candidate (b ∷ bs) (suc i) h = ground (arith, remove_at-first_candidate bs i)

  -- The rounds of the loop under `Fifo`.
  record Oldest (r : ContextRouter floats) (bs : List (Block floats)) (n : ℕ)
      (cs : List (Block floats)) : Type 0 where
    dropped : cs ≡ drop_oldest n bs
    needed : (m : ℕ) → m < n → r.max_tokens < estimate_tokens floats (drop_oldest m bs)

  Evicts-Oldest :
      {r : ContextRouter floats} {bs cs : List (Block floats)} {n : ℕ}
      → r.strategy ≡ fifo
      → Evicts floats r bs n cs
      → Oldest r bs n cs
  unfolding drop_oldest find_eviction_candidate
  Evicts-Oldest {r} is_fifo (done bs) = record {
    dropped = refl;
    needed = λ m h. absurd (omega arith);
  }
  Evicts-Oldest {r} is_fifo (round bs cs i n over pick rest) =
      let first : first_candidate floats bs ≡ some i = rw is_fifo at pick in
      let step = remove_at-first_candidate bs i first in
      let ih = Evicts-Oldest is_fifo rest in
      record {
        dropped = rw step at ih.dropped;
        needed = λ m.
            elim m as (λ k. k < suc n → r.max_tokens < estimate_tokens floats (drop_oldest k bs)) [
              | zero ↦ λ h. over
              | suc k ↦ λ h. rw step at (ih.needed k (omega arith))
            ];
      }

  Ends-Oldest :
      (r : ContextRouter floats) (initial removed n : ℕ) (bs cs : List (Block floats))
      → r.strategy ≡ fifo
      → Ends floats r initial 0 bs (ok (pruned removed n) cs)
      → Oldest r bs n cs
  Ends-Oldest r initial removed n bs cs is_fifo h =
      let same : h.rounds ≡ n = ground (arith, h.reported) in
      subst (λ k. Oldest r bs k cs) same (Evicts-Oldest is_fifo h.path)

  -- Under `Fifo`, of the blocks that the truncation rule left, `optimize` drops the `n` oldest that
  -- are not persistent, `n` as reported, and with fewer dropped the rest would not have fitted.
  pub optimize_truncated-fifo :
      (r : ContextRouter floats) (initial removed n m : ℕ) (bs cs : List (Block floats))
      → r.strategy ≡ fifo
      → optimize_truncated floats r initial bs ≡ ok (pruned removed n) cs
      → m < n
      → (cs ≡ drop_oldest n bs) × (r.max_tokens < estimate_tokens floats (drop_oldest m bs))
  unfolding optimize_truncated
  optimize_truncated-fifo r initial removed n m bs cs is_fifo h fewer =
      elim (Bool-cases (leb (estimate_tokens floats bs) r.max_tokens)) [
        | inl fits ↦ absurd (ground arith)
        | inr over ↦
            let ended = evict-Ends floats r (suc (length bs)) initial 0 bs (omega arith) in
            let result = rw over at h in
            let oldest = Ends-Oldest r initial removed n bs cs is_fifo (rw result at ended) in
            (oldest.dropped, oldest.needed m fewer)
      ]
