-- ===== src/Context/Router.antt =====
-- src/api/context/router.rs: `ContextRouter::optimize`. A slice of a text off a character boundary
-- panics. The eviction loop takes fuel: one more round than there are blocks is enough.
mod Candidates
pub mod Eviction
pub mod Truncation
pub mod Guarantee
pub mod Order
pub mod Panics
use Prim.Native.Nat.{Ordering}
use trytet.Prelude.{
  ℕ, zero, suc, ◌+◌, ◌-◌, ◌*◌, min, Bool, true, false, not, ◌&&◌, ◌||◌, Option, none, some, List,
  [], ◌∷◌, ◌++◌, length, get_elem?, take, map, ltb, leb, codes, if◌then◌else◌,
}
use trytet.Context.Floats.{Floats}
use trytet.Context.Models.{
  InputContentBlock, BlockType, is_tool_result, EvictionStrategy, fifo, large_block_first, hybrid,
  PruningReport, no_change, pruned, ContextError, system_prompt_too_large,
}
use trytet.Context.Estimator.{tokens_of, estimate_block, estimate_tokens}

abbrev pub truncation_notice : List ℕ
truncation_notice = codes "... [TRUNCATED BY CONTEXT ROUTER]"

-- `str::is_char_boundary` inside the text: no continuation byte 0b10xxxxxx starts there.
unfoldable pub is_char_boundary : List ℕ → ℕ → Bool
is_char_boundary content zero = true
is_char_boundary content (suc i) = elim (get_elem? content (suc i)) [
  | none ↦ if leb (suc i) (length content) then true else false
  | some b ↦ ltb b 128 || not (ltb b 192)
]

unfoldable pub remove_at {ℓ} : {A : Type ℓ} → ℕ → List A → List A
remove_at i [] = []
remove_at zero (x ∷ xs) = xs
remove_at (suc i) (x ∷ xs) = x ∷ remove_at i xs

module _ (floats : Floats) where
  abbrev pub Block : Type 0
  Block = InputContentBlock floats

  pub record ContextRouter : Type 0 where
    pub max_tokens : ℕ
    pub strategy : EvictionStrategy

  unfoldable pub hydrate : Block → Block
  unfolding estimate_block
  hydrate block = record block { block_length = estimate_block floats block }

  -- The new content; `none` is a panic.
  unfoldable pub truncated_content : ℕ → List ℕ → Option (List ℕ)
  truncated_content target_len content =
      let cut = target_len - length truncation_notice in
      if is_char_boundary content cut then some (take cut content ++ truncation_notice) else none

  unfoldable pub truncate_to : ℕ → Block → Option Block
  unfolding truncated_content estimate_block
  truncate_to target_len block =
      if ltb (length truncation_notice) target_len
      then elim (truncated_content target_len block.content) [
        | none ↦ none
        | some text ↦ some (record block { content = text; block_length = tokens_of text })
      ]
      else some block

  -- The truncation rule for one block: tool results above half of the window.
  unfoldable pub truncate_block : ℕ → Block → Option Block
  unfolding truncate_to
  truncate_block fifty_percent block =
      if is_tool_result block.block_type && ltb fifty_percent block.block_length
      then truncate_to (min (fifty_percent * 4) (length block.content)) block
      else some block

  unfoldable pub truncate_blocks : ℕ → List Block → Option (List Block)
  truncate_blocks fifty_percent [] = some []
  truncate_blocks fifty_percent (b ∷ bs) = elim (truncate_block fifty_percent b) [
    | none ↦ none
    | some b' ↦ elim (truncate_blocks fifty_percent bs) [ none ↦ none | some bs' ↦ some (b' ∷ bs') ]
  ]

  -- `iter().position(|b| !b.is_persistent)`
  unfoldable pub first_candidate : List Block → Option ℕ
  first_candidate [] = none
  first_candidate (b ∷ bs) =
      if b.is_persistent
      then elim (first_candidate bs) [ none ↦ none | some i ↦ some (suc i) ]
      else some 0

  -- One round of `max_by`: of equal elements the later one stays.
  unfoldable pub better :
      (Block → Block → Ordering) → Option (ℕ × Block) → ℕ → Block → Option (ℕ × Block)
  better cmp none i b = some (i, b)
  better cmp (some (j, best)) i b = elim (cmp best b) [
    | Ordering.gt ↦ some (j, best)
    | _ ↦ some (i, b)
  ]

  -- `iter().enumerate().filter(|(_, b)| !b.is_persistent).max_by(cmp)`
  unfoldable pub best_from :
      (Block → Block → Ordering) → ℕ → Option (ℕ × Block) → List Block → Option (ℕ × Block)
  unfolding better
  best_from cmp i acc [] = acc
  best_from cmp i acc (b ∷ bs) =
      best_from cmp (i + 1) (if b.is_persistent then acc else better cmp acc i b) bs

  abbrev pub index_of : Option (ℕ × Block) → Option ℕ
  index_of none = none
  index_of (some (i, b)) = some i

  unfoldable pub by_length : Block → Block → Ordering
  by_length a b = Prim.Native.Nat.compare a.block_length b.block_length

  abbrev pub or_equal : Option Ordering → Ordering
  or_equal none = Ordering.eq
  or_equal (some o) = o

  unfoldable pub eviction_score : Block → floats.F32
  eviction_score b =
      floats.mul (floats.of_usize b.block_length) (floats.one_minus b.importance_score)

  unfoldable pub by_score : Block → Block → Ordering
  unfolding eviction_score
  by_score a b = or_equal (floats.partial_cmp (eviction_score a) (eviction_score b))

  unfoldable pub find_eviction_candidate : EvictionStrategy → List Block → Option ℕ
  unfolding first_candidate best_from by_length by_score
  find_eviction_candidate fifo bs = first_candidate bs
  find_eviction_candidate large_block_first bs = index_of (best_from by_length 0 none bs)
  find_eviction_candidate hybrid bs = index_of (best_from by_score 0 none bs)

  pub data Optimized : Type 0 where
    ok : PruningReport → List Block → Optimized
    err : ContextError → List Block → Optimized
    panic : Optimized
    out_of_fuel : Optimized

  -- The eviction loop, from `evicted` blocks evicted so far.
  unfoldable pub evict : ContextRouter → ℕ → ℕ → ℕ → List Block → Optimized
  unfolding estimate_tokens find_eviction_candidate remove_at
  evict r zero initial evicted bs = out_of_fuel
  evict r (suc fuel) initial evicted bs = elim (ltb r.max_tokens (estimate_tokens floats bs)) [
    | false ↦ ok (pruned (initial - estimate_tokens floats bs) evicted) bs
    | true ↦ elim (find_eviction_candidate r.strategy bs) [
      | none ↦ err system_prompt_too_large bs
      | some i ↦ evict r fuel initial (evicted + 1) (remove_at i bs)
    ]
  ]

  -- What follows the truncation rule.
  unfoldable pub optimize_truncated : ContextRouter → ℕ → List Block → Optimized
  unfolding evict
  optimize_truncated r initial bs =
      let current = estimate_tokens floats bs in
      if leb current r.max_tokens
      then ok (pruned (initial - current) 0) bs
      else evict r (suc (length bs)) initial 0 bs

  -- `optimize`, over the blocks of the session.
  unfoldable pub optimize : ContextRouter → List Block → Optimized
  unfolding hydrate truncate_blocks optimize_truncated
  optimize r blocks =
      let hydrated = map hydrate blocks in
      let initial = estimate_tokens floats hydrated in
      if leb initial r.max_tokens
      then ok no_change hydrated
      else elim (truncate_blocks (floats.half r.max_tokens) hydrated) [
        | none ↦ panic
        | some bs ↦ optimize_truncated r initial bs
      ]
