-- ===== src/Context/Estimator.antt =====
-- src/api/context/estimator.rs: four bytes count as a token, and each block as one at least.
use trytet.Prelude.{ℕ, ◌+◌, ◌/◌, ◌≤◌, max, List, [], ◌∷◌, length, arith}
use trytet.Context.Floats.{Floats}
use trytet.Context.Models.{InputContentBlock}

unfoldable pub tokens_of : List ℕ → ℕ
tokens_of content = max 1 ((length content + 3) / 4)

pub tokens_of_mono : (xs ys : List ℕ) → length xs ≤ length ys → tokens_of xs ≤ tokens_of ys
unfolding tokens_of
tokens_of_mono xs ys h = omega arith

module _ (floats : Floats) where
  unfoldable pub estimate_block : InputContentBlock floats → ℕ
  estimate_block block = tokens_of block.content

  unfoldable pub total_tokens : List (InputContentBlock floats) → ℕ
  total_tokens [] = 0
  total_tokens (block ∷ blocks) = tokens_of block.content + total_tokens blocks

  unfoldable pub estimate_tokens : List (InputContentBlock floats) → ℕ
  unfolding total_tokens
  estimate_tokens blocks = floats.markup (total_tokens blocks)

  pub estimate_tokens_mono :
      (xs ys : List (InputContentBlock floats))
      → total_tokens xs ≤ total_tokens ys
      → estimate_tokens xs ≤ estimate_tokens ys
  unfolding estimate_tokens
  estimate_tokens_mono xs ys h = floats.markup_mono (total_tokens xs) (total_tokens ys) h
