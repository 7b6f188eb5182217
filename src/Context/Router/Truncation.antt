-- ===== src/Context/Router/Truncation.antt =====
-- The truncation rule for tool results.
use trytet.Prelude.{
  ℕ, ◌-◌, ◌*◌, ◌≤◌, ◌<◌, ◌≡◌, refl, subst, true, false, ◌&&◌, some, List, [], ◌∷◌, arith, inl, inr,
  ◌⊎◌, min, Option-cases, Bool-cases, ltb, length, length-append, length-take, take,
}
use trytet.Context.Floats.{Floats}
use trytet.Context.Models.{is_tool_result}
use trytet.Context.Estimator.{total_tokens, tokens_of, tokens_of_mono}
use trytet.Context.Router.{
  Block, truncation_notice, truncated_content, truncate_to, truncate_block, truncate_blocks,
}
use trytet.Context.Router.Eviction.{persistent}

-- The truncated text has exactly the target length.
length-truncated_content :
    (floats : Floats) (target_len : ℕ) (content text : List ℕ)
    → 33 < target_len
    → target_len ≤ length content
    → truncated_content floats target_len content ≡ some text
    → length text ≡ target_len
unfolding truncated_content
length-truncated_content floats target_len content text over within h =
    let cut = target_len - 33 in
    ground (arith, length-append (take cut content) truncation_notice, length-take cut content)

module _ (floats : Floats) where
  -- A tool result that was cut to `target_len` bytes, notice included; all else but the recomputed
  -- length is as it was.
  pub record Shortened (target_len : ℕ) (b b' : Block floats) : Type 0 where
    pub was_tool : is_tool_result b.block_type ≡ true
    pub kind : b'.block_type ≡ b.block_type
    pub persistence : b'.is_persistent ≡ b.is_persistent
    pub exact : length b'.content ≡ target_len
    pub recounted : b'.block_length ≡ tokens_of b'.content

  truncate_to-Shortened :
      (target_len : ℕ) (b b' : Block floats)
      → is_tool_result b.block_type ≡ true
      → target_len ≤ length b.content
      → truncate_to floats target_len b ≡ some b'
      → (b' ≡ b) ⊎ Shortened target_len b b'
  unfolding truncate_to
  truncate_to-Shortened target_len b b' tool within h =
      elim (Bool-cases (ltb (length truncation_notice) target_len)) [
        | inr short ↦ inl (ground arith)
        | inl over ↦ elim (Option-cases (truncated_content floats target_len b.content)) [
          | inl panics ↦ absurd (ground arith)
          | inr (text, cut) ↦
              let long =
                length-truncated_content floats target_len b.content text (ground arith) within
                  cut in
              let same : record b { content = text; block_length = tokens_of text } ≡ b' =
                ground arith in
              inr (
                subst (Shortened target_len b) same (record {
                  was_tool = tool;
                  kind = refl;
                  persistence = refl;
                  exact = long;
                  recounted = refl;
                }))
        ]
      ]

  -- The rule leaves a block alone, or it cuts a tool result to four bytes for each token of half the
  -- window.
  pub truncate_block-Shortened :
      (fifty_percent : ℕ) (b b' : Block floats)
      → truncate_block floats fifty_percent b ≡ some b'
      → (b' ≡ b) ⊎ Shortened (min (fifty_percent * 4) (length b.content)) b b'
  unfolding truncate_block
  truncate_block-Shortened fifty_percent b b' h =
      elim (Bool-cases (is_tool_result b.block_type && ltb fifty_percent b.block_length)) [
        | inr small ↦ inl (ground arith)
        | inl large ↦
            truncate_to-Shortened (min (fifty_percent * 4) (length b.content)) b b' (ground arith)
              (omega arith) (rw large at h)
      ]

  tokens-truncate_block :
      (fifty_percent : ℕ) (b b' : Block floats)
      → truncate_block floats fifty_percent b ≡ some b'
      → tokens_of b'.content ≤ tokens_of b.content
  tokens-truncate_block fifty_percent b b' h =
      elim (truncate_block-Shortened fifty_percent b b' h) [
        | inl same ↦ rw same (omega arith)
        | inr cut ↦ tokens_of_mono b'.content b.content (omega (arith, cut.exact))
      ]

  -- The rule block by block.
  abbrev Truncates : ℕ → List (Block floats) → List (Block floats) → Type 0
  Truncates fifty_percent [] [] = Unit
  Truncates fifty_percent (b ∷ bs) (c ∷ cs) =
      (truncate_block floats fifty_percent b ≡ some c) × Truncates fifty_percent bs cs
  Truncates fifty_percent _ _ = ⊥

  truncate_blocks-Truncates :
      (fifty_percent : ℕ) (bs cs : List (Block floats))
      → truncate_blocks floats fifty_percent bs ≡ some cs
      → Truncates fifty_percent bs cs
  unfolding truncate_blocks
  truncate_blocks-Truncates fifty_percent [] [] h = tt
  truncate_blocks-Truncates fifty_percent [] (c ∷ cs) h = absurd (ground arith)
  truncate_blocks-Truncates fifty_percent (b ∷ bs) [] h = absurd (ground arith)
  truncate_blocks-Truncates fifty_percent (b ∷ bs) (c ∷ cs) h =
      (ground arith, truncate_blocks-Truncates fifty_percent bs cs (ground arith))

  total_tokens-Truncates :
      (fifty_percent : ℕ) (bs cs : List (Block floats))
      → Truncates fifty_percent bs cs
      → (total_tokens floats cs ≤ total_tokens floats bs) × (length cs ≡ length bs)
  unfolding total_tokens
  total_tokens-Truncates fifty_percent [] [] t = (omega arith, refl)
  total_tokens-Truncates fifty_percent [] (c ∷ cs) t = elim t [ ]
  total_tokens-Truncates fifty_percent (b ∷ bs) [] t = elim t [ ]
  total_tokens-Truncates fifty_percent (b ∷ bs) (c ∷ cs) (first, rest) =
      let ih = total_tokens-Truncates fifty_percent bs cs rest in
      (omega (arith, ih, tokens-truncate_block fifty_percent b c first), omega (arith, ih))

  pub total_tokens-truncate_blocks :
      (fifty_percent : ℕ) (bs cs : List (Block floats))
      → truncate_blocks floats fifty_percent bs ≡ some cs
      → (total_tokens floats cs ≤ total_tokens floats bs) × (length cs ≡ length bs)
  total_tokens-truncate_blocks fifty_percent bs cs h =
      total_tokens-Truncates fifty_percent bs cs (truncate_blocks-Truncates fifty_percent bs cs h)

  -- No persistent block is a tool result, as `new_block` makes them.
  abbrev pub KeepsTools : List (Block floats) → Type 0
  KeepsTools [] = Unit
  KeepsTools (b ∷ bs) = ((b.is_persistent && is_tool_result b.block_type) ≡ false) × KeepsTools bs

  persistent-cons :
      (b c : Block floats) (bs cs : List (Block floats))
      → (b.is_persistent && is_tool_result b.block_type) ≡ false
      → (c ≡ b) ⊎ ((is_tool_result b.block_type ≡ true) × (c.is_persistent ≡ b.is_persistent))
      → persistent floats cs ≡ persistent floats bs
      → persistent floats (c ∷ cs) ≡ persistent floats (b ∷ bs)
  unfolding persistent
  persistent-cons b c bs cs k (inl same) ih = rw (same, ih)
  persistent-cons b c bs cs k (inr (tool, flag)) ih = ground arith

  persistent-Truncates :
      (fifty_percent : ℕ) (bs cs : List (Block floats))
      → KeepsTools bs
      → Truncates fifty_percent bs cs
      → persistent floats cs ≡ persistent floats bs
  persistent-Truncates fifty_percent [] [] k t = refl
  persistent-Truncates fifty_percent [] (c ∷ cs) k t = elim t [ ]
  persistent-Truncates fifty_percent (b ∷ bs) [] k t = elim t [ ]
  persistent-Truncates fifty_percent (b ∷ bs) (c ∷ cs) (k, ks) (first, rest) =
      persistent-cons b c bs cs k
        (elim (truncate_block-Shortened fifty_percent b c first) [
          | inl same ↦ inl same
          | inr cut ↦ inr (cut.was_tool, cut.persistence)
        ])
        (persistent-Truncates fifty_percent bs cs ks rest)

  pub persistent-truncate_blocks :
      (fifty_percent : ℕ) (bs cs : List (Block floats))
      → KeepsTools bs
      → truncate_blocks floats fifty_percent bs ≡ some cs
      → persistent floats cs ≡ persistent floats bs
  persistent-truncate_blocks fifty_percent bs cs k h =
      persistent-Truncates fifty_percent bs cs k (truncate_blocks-Truncates fifty_percent bs cs h)
