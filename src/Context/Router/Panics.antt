-- ===== src/Context/Router/Panics.antt =====
-- When `optimize` panics: it cuts a text at a byte, wherever the byte falls.
use mathlib.Core.List.{map-append}
use trytet.Prelude.{
  ℕ, zero, suc, ◌+◌, ◌-◌, ◌*◌, ◌≤◌, ◌<◌, ◌≡◌, ◌≢◌, refl, true, false, none, some, List, [], ◌∷◌,
  ◌++◌, arith, inl, inr, map, min, Option-cases, length, get_elem?, All,
}
use trytet.Context.Floats.{Floats}
use trytet.Context.Models.{is_tool_result}
use trytet.Context.Estimator.{estimate_tokens, estimate_block}
use trytet.Context.Router.{
  Block, ContextRouter, hydrate, is_char_boundary, truncated_content, truncate_to, truncate_block,
  truncate_blocks, panic, optimize,
}
use trytet.Context.Router.Guarantee.{optimize-Guarantee}

-- Each byte is a character of its own.
abbrev pub IsAscii : List ℕ → Type 0
IsAscii = All (λ b. b < 128)

get_elem?-IsAscii :
    (content : List ℕ) (i b : ℕ) → IsAscii content → get_elem? content i ≡ some b → b < 128
get_elem?-IsAscii [] i b a h = cc
get_elem?-IsAscii (x ∷ xs) zero b a h = ground arith
get_elem?-IsAscii (x ∷ xs) (suc i) b a h = get_elem?-IsAscii xs i b a.1 h

is_char_boundary-IsAscii :
    (content : List ℕ) (i : ℕ)
    → IsAscii content
    → i ≤ length content
    → is_char_boundary content i ≡ true
unfolding is_char_boundary
is_char_boundary-IsAscii content zero a h = refl
is_char_boundary-IsAscii content (suc i) a h = elim (Option-cases (get_elem? content (suc i))) [
  | inl past ↦ ground arith
  | inr (b, found) ↦ ground (arith, get_elem?-IsAscii content (suc i) b a found)
]

is_char_boundary-CutInside :
    (content : List ℕ) (i b : ℕ)
    → get_elem? content (suc i) ≡ some b
    → (128 ≤ b) × (b < 192)
    → is_char_boundary content (suc i) ≡ false
unfolding is_char_boundary
is_char_boundary-CutInside content i b found inside = rw (found, is_char_boundary) (ground arith)

module _ (floats : Floats) where
  truncate_block-ne-none :
      (fifty_percent : ℕ) (b : Block floats)
      → IsAscii b.content
      → truncate_block floats fifty_percent b ≢ none
  unfolding truncate_block truncate_to truncated_content
  truncate_block-ne-none fifty_percent b a =
      let target_len = min (fifty_percent * 4) (length b.content) in
      let fine = is_char_boundary-IsAscii b.content (target_len - 33) a (omega arith) in
      ground arith

  truncate_blocks-ne-none :
      (fifty_percent : ℕ) (bs : List (Block floats))
      → All (λ b. IsAscii b.content) bs
      → truncate_blocks floats fifty_percent bs ≢ none
  unfolding truncate_blocks
  truncate_blocks-ne-none fifty_percent [] a = ground arith
  truncate_blocks-ne-none fifty_percent (b ∷ bs) a = ground (
    arith,
    truncate_block-ne-none fifty_percent b a.0,
    truncate_blocks-ne-none fifty_percent bs a.1,
  )

  hydrate-IsAscii :
      (bs : List (Block floats))
      → All (λ b. IsAscii b.content) bs
      → All (λ b. IsAscii b.content) (map (hydrate floats) bs)
  unfolding hydrate
  hydrate-IsAscii [] a = tt
  hydrate-IsAscii (b ∷ bs) a = (a.0, hydrate-IsAscii bs a.1)

  -- A session of ASCII texts never makes `optimize` panic.
  pub optimize-ne-panic :
      (r : ContextRouter floats) (blocks : List (Block floats))
      → All (λ b. IsAscii b.content) blocks
      → optimize floats r blocks ≢ panic
  optimize-ne-panic r blocks a h =
      truncate_blocks-ne-none (floats.half r.max_tokens) (map (hydrate floats) blocks)
        (hydrate-IsAscii blocks a) (rw h at (optimize-Guarantee floats r blocks))

  -- A tool result that the rule cuts inside a character.
  pub record CutInside (r : ContextRouter floats) (b : Block floats) : Type 0 where
    pub tool : is_tool_result b.block_type ≡ true
    pub large : floats.half r.max_tokens < estimate_block floats b
    pub cut : ℕ
    pub at_cut : cut + 34 ≡ min (floats.half r.max_tokens * 4) (length b.content)
    pub byte : ℕ
    pub found : get_elem? b.content (suc cut) ≡ some byte
    pub continuation : (128 ≤ byte) × (byte < 192)

  truncate_block-none :
      (r : ContextRouter floats) (b : Block floats)
      → CutInside r b
      → truncate_block floats (floats.half r.max_tokens) (hydrate floats b) ≡ none
  unfolding truncate_block truncate_to truncated_content hydrate estimate_block
  truncate_block-none r b c =
      let off_boundary = is_char_boundary-CutInside b.content c.cut c.byte c.found c.continuation in
      let at : min (floats.half r.max_tokens * 4) (length b.content) - 33 ≡ suc c.cut =
        omega (arith, c.at_cut) in
      ground (arith, off_boundary, at)

  truncate_blocks-none :
      (fifty_percent : ℕ) (before after : List (Block floats)) (b : Block floats)
      → truncate_block floats fifty_percent b ≡ none
      → truncate_blocks floats fifty_percent (before ++ b ∷ after) ≡ none
  unfolding truncate_blocks
  truncate_blocks-none fifty_percent [] after b h = ground arith
  truncate_blocks-none fifty_percent (x ∷ before) after b h =
      ground (arith, truncate_blocks-none fifty_percent before after b h)

  -- Every session above the window that holds, anywhere, a tool result which the rule cuts inside a
  -- character makes `optimize` panic.
  pub optimize-panic :
      (r : ContextRouter floats) (before after : List (Block floats)) (b : Block floats)
      → r.max_tokens < estimate_tokens floats (map (hydrate floats) (before ++ b ∷ after))
      → CutInside r b
      → optimize floats r (before ++ b ∷ after) ≡ panic
  unfolding optimize
  optimize-panic r before after b over c =
      let split = map-append (hydrate floats) before (b ∷ after) in
      let fails =
        truncate_blocks-none (floats.half r.max_tokens) (map (hydrate floats) before)
          (map (hydrate floats) after) (hydrate floats b) (truncate_block-none r b c) in
      let panics : truncate_blocks floats (floats.half r.max_tokens)
            (map (hydrate floats) (before ++ b ∷ after))
          ≡ none =
        rw split fails in
      ground arith
