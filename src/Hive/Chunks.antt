-- ===== src/Hive/Chunks.antt =====
-- src/teleport.rs: cutting a snapshot into chunks loses nothing.
use trytet.Prelude.{
  ℕ, zero, suc, ◌+◌, ◌≡◌, ◌≤◌, refl, ap, ◌∙◌, arith, List, [], ◌∷◌, ◌++◌, length, take, drop,
  take-append-drop, length-drop,
}
use trytet.Hive.{chunk_size, chunks_on, chunks, enumerate_from, payload_chunks, flat}

module _ (size : ℕ) (positive : 1 ≤ size) where
  -- One round of the cutting needs one unit of the fuel.
  drop-within :
      (fuel b : ℕ) (bytes : List ℕ)
      → length (b ∷ bytes) ≤ suc fuel
      → length (drop size (b ∷ bytes)) ≤ fuel
  drop-within fuel b bytes h = omega (arith, length-drop size (b ∷ bytes))

  flat-chunks_on :
      (i fuel : ℕ) (bytes : List ℕ)
      → length bytes ≤ fuel
      → flat (enumerate_from i (chunks_on size fuel bytes)) ≡ bytes
  unfolding flat enumerate_from chunks_on
  flat-chunks_on i zero [] h = refl
  flat-chunks_on i zero (b ∷ bytes) h = absurd (omega arith)
  flat-chunks_on i (suc fuel) [] h = refl
  flat-chunks_on i (suc fuel) (b ∷ bytes) h =
      ap (λ rest. take size (b ∷ bytes) ++ rest)
        (flat-chunks_on (i + 1) fuel (drop size (b ∷ bytes)) (drop-within fuel b bytes h))
      ∙ take-append-drop size (b ∷ bytes)

  length-chunks_on :
      (fuel : ℕ) (bytes : List ℕ)
      → length bytes ≤ fuel
      → length (chunks_on size fuel bytes) ≤ length bytes
  unfolding chunks_on
  length-chunks_on zero bytes h = omega arith
  length-chunks_on (suc fuel) [] h = omega arith
  length-chunks_on (suc fuel) (b ∷ bytes) h = omega (
    arith,
    length-chunks_on fuel (drop size (b ∷ bytes)) (drop-within fuel b bytes h),
    length-drop size (b ∷ bytes),
  )

chunk_size-positive : 1 ≤ chunk_size
unfolding chunk_size
chunk_size-positive = omega arith

pub flat-payload_chunks : (bytes : List ℕ) → flat (payload_chunks bytes) ≡ bytes
unfolding payload_chunks chunks
flat-payload_chunks bytes =
    flat-chunks_on chunk_size chunk_size-positive 0 (length bytes) bytes (omega arith)

pub length-chunks : (bytes : List ℕ) → length (chunks bytes) ≤ length bytes
unfolding chunks
length-chunks bytes =
    length-chunks_on chunk_size chunk_size-positive (length bytes) bytes (omega arith)
