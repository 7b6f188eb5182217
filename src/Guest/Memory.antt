-- ===== src/Guest/Memory.antt =====
-- Reading and writing within the bounds of a guest's memory.
use trytet.Prelude.{
  ℕ, zero, suc, ◌+◌, ◌-◌, ◌^◌, ◌≡◌, ◌≤◌, ◌<◌, refl, arith, ◌&&◌, Option, List, [], ◌∷◌, ltb, leb,
  if◌then◌else◌, length, get_elem?, take, drop, ap,
}
use trytet.Guest.{overwrite, le_bytes, of_le_bytes}

pub length-overwrite :
    (ptr : ℕ) (bytes memory : List ℕ) → length (overwrite ptr bytes memory) ≡ length memory
unfolding overwrite
length-overwrite zero [] memory = refl
length-overwrite zero (d ∷ bytes) [] = refl
length-overwrite zero (d ∷ bytes) (b ∷ memory) = omega (arith, length-overwrite zero bytes memory)
length-overwrite (suc ptr) bytes [] = refl
length-overwrite (suc ptr) bytes (b ∷ memory) = omega (arith, length-overwrite ptr bytes memory)

-- The byte at `i` after bytes were written from `ptr` on.
abbrev pub written : ℕ → List ℕ → (ℕ → Option ℕ) → ℕ → Option ℕ
written ptr bytes old i =
    if leb ptr i && ltb i (ptr + length bytes) then get_elem? bytes (i - ptr) else old i

pub get-overwrite :
    (ptr : ℕ) (bytes memory : List ℕ) (i : ℕ)
    → ptr + length bytes ≤ length memory
    → get_elem? (overwrite ptr bytes memory) i ≡ written ptr bytes (get_elem? memory) i
unfolding overwrite
get-overwrite zero [] memory i h = ground arith
get-overwrite zero (d ∷ bytes) [] i h = absurd (omega arith)
get-overwrite zero (d ∷ bytes) (b ∷ memory) zero h = ground arith
get-overwrite zero (d ∷ bytes) (b ∷ memory) (suc i) h =
    ground (arith, get-overwrite zero bytes memory i (omega arith))
get-overwrite (suc ptr) bytes [] i h = absurd (omega arith)
get-overwrite (suc ptr) bytes (b ∷ memory) zero h = ground arith
get-overwrite (suc ptr) bytes (b ∷ memory) (suc i) h =
    ground (arith, get-overwrite ptr bytes memory i (omega arith))

pub take-drop-overwrite :
    (ptr : ℕ) (bytes memory : List ℕ)
    → ptr + length bytes ≤ length memory
    → take (length bytes) (drop ptr (overwrite ptr bytes memory)) ≡ bytes
unfolding overwrite
take-drop-overwrite zero [] memory h = refl
take-drop-overwrite zero (d ∷ bytes) [] h = absurd (omega arith)
take-drop-overwrite zero (d ∷ bytes) (b ∷ memory) h =
    ap (λ rest. d ∷ rest) (take-drop-overwrite zero bytes memory (omega arith))
take-drop-overwrite (suc ptr) bytes [] h = absurd (omega arith)
take-drop-overwrite (suc ptr) bytes (b ∷ memory) h =
    take-drop-overwrite ptr bytes memory (omega arith)

pub of_le_bytes-le_bytes : (n : ℕ) → n < 2 ^ 32 → of_le_bytes (le_bytes n) ≡ n
unfolding of_le_bytes le_bytes
of_le_bytes-le_bytes n h = omega arith
