-- ===== src/Guest.antt =====
-- How a host call reads and answers in the linear memory of its guest: `validate_range` of
-- src/sandbox/sandbox_wasmtime.rs and src/sandbox/host_api/helpers.rs. A memory is the list of its
-- bytes. An `i32` is held as its bits, the number that the cast to `u32` gives; comparisons of
-- `i32` are signed.
pub mod Memory
pub mod Answers
pub mod Tests
use trytet.Prelude.{
  ℕ, zero, suc, ◌+◌, ◌*◌, ◌-◌, ◌/◌, ◌%◌, ◌^◌, min, Bool, Option, none, some, List, [], ◌∷◌, ltb,
  if◌then◌else◌, length, take, drop, ◌==◌, nat_eq,
}

-- The range `ptr .. ptr + len` of a memory of `size` bytes; none where it is out of bounds.
unfoldable pub validate_range : ℕ → ℕ → ℕ → Option (ℕ × ℕ)
validate_range size ptr len =
    let end = min (ptr + len) (2 ^ 64 - 1) in if ltb size end then none else some (ptr, end)

-- `copy_from_slice` on the bytes from `ptr` on.
unfoldable pub overwrite : ℕ → List ℕ → List ℕ → List ℕ
overwrite zero [] memory = memory
overwrite zero (d ∷ bytes) [] = []
overwrite zero (d ∷ bytes) (b ∷ memory) = d ∷ overwrite zero bytes memory
overwrite (suc ptr) bytes [] = []
overwrite (suc ptr) bytes (b ∷ memory) = b ∷ overwrite ptr bytes memory

unfoldable pub le_bytes : ℕ → List ℕ
le_bytes n = n % 256 ∷ n / 256 % 256 ∷ n / 65536 % 256 ∷ n / 16777216 % 256 ∷ []

unfoldable pub of_le_bytes : List ℕ → ℕ
of_le_bytes [] = 0
of_le_bytes (b ∷ rest) = b + 256 * of_le_bytes rest

unfoldable pub read_i32_le : List ℕ → ℕ → Option ℕ
unfolding validate_range of_le_bytes
read_i32_le memory ptr = elim (validate_range (length memory) ptr 4) [
  | none ↦ none
  | some (start, end) ↦ some (of_le_bytes (take (end - start) (drop start memory)))
]

unfoldable pub write_i32_le : List ℕ → ℕ → ℕ → Option (List ℕ)
unfolding validate_range overwrite le_bytes
write_i32_le memory ptr value = elim (validate_range (length memory) ptr 4) [
  | none ↦ none
  | some (start, end) ↦ some (overwrite start (le_bytes value) memory)
]

-- `a > b` of two `i32`.
unfoldable pub signed_gt : ℕ → ℕ → Bool
signed_gt a b = ltb ((b + 2 ^ 31) % 2 ^ 32) ((a + 2 ^ 31) % 2 ^ 32)

-- The guest is trapped, the host panics, or the guest gets a code and its memory.
pub data Answer : Type 0 where
  trap : Answer
  panic : Answer
  returns : ℕ → List ℕ → Answer

abbrev pub returns_or_trap : ℕ → Option (List ℕ) → Answer
returns_or_trap code none = trap
returns_or_trap code (some memory) = returns code memory

-- The answer that fits: the bytes, then their number. `copy_from_slice` panics where the number
-- of bytes is not the length of the range.
unfoldable pub write_fitting : List ℕ → ℕ → ℕ → List ℕ → ℕ → Answer
unfolding validate_range overwrite write_i32_le
write_fitting memory out_ptr out_len_ptr bytes response_len =
    elim (validate_range (length memory) out_ptr response_len) [
      | none ↦ trap
      | some (start, end) ↦
          if end - start == length bytes
          then returns_or_trap 0
              (write_i32_le (overwrite start bytes memory) out_len_ptr response_len)
          else panic
    ]

unfoldable pub write_response : List ℕ → ℕ → ℕ → List ℕ → Answer
unfolding read_i32_le write_i32_le signed_gt write_fitting
write_response memory out_ptr out_len_ptr bytes =
    let response_len = length bytes % 2 ^ 32 in
    elim (read_i32_le memory out_len_ptr) [
      | none ↦ trap
      | some guest_buffer_size ↦
          if signed_gt response_len guest_buffer_size
          then returns_or_trap 2 (write_i32_le memory out_len_ptr response_len)
          else write_fitting memory out_ptr out_len_ptr bytes response_len
    ]
