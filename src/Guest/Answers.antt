-- ===== src/Guest/Answers.antt =====
-- src/sandbox/host_api/helpers.rs: what a host call's answer does to the guest's memory.
use trytet.Prelude.{
  ℕ, ◌+◌, ◌-◌, ◌%◌, ◌^◌, ◌≡◌, ◌≤◌, ◌<◌, refl, sym, ap, subst, ◌∙◌, arith, true, false, Option, none,
  some, List, [], length, get_elem?, take, drop, Bool-cases, ◌⊎◌, inl, inr, nat_eq, ◌==◌,
  nat_beq_iff,
}
use trytet.Guest.{
  validate_range, overwrite, le_bytes, of_le_bytes, read_i32_le, write_i32_le, signed_gt, Answer,
  trap, panic, returns, write_fitting, write_response,
}
use trytet.Guest.Memory.{
  length-overwrite, written, get-overwrite, take-drop-overwrite, of_le_bytes-le_bytes,
}

validate_range-cases :
    (size ptr len : ℕ)
    → ptr < 2 ^ 32
    → len < 2 ^ 32
    → ((ptr + len ≤ size) × (validate_range size ptr len ≡ some (ptr, ptr + len)))
      ⊎ ((size < ptr + len) × (validate_range size ptr len ≡ none))
unfolding validate_range
validate_range-cases size ptr len small short = ground arith

read_i32_le-cases :
    (memory : List ℕ) (ptr : ℕ)
    → ptr < 2 ^ 32
    → ((ptr + 4 ≤ length memory) × ((size : ℕ) × (read_i32_le memory ptr ≡ some size)))
      ⊎ ((length memory < ptr + 4) × (read_i32_le memory ptr ≡ none))
unfolding read_i32_le
read_i32_le-cases memory ptr small =
    elim (validate_range-cases (length memory) ptr 4 small (omega arith)) [
      | inl (room, found) ↦ inl (
        room,
        (of_le_bytes (take (ptr + 4 - ptr) (drop ptr memory)), rw (found, read_i32_le) refl),
      )
      | inr (short, missing) ↦ inr (short, rw (missing, read_i32_le) refl)
    ]

write_i32_le-within :
    (memory : List ℕ) (ptr value : ℕ)
    → ptr < 2 ^ 32
    → ptr + 4 ≤ length memory
    → write_i32_le memory ptr value ≡ some (overwrite ptr (le_bytes value) memory)
unfolding write_i32_le
write_i32_le-within memory ptr value small room =
    elim (validate_range-cases (length memory) ptr 4 small (omega arith)) [
      | inl (_, found) ↦ rw (found, write_i32_le) refl
      | inr (short, _) ↦ absurd (omega arith)
    ]

length-le_bytes : (n : ℕ) → length (le_bytes n) ≡ 4
unfolding le_bytes
length-le_bytes n = refl

read_i32_le-overwrite :
    (memory : List ℕ) (ptr value : ℕ)
    → ptr < 2 ^ 32
    → value < 2 ^ 32
    → ptr + 4 ≤ length memory
    → read_i32_le (overwrite ptr (le_bytes value) memory) ptr ≡ some value
unfolding read_i32_le
read_i32_le-overwrite memory ptr value small fits room =
    let after = overwrite ptr (le_bytes value) memory in
    let same = length-overwrite ptr (le_bytes value) memory in
    let four = length-le_bytes value in
    let span : ptr + 4 - ptr ≡ length (le_bytes value) = omega arith in
    elim (validate_range-cases (length after) ptr 4 small (omega arith)) [
      | inl (_, valid) ↦
          rw (valid, read_i32_le)
            (ap (λ n. some (of_le_bytes (take n (drop ptr after)))) span
              ∙ ap (λ b. some (of_le_bytes b))
                  (take-drop-overwrite ptr (le_bytes value) memory (omega arith))
              ∙ ap some (of_le_bytes-le_bytes value fits))
      | inr (short, _) ↦ absurd (omega arith)
    ]

-- What is written at a guest's pointer, where that is in bounds, is read back from there.
read_i32_le-write_i32_le :
    (memory after : List ℕ) (ptr value : ℕ)
    → ptr < 2 ^ 32
    → value < 2 ^ 32
    → write_i32_le memory ptr value ≡ some after
    → read_i32_le after ptr ≡ some value
unfolding write_i32_le
read_i32_le-write_i32_le memory after ptr value small fits h =
    elim (validate_range-cases (length memory) ptr 4 small (omega arith)) [
      | inl (room, _) ↦
          let done = sym (write_i32_le-within memory ptr value small room) ∙ h in
          subst (λ o. read_i32_le (elim o [ none ↦ [] | some m ↦ m ]) ptr ≡ some value) done
            (read_i32_le-overwrite memory ptr value small fits room)
      | inr (_, missing) ↦
          let nothing : write_i32_le memory ptr value ≡ none = rw (missing, write_i32_le) refl in cc
    ]

-- The number of the answer's bytes, as it stands in memory.
abbrev noted : ℕ → List ℕ → (ℕ → Option ℕ) → ℕ → Option ℕ
noted ptr bytes = written ptr (le_bytes (length bytes))

-- What an answer does: the code, and each byte of the memory afterwards.
abbrev pub Answered : List ℕ → ℕ → ℕ → List ℕ → Answer → Type 0
Answered memory out_ptr out_len_ptr bytes trap =
    (length memory < out_len_ptr + 4) ⊎ (length memory < out_ptr + length bytes)
Answered memory out_ptr out_len_ptr bytes panic = ⊥
Answered memory out_ptr out_len_ptr bytes (returns code after) =
    (size : ℕ) × (read_i32_le memory out_len_ptr ≡ some size)
    × (length after ≡ length memory)
    × (((code ≡ 0)
          × (signed_gt (length bytes) size ≡ false)
          × ((i : ℕ)
              → get_elem? after i
                ≡ noted out_len_ptr bytes (written out_ptr bytes (get_elem? memory)) i))
        ⊎ ((code ≡ 2)
            × (signed_gt (length bytes) size ≡ true)
            × ((i : ℕ) → get_elem? after i ≡ noted out_len_ptr bytes (get_elem? memory) i)))

write_fitting-Answered :
    (memory : List ℕ) (out_ptr out_len_ptr size : ℕ) (bytes : List ℕ)
    → out_ptr < 2 ^ 32
    → out_len_ptr < 2 ^ 32
    → length bytes < 2 ^ 31
    → out_len_ptr + 4 ≤ length memory
    → read_i32_le memory out_len_ptr ≡ some size
    → signed_gt (length bytes) size ≡ false
    → Answered memory out_ptr out_len_ptr bytes
        (write_fitting memory out_ptr out_len_ptr bytes (length bytes))
unfolding write_fitting
write_fitting-Answered memory out_ptr out_len_ptr size bytes p q small room found fits =
    elim (validate_range-cases (length memory) out_ptr (length bytes) p (omega arith)) [
      | inr (short, missing) ↦ rw (missing, write_fitting) (inr short)
      | inl (within, valid) ↦
          let after = overwrite out_ptr bytes memory in
          let same = length-overwrite out_ptr bytes memory in
          let whole : (out_ptr + length bytes - out_ptr == length bytes) ≡ true =
            (nat_beq_iff _ _).1 (omega arith) in
          let note = write_i32_le-within after out_len_ptr (length bytes) q (omega arith) in
          let four = length-le_bytes (length bytes) in
          rw (valid, write_fitting, whole, note)
            (
              size,
              found,
              length-overwrite out_len_ptr (le_bytes (length bytes)) after ∙ same,
              inl (
                refl,
                fits,
                (λ i.
                    get-overwrite out_len_ptr (le_bytes (length bytes)) after i (omega arith)
                    ∙ ground (arith, get-overwrite out_ptr bytes memory i within)),
              ),
            )
    ]

-- For a guest's pointers and an answer that an `i32` can count: the call traps only where a range is
-- out of bounds, and it never panics. It returns 2 where the answer is longer than the buffer, and
-- then nothing but the four bytes of the required length is written. Else it returns 0, and memory
-- is as before but for the answer and its length.
pub write_response-Answered :
    (memory : List ℕ) (out_ptr out_len_ptr : ℕ) (bytes : List ℕ)
    → out_ptr < 2 ^ 32
    → out_len_ptr < 2 ^ 32
    → length bytes < 2 ^ 31
    → Answered memory out_ptr out_len_ptr bytes (write_response memory out_ptr out_len_ptr bytes)
unfolding write_response
write_response-Answered memory out_ptr out_len_ptr bytes p q small =
    let whole : length bytes % 2 ^ 32 ≡ length bytes = omega arith in
    let four = length-le_bytes (length bytes) in
    elim (read_i32_le-cases memory out_len_ptr q) [
      | inr (short, missing) ↦ rw (missing, write_response) (inl short)
      | inl (room, (size, found)) ↦ elim (Bool-cases (signed_gt (length bytes) size)) [
        | inl over ↦
            rw
              (
                found,
                write_response,
                whole,
                over,
                write_i32_le-within memory out_len_ptr (length bytes) q room,
              )
              (
                size,
                found,
                length-overwrite out_len_ptr (le_bytes (length bytes)) memory,
                inr (
                  refl,
                  over,
                  (λ i. get-overwrite out_len_ptr (le_bytes (length bytes)) memory i (omega arith)),
                ),
              )
        | inr fits ↦
            rw (found, write_response, whole, fits)
              (write_fitting-Answered memory out_ptr out_len_ptr size bytes p q small room found
                fits)
      ]
    ]
