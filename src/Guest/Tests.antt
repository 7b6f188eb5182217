-- ===== src/Guest/Tests.antt =====
-- A guest with 16 bytes of memory and room for an answer of three.
use trytet.Prelude.{ℕ, ◌≡◌, refl, arith, List, [], ◌∷◌, ◌++◌, replicate, nat_eq}
use trytet.Guest.{
  validate_range, overwrite, le_bytes, of_le_bytes, read_i32_le, write_i32_le, signed_gt, returns,
  write_fitting, write_response,
}
use trytet.Guest.Answers.{Answered, write_response-Answered}

abbrev memory : List ℕ
memory = 3 ∷ replicate 15 0

fits :
    write_response memory 8 0 (7 ∷ 8 ∷ [])
    ≡ returns 0 (2 ∷ replicate 7 0 ++ (7 ∷ 8 ∷ replicate 6 0))
unfolding validate_range overwrite le_bytes of_le_bytes read_i32_le write_i32_le signed_gt
    write_fitting write_response
fits = refl

too_long : write_response memory 8 0 (7 ∷ 8 ∷ 9 ∷ 10 ∷ []) ≡ returns 2 (4 ∷ replicate 15 0)
unfolding validate_range overwrite le_bytes of_le_bytes read_i32_le write_i32_le signed_gt
    write_fitting write_response
too_long = refl

write_response-Answered_example :
    Answered memory 8 0 (7 ∷ 8 ∷ []) (write_response memory 8 0 (7 ∷ 8 ∷ []))
write_response-Answered_example =
    write_response-Answered memory 8 0 (7 ∷ 8 ∷ []) (omega arith) (omega arith) (omega arith)
