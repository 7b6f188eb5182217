-- ===== src/Context/Floats.antt =====
-- The floating-point arithmetic that the context router uses: a parameter of the model, with the
-- one law that the proofs need.
use Prim.Native.Nat.{Ordering}
use trytet.Prelude.{ℕ, ◌≤◌, Option}

pub record Floats : Type 1 where
  -- `f32` with `x as f32`, `1.0 - x`, `x * y` and `partial_cmp`
  pub F32 : Type 0
  pub of_usize : ℕ → F32
  pub one_minus : F32 → F32
  pub mul : F32 → F32 → F32
  pub partial_cmp : F32 → F32 → Option Ordering
  -- the four default scores: 1.0, 0.8, 0.5 and 0.2
  pub score_system : F32
  pub score_user : F32
  pub score_assistant : F32
  pub score_tool_result : F32
  -- `(n as f64 * 1.15).ceil() as usize`; conversion, product and rounding are monotone
  pub markup : ℕ → ℕ
  pub markup_mono : (m n : ℕ) → m ≤ n → markup m ≤ markup n
  -- `(n as f64 * 0.5) as usize`
  pub half : ℕ → ℕ
