-- ===== src/Context/Tests.antt =====
-- Witnesses and tests of the context router, with scores in hundredths.
use Prim.Native.Nat.{compare}
use trytet.Prelude.{
  ℕ, ◌+◌, ◌-◌, ◌*◌, ◌/◌, ◌≤◌, ◌<◌, ◌≡◌, refl, true, false, some, List, [], ◌∷◌, ◌++◌, arith, map,
  replicate,
}
use trytet.Context.Floats.{Floats}
use trytet.Context.Models.{system, user, tool_result, fifo}
use trytet.Context.Estimator.{estimate_tokens, tokens_of}
use trytet.Context.Router.{Block, ContextRouter, hydrate, panic, optimize_truncated, optimize}
use trytet.Context.Router.Guarantee.{Guarantee, optimize-Guarantee}
use trytet.Context.Router.Order.{
  KeepsPersistent, optimize-KeepsPersistent, drop_oldest, optimize_truncated-fifo,
}
use trytet.Context.Router.Panics.{optimize-panic}

abbrev add_15_percent : ℕ → ℕ
add_15_percent n = (n * 115 + 99) / 100

add_15_percent_mono : (m n : ℕ) → m ≤ n → add_15_percent m ≤ add_15_percent n
add_15_percent_mono m n h = omega arith

abbrev hundredths : Floats
hundredths = record {
  F32 = ℕ;
  of_usize = λ n. n;
  one_minus = λ x. 100 - x;
  mul = λ x y. x * y;
  partial_cmp = λ x y. some (compare x y);
  score_system = 100;
  score_user = 80;
  score_assistant = 50;
  score_tool_result = 20;
  markup = add_15_percent;
  markup_mono = add_15_percent_mono;
  half = λ n. n / 2;
}

abbrev prompt : Block hundredths
prompt = record {
  block_type = system;
  content = replicate 8 65;
  is_persistent = true;
  importance_score = 100;
  block_length = 0;
}

abbrev question : ℕ → Block hundredths
question n = record {
  block_type = user;
  content = replicate n 65;
  is_persistent = false;
  importance_score = 80;
  block_length = 0;
}

abbrev session : List (Block hundredths)
session = prompt ∷ question 40 ∷ question 12 ∷ []

abbrev narrow : ContextRouter hundredths
narrow = record { max_tokens = 8; strategy = fifo }

optimize-Guarantee_example :
    Guarantee hundredths narrow
      (map (hydrate hundredths) session)
      (optimize hundredths narrow session)
optimize-Guarantee_example = optimize-Guarantee hundredths narrow session

optimize-KeepsPersistent_example :
    KeepsPersistent hundredths narrow
      (map (hydrate hundredths) session)
      (optimize hundredths narrow session)
optimize-KeepsPersistent_example =
    optimize-KeepsPersistent hundredths narrow session (refl, (refl, (refl, tt)))

-- One question is dropped: with both, the session would not fit.
optimize_truncated-fifo_example :
    (prompt ∷ question 12 ∷ [] ≡ drop_oldest hundredths 1 session)
    × (8 < estimate_tokens hundredths (drop_oldest hundredths 0 session))
unfolding optimize_truncated estimate_tokens tokens_of
optimize_truncated-fifo_example =
    optimize_truncated-fifo hundredths narrow 18 12 1 0 session (prompt ∷ question 12 ∷ []) refl
      refl (omega arith)

-- Six characters of two bytes each among others of one.
abbrev accents : List ℕ
accents =
    replicate 2 65
    ++ (195 ∷ 169 ∷ 195 ∷ 169 ∷ 195 ∷ 169 ∷ 195 ∷ 169 ∷ 195 ∷ 169 ∷ 195 ∷ 169 ∷ [])
    ++ replicate 60 65

abbrev tool_output : Block hundredths
tool_output = record {
  block_type = tool_result;
  content = accents;
  is_persistent = false;
  importance_score = 20;
  block_length = 0;
}

abbrev window : ContextRouter hundredths
window = record { max_tokens = 18; strategy = fifo }

optimize-panic_example : optimize hundredths window (prompt ∷ tool_output ∷ []) ≡ panic
unfolding estimate_tokens tokens_of hydrate
optimize-panic_example =
    optimize-panic hundredths window (prompt ∷ []) [] tool_output (omega arith) (record {
      tool = refl;
      large = omega arith;
      cut = 2;
      at_cut = refl;
      byte = 169;
      found = refl;
      continuation = (omega arith, omega arith);
    })
