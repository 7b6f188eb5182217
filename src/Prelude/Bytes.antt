-- ===== src/Prelude/Bytes.antt =====
-- Fixed-width big-endian numbers, as `to_be_bytes` writes and `from_be_bytes` reads them.
use Prim.Native.Nat.{ℕ, zero, suc, ◌+◌, ◌*◌, ◌/◌, ◌%◌, ◌^◌, ◌<◌}
use mathlib.Core.Path.{◌≡◌, refl, sym, ap, ◌∙◌}
use mathlib.Core.List.{List, [], ◌∷◌, ◌++◌}
use native.Mathlib.Omega.{arith}
use native.Mathlib.Nat.{pow-suc}
use trytet.Prelude.Lists.{length, length-append}

-- The last `k` digits of `n` in base 256, the most significant first.
unfoldable pub be_bytes : ℕ → ℕ → List ℕ
be_bytes zero n = []
be_bytes (suc k) n = be_bytes k (n / 256) ++ (n % 256) ∷ []

pub of_be_bytes_from : ℕ → List ℕ → ℕ
of_be_bytes_from acc [] = acc
of_be_bytes_from acc (b ∷ bs) = of_be_bytes_from (acc * 256 + b) bs

pub of_be_bytes : List ℕ → ℕ
unfolding of_be_bytes_from
of_be_bytes bs = of_be_bytes_from 0 bs

pub length-be_bytes : (k n : ℕ) → length (be_bytes k n) ≡ k
unfolding be_bytes
length-be_bytes zero n = refl
length-be_bytes (suc k) n =
    omega
      (arith, length-append (be_bytes k (n / 256)) ((n % 256) ∷ []), length-be_bytes k (n / 256))

of_be_bytes_from-append :
    (acc b : ℕ) (xs : List ℕ)
    → of_be_bytes_from acc (xs ++ b ∷ []) ≡ of_be_bytes_from acc xs * 256 + b
unfolding of_be_bytes_from
of_be_bytes_from-append acc b [] = refl
of_be_bytes_from-append acc b (x ∷ xs) = of_be_bytes_from-append (acc * 256 + x) b xs

of_be_bytes-be_bytes_mod : (k n : ℕ) → n < 256 ^ k → of_be_bytes_from 0 (be_bytes k n) ≡ n
unfolding of_be_bytes_from be_bytes
of_be_bytes-be_bytes_mod zero n h = omega arith
of_be_bytes-be_bytes_mod (suc k) n h =
    of_be_bytes_from-append 0 (n % 256) (be_bytes k (n / 256))
    ∙ omega (arith, of_be_bytes-be_bytes_mod k (n / 256) (omega (arith, pow-suc 256 k)))

-- A number below the width's bound is read back.
pub of_be_bytes-be_bytes : (k n : ℕ) → n < 256 ^ k → of_be_bytes (be_bytes k n) ≡ n
unfolding of_be_bytes
of_be_bytes-be_bytes k n h = of_be_bytes-be_bytes_mod k n h

pub be_bytes_injective :
    (k m n : ℕ) → m < 256 ^ k → n < 256 ^ k → be_bytes k m ≡ be_bytes k n → m ≡ n
be_bytes_injective k m n hm hn e =
    sym (of_be_bytes-be_bytes k m hm) ∙ ap of_be_bytes e ∙ of_be_bytes-be_bytes k n hn
