-- ===== src/Prelude/Text.antt =====
-- Texts as bytes.
use Prim.Native.Nat.{ℕ, suc}
use Prim.Native.Char.{code}
use Prim.Native.String.{String}
use mathlib.Core.Path.{◌≡◌, refl}
use mathlib.Core.Bool.{Bool, true, false, ◌&&◌, ◌||◌}
use mathlib.Core.Option.{Option, none, some}
use mathlib.Core.List.{List, [], ◌∷◌, ◌++◌}
use native.Mathlib.Omega.{arith}
use trytet.Prelude.Tests.{if◌then◌else◌}
use trytet.Prelude.Keys.{nat_beq}

-- `String` has its own `[]` and `∷`.
abbrev pub codes : String → List ℕ
codes String.[] = []
codes (String.◌∷◌ c s) = code c ∷ codes s

-- The tests of texts by their bytes.
unfoldable pub starts_with : List ℕ → List ℕ → Bool
starts_with text [] = true
starts_with [] (p ∷ ps) = false
starts_with (c ∷ text) (p ∷ ps) = nat_beq c p && starts_with text ps

-- `find`: the place of the first occurrence.
unfoldable pub find_text : List ℕ → List ℕ → Option ℕ
unfolding starts_with
find_text [] needle = if starts_with [] needle then some 0 else none
find_text (c ∷ text) needle =
    let later : Option ℕ = elim (find_text text needle) [ none ↦ none | some i ↦ some (suc i) ] in
    if starts_with (c ∷ text) needle then some 0 else later

-- `contains`
unfoldable pub contains_text : List ℕ → List ℕ → Bool
unfolding starts_with
contains_text [] needle = starts_with [] needle
contains_text (c ∷ text) needle = starts_with (c ∷ text) needle || contains_text text needle

pub starts_with-append : (needle rest : List ℕ) → starts_with (needle ++ rest) needle ≡ true
unfolding starts_with
starts_with-append [] [] = refl
starts_with-append [] (r ∷ rest) = refl
starts_with-append (n ∷ needle) rest = ground (arith, starts_with-append needle rest)

-- A text holds each of its parts.
pub contains_text-append :
    (before needle after : List ℕ) → contains_text (before ++ (needle ++ after)) needle ≡ true
unfolding contains_text
contains_text-append [] [] [] = refl
contains_text-append [] [] (a ∷ after) = refl
contains_text-append [] (n ∷ needle) after = ground (arith, starts_with-append (n ∷ needle) after)
contains_text-append (b ∷ before) needle after =
    ground (arith, contains_text-append before needle after)
