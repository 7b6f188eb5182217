-- ===== src/Prelude/Sets.antt =====
-- Counting in sets that are kept as lists of distinct elements.
use Prim.Native.Nat.{◌+◌, ◌≤◌, ◌<◌}
use mathlib.Core.Path.{◌≡◌}
use mathlib.Core.Logic.{inl, inr}
use mathlib.Core.Bool.{Bool, true, false}
use mathlib.Core.List.{List, [], ◌∷◌, ◌++◌}
use native.Mathlib.Omega.{arith}
use trytet.Prelude.Tests.{Bool-cases, if◌then◌else◌}
use trytet.Prelude.Lists.{length, length-append}
use trytet.Prelude.Keys.{Eq, ◌==◌, contains, Distinct, contains-append}

module _ {ℓ} {A : Type ℓ} ⦃e : Eq A⦄ where
  -- Drops the first occurrence.
  pub erase : A → List A → List A
  erase a [] = []
  erase a (x ∷ xs) = if a == x then xs else x ∷ erase a xs

  length-erase : (a : A) (xs : List A) → contains a xs ≡ true → length (erase a xs) + 1 ≡ length xs
  unfolding erase contains
  length-erase a [] h = cc
  length-erase a (x ∷ xs) h = ground (arith, length-erase a xs)

  contains-erase :
      (a b : A) (xs : List A)
      → (a == b) ≡ false
      → contains b xs ≡ true
      → contains b (erase a xs) ≡ true
  unfolding erase contains
  contains-erase a b [] ne h = cc
  contains-erase a b (x ∷ xs) ne h =
      ground (arith, contains-erase a b xs, e.beq_iff a x, e.beq_iff b x, e.beq_iff a b)

  abbrev pub Within : List A → List A → Type 0
  Within [] ys = Unit
  Within (x ∷ xs) ys = (contains x ys ≡ true) × Within xs ys

  Within-erase :
      (a : A) (xs ys : List A) → contains a xs ≡ false → Within xs ys → Within xs (erase a ys)
  unfolding contains
  Within-erase a [] ys h w = tt
  Within-erase a (x ∷ xs) ys h w =
      (contains-erase a x ys (ground arith) w.0, Within-erase a xs ys (ground arith) w.1)

  pub length-le_of_Within : (xs ys : List A) → Distinct xs → Within xs ys → length xs ≤ length ys
  length-le_of_Within [] ys d w = omega arith
  length-le_of_Within (x ∷ xs) ys d w =
      let rest = length-le_of_Within xs (erase x ys) d.1 (Within-erase x xs ys d.0 w.1) in
      omega (arith, rest, length-erase x ys w.0)

  -- Whether the two lists share an element.
  pub meets : List A → List A → Bool
  meets [] ys = false
  meets (x ∷ xs) ys = if contains x ys then true else meets xs ys

  meets_sound :
      (xs ys : List A)
      → meets xs ys ≡ true
      → (a : A) × (contains a xs ≡ true) × (contains a ys ≡ true)
  unfolding meets contains
  meets_sound [] ys h = absurd (ground arith)
  meets_sound (x ∷ xs) ys h = elim (Bool-cases (contains x ys)) [
    | inl both ↦ (x, ground (arith, e.beq_iff x x), both)
    | inr alone ↦
        let (a, here, there) = meets_sound xs ys (ground arith) in (a, ground arith, there)
  ]

  Distinct-append :
      (xs ys : List A) → Distinct xs → Distinct ys → meets xs ys ≡ false → Distinct (xs ++ ys)
  unfolding meets
  Distinct-append [] ys dx dy h = dy
  Distinct-append (x ∷ xs) ys dx dy h =
      (ground (arith, contains-append x xs ys), Distinct-append xs ys dx.1 dy (ground arith))

  Within-append : (xs ys zs : List A) → Within xs zs → Within ys zs → Within (xs ++ ys) zs
  Within-append [] ys zs wx wy = wy
  Within-append (x ∷ xs) ys zs wx wy = (wx.0, Within-append xs ys zs wx.1 wy)

  -- Two sets that together outnumber the set around them share an element.
  pub pigeonhole :
      (xs ys zs : List A)
      → Distinct xs
      → Distinct ys
      → Within xs zs
      → Within ys zs
      → length zs < length xs + length ys
      → (a : A) × (contains a xs ≡ true) × (contains a ys ≡ true)
  pigeonhole xs ys zs dx dy wx wy more = elim (Bool-cases (meets xs ys)) [
    | inl shared ↦ meets_sound xs ys shared
    | inr apart ↦
        let fits =
          length-le_of_Within (xs ++ ys) zs (Distinct-append xs ys dx dy apart)
            (Within-append xs ys zs wx wy) in
        absurd (omega (arith, fits, length-append xs ys))
  ]
