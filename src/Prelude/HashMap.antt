-- ===== src/Prelude/HashMap.antt =====
-- A hash map seen as an association list: an insertion replaces the entry of its key in place or
-- goes to the end, and a removal drops each entry of the key.
use Prim.Native.Nat.{ℕ, ◌+◌, ◌≤◌}
use mathlib.Core.Path.{◌≡◌, refl, sym}
use mathlib.Core.Logic.{inl, inr}
use mathlib.Core.Bool.{false, ◌||◌}
use mathlib.Core.Option.{Option, none, some}
use mathlib.Core.List.{List, [], ◌∷◌, map}
use native.Mathlib.Omega.{arith}
use trytet.Prelude.Tests.{if◌then◌else◌, get_or_zero, Bool-cases}
use trytet.Prelude.Keys.{Eq, ◌==◌, contains, Distinct}

abbrev pub HashMap {ℓ κ} : Type ℓ → Type κ → Type (ℓ ⊔ κ)
HashMap K V = List (K × V)

module _ {ℓ κ} {K : Type ℓ} {V : Type κ} ⦃e : Eq K⦄ where
  unfoldable pub lookup : K → HashMap K V → Option V
  lookup k [] = none
  lookup k ((j, v) ∷ m) = if j == k then some v else lookup k m

  unfoldable pub insert : K → V → HashMap K V → HashMap K V
  insert k v [] = (k, v) ∷ []
  insert k v (entry ∷ m) = if entry.0 == k then (k, v) ∷ m else entry ∷ insert k v m

  unfoldable pub remove : K → HashMap K V → HashMap K V
  remove k [] = []
  remove k ((j, w) ∷ m) = let rest = remove k m in if j == k then rest else (j, w) ∷ rest

  -- `entry(k).or_insert(v)`
  unfoldable pub or_insert : K → V → HashMap K V → HashMap K V
  unfolding lookup insert
  or_insert k v m = elim (lookup k m) [ none ↦ insert k v m | some _ ↦ m ]

  pub lookup-insert :
      (k other : K) (v : V) (m : HashMap K V)
      → lookup other (insert k v m) ≡ (if k == other then some v else lookup other m)
  unfolding lookup insert
  lookup-insert k other v [] = refl
  lookup-insert k other v ((i, w) ∷ m) =
      ground (arith, e.beq_iff k other, e.beq_iff i k, e.beq_iff i other, lookup-insert k other v m)

  pub lookup-insert_self : (k : K) (v : V) (m : HashMap K V) → lookup k (insert k v m) ≡ some v
  lookup-insert_self k v m = ground (arith, lookup-insert k k v m, e.beq_iff k k)

  pub lookup-remove :
      (k j : K) (m : HashMap K V) → lookup j (remove k m) ≡ (if k == j then none else lookup j m)
  unfolding lookup remove
  lookup-remove k j [] = ground arith
  lookup-remove k j ((i, w) ∷ m) =
      ground (arith, e.beq_iff k j, e.beq_iff i k, e.beq_iff i j, lookup-remove k j m)

  pub lookup-or_insert :
      (k j : K) (v : V) (m : HashMap K V)
      → lookup j (or_insert k v m)
        ≡ elim (lookup j m) [ none ↦ if k == j then some v else none | some w ↦ some w ]
  unfolding or_insert
  lookup-or_insert k j v m = ground (arith, lookup-insert k j v m, e.beq_iff k j)

  abbrev pub keys : HashMap K V → List K
  keys m = map (λ entry. entry.0) m

  -- Each key stands once, as in a hash map.
  abbrev pub IsMap : HashMap K V → Type 0
  IsMap m = Distinct (keys m)

  keys-insert :
      (k j : K) (v : V) (m : HashMap K V)
      → contains j (keys (insert k v m)) ≡ (j == k || contains j (keys m))
  unfolding insert contains
  keys-insert k j v [] = refl
  keys-insert k j v ((i, w) ∷ m) =
      ground (arith, e.beq_iff j k, e.beq_iff i k, e.beq_iff j i, keys-insert k j v m)

  pub IsMap-insert : (k : K) (v : V) (m : HashMap K V) → IsMap m → IsMap (insert k v m)
  unfolding insert contains
  IsMap-insert k v [] h = (refl, tt)
  IsMap-insert k v ((i, w) ∷ m) h = elim (Bool-cases (i == k)) [
    | inl same ↦ let at_k = (e.beq_iff i k).0 same in rw (same, sym at_k) h
    | inr other ↦ rw other (ground (arith, keys-insert k i v m, h.0), IsMap-insert k v m h.1)
  ]

  pub lookup-none : (k : K) (m : HashMap K V) → contains k (keys m) ≡ false → lookup k m ≡ none
  unfolding lookup contains
  lookup-none k [] h = refl
  lookup-none k ((i, w) ∷ m) h = ground (arith, e.beq_iff k i, e.beq_iff i k, lookup-none k m)

-- The sum of all values.
unfoldable pub total {ℓ} : {K : Type ℓ} → HashMap K ℕ → ℕ
total [] = 0
total ((k, v) ∷ m) = v + total m

module _ {ℓ} {K : Type ℓ} ⦃e : Eq K⦄ where
  -- The value of a key that may be missing.
  abbrev pub value_of : K → HashMap K ℕ → ℕ
  value_of k m = get_or_zero (lookup k m)

  pub total-insert :
      (k : K) (v : ℕ) (m : HashMap K ℕ) → total (insert k v m) + value_of k m ≡ total m + v
  unfolding total insert lookup
  total-insert k v [] = omega arith
  total-insert k v ((j, w) ∷ m) = ground (arith, total-insert k v m)

  pub value_of-le-total : (k : K) (m : HashMap K ℕ) → value_of k m ≤ total m
  unfolding total lookup
  value_of-le-total k [] = omega arith
  value_of-le-total k ((j, w) ∷ m) = ground (arith, value_of-le-total k m)

  pub total-or_insert_zero : (k : K) (m : HashMap K ℕ) → total (or_insert k 0 m) ≡ total m
  unfolding or_insert
  total-or_insert_zero k m = ground (arith, total-insert k 0 m)

  pub value_of-insert :
      (k j : K) (v : ℕ) (m : HashMap K ℕ)
      → value_of j (insert k v m) ≡ (if k == j then v else value_of j m)
  value_of-insert k j v m = ground (arith, lookup-insert k j v m)

  pub value_of-or_insert_zero :
      (k j : K) (m : HashMap K ℕ) → value_of j (or_insert k 0 m) ≡ value_of j m
  value_of-or_insert_zero k j m = ground (arith, lookup-or_insert k j 0 m)
