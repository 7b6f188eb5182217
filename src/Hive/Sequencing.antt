-- ===== src/Hive/Sequencing.antt =====
-- src/hive/connection.rs: sorting the chunks of a migration by their numbers.
use mathlib.Core.List.{Permᴰ}
use mathlib.Core.List.Permᴰ.{nil, cons, swap, trans}
use trytet.Prelude.{
  ℕ, ◌+◌, ◌%◌, ◌^◌, ◌≡◌, ◌≢◌, ◌≤◌, refl, sym, ap, ◌∙◌, subst, arith, false, List, [], ◌∷◌, nat_eq,
  contains, Distinct, length, ◌==◌, ◌||◌,
}
use trytet.Prelude.HashMap
use trytet.Hive.{enumerate_from, insert_chunk, sort_chunks}

abbrev numbers : List (ℕ × List ℕ) → List ℕ
numbers got = HashMap.keys got

insert_chunk_comm :
    (a b : ℕ × List ℕ) (got : List (ℕ × List ℕ))
    → a.0 ≢ b.0
    → insert_chunk a (insert_chunk b got) ≡ insert_chunk b (insert_chunk a got)
unfolding insert_chunk
insert_chunk_comm a b [] h = ground arith
insert_chunk_comm a b (c ∷ got) h = ground (arith, insert_chunk_comm a b got)

contains-numbers-perm :
    {xs ys : List (ℕ × List ℕ)} (n : ℕ)
    → Permᴰ xs ys
    → contains n (numbers xs) ≡ contains n (numbers ys)
unfolding contains
contains-numbers-perm n nil = refl
contains-numbers-perm n (cons {a} {b} e p) =
    rw e (ap (λ r. n == b.0 || r) (contains-numbers-perm n p))
contains-numbers-perm n (swap e f) = rw (e, f) (ground arith)
contains-numbers-perm n (trans p q) = contains-numbers-perm n p ∙ contains-numbers-perm n q

Distinct-numbers-perm :
    {xs ys : List (ℕ × List ℕ)} → Permᴰ xs ys → Distinct (numbers xs) → Distinct (numbers ys)
unfolding contains
Distinct-numbers-perm nil h = h
Distinct-numbers-perm (cons {a} {b} {l₁} {l₂} e p) h = (
  sym (contains-numbers-perm b.0 p) ∙ subst (λ x. contains x.0 (numbers l₁) ≡ false) e h.0,
  Distinct-numbers-perm p h.1,
)
Distinct-numbers-perm (swap {a} {b} {a'} {b'} {l} e f) h =
    let swapped : Distinct (numbers (b ∷ a ∷ l)) = (ground arith, (ground arith, h.1.1)) in
    subst (λ x. Distinct (numbers (x ∷ b' ∷ l))) f
      (subst (λ y. Distinct (numbers (b ∷ y ∷ l))) e swapped)
Distinct-numbers-perm (trans p q) h = Distinct-numbers-perm q (Distinct-numbers-perm p h)

-- Chunks with different numbers come out of the sort in the same order, however they went in.
pub sort_chunks-perm :
    {xs ys : List (ℕ × List ℕ)}
    → Permᴰ xs ys
    → Distinct (numbers xs)
    → sort_chunks xs ≡ sort_chunks ys
unfolding sort_chunks contains
sort_chunks-perm nil h = refl
sort_chunks-perm (cons {a} {b} e p) h = rw e (ap (insert_chunk b) (sort_chunks-perm p h.1))
sort_chunks-perm (swap {a} {b} {a'} {b'} {l} e f) h =
    rw (sym e, sym f) (insert_chunk_comm a b (sort_chunks l) (λ same. ground arith))
sort_chunks-perm (trans p q) h =
    sort_chunks-perm p h ∙ sort_chunks-perm q (Distinct-numbers-perm p h)

-- The sender's numbers grow, as long as they fit a `u32`.
enumerate_from-above :
    (n i : ℕ) (chunks : List (List ℕ))
    → i + length chunks ≤ 2 ^ 32
    → n + 1 ≤ i
    → contains n (numbers (enumerate_from i chunks)) ≡ false
unfolding enumerate_from contains
enumerate_from-above n i [] h k = refl
enumerate_from-above n i (chunk ∷ chunks) h k =
    ground (arith, enumerate_from-above n (i + 1) chunks (omega arith) (omega arith))

pub enumerate_from-Distinct :
    (i : ℕ) (chunks : List (List ℕ))
    → i + length chunks ≤ 2 ^ 32
    → Distinct (numbers (enumerate_from i chunks))
unfolding enumerate_from contains
enumerate_from-Distinct i [] h = tt
enumerate_from-Distinct i (chunk ∷ chunks) h = (
  enumerate_from-above (i % 2 ^ 32) (i + 1) chunks (omega arith) (omega arith),
  enumerate_from-Distinct (i + 1) chunks (omega arith),
)

insert_chunk-first :
    (i : ℕ) (chunk : List ℕ) (chunks : List (List ℕ))
    → i + 1 + length chunks ≤ 2 ^ 32
    → insert_chunk (i % 2 ^ 32, chunk) (enumerate_from (i + 1) chunks)
      ≡ (i % 2 ^ 32, chunk) ∷ enumerate_from (i + 1) chunks
unfolding insert_chunk enumerate_from
insert_chunk-first i chunk [] h = refl
insert_chunk-first i chunk (next ∷ chunks) h = ground arith

pub sort_chunks-enumerate_from :
    (i : ℕ) (chunks : List (List ℕ))
    → i + length chunks ≤ 2 ^ 32
    → sort_chunks (enumerate_from i chunks) ≡ enumerate_from i chunks
unfolding sort_chunks enumerate_from
sort_chunks-enumerate_from i [] h = refl
sort_chunks-enumerate_from i (chunk ∷ chunks) h =
    ap (insert_chunk (i % 2 ^ 32, chunk)) (sort_chunks-enumerate_from (i + 1) chunks (omega arith))
    ∙ insert_chunk-first i chunk chunks (omega arith)
