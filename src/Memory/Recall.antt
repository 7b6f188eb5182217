-- ===== src/Memory/Recall.antt =====
-- src/memory.rs: what a search gives back.
use mathlib.Core.List.{reverse}
use trytet.Prelude.{
  ℕ, ◌≡◌, ◌≤◌, refl, arith, true, false, List, [], ◌∷◌, map, ◌==◌, contains, Distinct, bytes_eq,
  take, ap, zero, suc, length, length-take, All, Bool-cases, inl, inr, ◌||◌,
}
use trytet.Memory.{Vectors, VectorRecord, SearchQuery, SearchResult, VectorVfs}
use trytet.Memory.Search.{insert_scored, sort_scored, matches, recall, search_result}
use trytet.Memory.Found.{Fits, ids, Fair-first}

module _ (vectors : Vectors) where
  open vectors use {F32, ge}

  -- What a client is given: each good enough and not hidden.
  abbrev pub Wanted : SearchQuery vectors → List (List ℕ) → SearchResult vectors → Type 0
  Wanted query hidden result =
      (ge result.score query.min_score ≡ true) × (contains result.id hidden ≡ false)

  abbrev pub result_ids : List (SearchResult vectors) → List (List ℕ)
  result_ids results = map (λ r. r.id) results

  -- Each found is fit, and none stands twice.
  abbrev Good : SearchQuery vectors → List (List ℕ) → List (F32 × VectorRecord vectors) → Type 0
  Good query hidden out =
      All (Wanted query hidden) (map (search_result vectors) out) × Distinct (ids vectors out)

  contains-insert_scored :
      (id : List ℕ) (x : F32 × VectorRecord vectors) (ys : List (F32 × VectorRecord vectors))
      → contains id (ids vectors (insert_scored vectors x ys))
        ≡ (id == x.1.id || contains id (ids vectors ys))
  unfolding contains insert_scored
  contains-insert_scored id x [] = refl
  contains-insert_scored id x (y ∷ ys) = ground (arith, contains-insert_scored id x ys)

  Good-insert_scored :
      (query : SearchQuery vectors) (hidden : List (List ℕ)) (x : F32 × VectorRecord vectors)
      (ys : List (F32 × VectorRecord vectors))
      → Good query hidden (x ∷ ys)
      → Good query hidden (insert_scored vectors x ys)
  unfolding insert_scored contains
  Good-insert_scored query hidden x [] g = g
  Good-insert_scored query hidden x (y ∷ ys) g = elim (Bool-cases (vectors.lt x.0 y.0)) [
    | inr higher ↦ rw higher g
    | inl lower ↦
        let rest =
          Good-insert_scored query hidden x ys ((g.0.0, g.0.1.1), (ground arith, g.1.1.1)) in
        rw lower (
          (g.0.1.0, rest.0),
          (
            rw (contains-insert_scored y.1.id x ys)
                (ground (arith, bytes_eq.beq_iff x.1.id y.1.id, bytes_eq.beq_iff y.1.id x.1.id)),
            rest.1,
          ),
        )
  ]

  contains-sort_scored :
      (id : List ℕ) (xs : List (F32 × VectorRecord vectors))
      → contains id (ids vectors (sort_scored vectors xs)) ≡ contains id (ids vectors xs)
  unfolding contains sort_scored
  contains-sort_scored id [] = refl
  contains-sort_scored id (x ∷ xs) =
      ground
        (arith, contains-insert_scored id x (sort_scored vectors xs), contains-sort_scored id xs)

  Good-sort_scored :
      (query : SearchQuery vectors) (hidden : List (List ℕ))
      (xs : List (F32 × VectorRecord vectors))
      → Good query hidden xs
      → Good query hidden (sort_scored vectors xs)
  unfolding sort_scored
  Good-sort_scored query hidden [] g = g
  Good-sort_scored query hidden (x ∷ xs) g =
      let rest = Good-sort_scored query hidden xs (g.0.1, g.1.1) in
      Good-insert_scored query hidden x (sort_scored vectors xs)
        ((g.0.0, rest.0), (rw (contains-sort_scored x.1.id xs) g.1.0, rest.1))

  contains-take :
      (id : List ℕ) (n : ℕ) (xs : List (F32 × VectorRecord vectors))
      → contains id (ids vectors xs) ≡ false
      → contains id (ids vectors (take n xs)) ≡ false
  unfolding contains
  contains-take id zero xs h = refl
  contains-take id (suc n) [] h = h
  contains-take id (suc n) (x ∷ xs) h = ground (arith, contains-take id n xs)

  Good-take :
      (query : SearchQuery vectors) (hidden : List (List ℕ)) (n : ℕ)
      (xs : List (F32 × VectorRecord vectors))
      → Good query hidden xs
      → Good query hidden (take n xs)
  Good-take query hidden zero xs g = (tt, tt)
  Good-take query hidden (suc n) [] g = g
  Good-take query hidden (suc n) (x ∷ xs) g =
      let rest = Good-take query hidden n xs (g.0.1, g.1.1) in
      ((g.0.0, rest.0), (contains-take x.1.id n xs g.1.0, rest.1))

  Good-Fits :
      (query : SearchQuery vectors) (hidden seen : List (List ℕ))
      (out : List (F32 × VectorRecord vectors))
      → All (Fits vectors query hidden seen) out
      → Distinct (ids vectors out)
      → Good query hidden out
  Good-Fits query hidden seen [] a d = (tt, tt)
  Good-Fits query hidden seen (x ∷ out) a d =
      (((a.0.0, a.0.1), (Good-Fits query hidden seen out a.1 d.1).0), d)

  ids-results :
      (out : List (F32 × VectorRecord vectors))
      → result_ids (map (search_result vectors) out) ≡ ids vectors out
  ids-results [] = refl
  ids-results (x ∷ out) = ap (λ rest. x.1.id ∷ rest) (ids-results out)

  length-results :
      (out : List (F32 × VectorRecord vectors))
      → length (map (search_result vectors) out) ≡ length out
  length-results [] = refl
  length-results (x ∷ out) = ap suc (length-results out)

  -- A search gives at most as many results as its limit, none of them twice, each with at least the
  -- least score of the query, and none that the active layer has forgotten.
  pub recall-Sound :
      (vfs : VectorVfs vectors) (query : SearchQuery vectors)
      → (length (recall vectors vfs query) ≤ query.limit)
        × Distinct (result_ids (recall vectors vfs query))
        × All (Wanted query vfs.active_layer.tombstones) (recall vectors vfs query)
  unfolding recall matches
  recall-Sound vfs query =
      let fair = Fair-first vectors query vfs.active_layer (reverse vfs.base_layers) in
      let good =
        Good-take query vfs.active_layer.tombstones query.limit
          (sort_scored vectors (matches vectors vfs query))
          (Good-sort_scored query vfs.active_layer.tombstones (matches vectors vfs query) (
            Good-Fits query vfs.active_layer.tombstones _ (matches vectors vfs query) fair.fits
              fair.distinct)) in
      (
        rw (length-results (take query.limit (sort_scored vectors (matches vectors vfs query)))) (
            omega
              (arith, length-take query.limit (sort_scored vectors (matches vectors vfs query)))),
        rw (ids-results (take query.limit (sort_scored vectors (matches vectors vfs query))))
            good.1,
        good.0,
      )
