-- ===== src/Memory/Snapshots.antt =====
-- src/memory.rs and sandbox/sandbox_wasmtime.rs: what a query finds on a stored memory.
use trytet.Prelude.{◌≡◌, refl, sym, ap, ◌∙◌, some, List, [], ◌∷◌, ◌++◌, map, take, ℕ, zero, suc}
use mathlib.Core.List.{reverse, reverse-cons, map-append}
use trytet.Memory.{Vectors, SearchQuery, VfsLayer, VectorVfs, shard_of, rebuild_all_indexes}
use trytet.Memory.Search.{
  Found, collection_of, scan_layer, scan_layers, matches, recall, restored, query_memory,
  without_shards, sort_scored, search_result,
}

map-reverse {ℓ κ} :
    {A : Type ℓ} {B : Type κ} (f : A → B) (xs : List A) → reverse (map f xs) ≡ map f (reverse xs)
map-reverse f [] = refl
map-reverse f (x ∷ xs) =
    reverse-cons (f x) (map f xs)
    ∙ ap (λ ys. ys ++ f x ∷ []) (map-reverse f xs)
    ∙ sym (map-append f (reverse xs) (x ∷ []))
    ∙ ap (map f) (sym (reverse-cons x xs))

take-nil {ℓ} : {A : Type ℓ} (n : ℕ) → take {A = A} n [] ≡ []
take-nil zero = refl
take-nil (suc n) = refl

module _ (vectors : Vectors) where
  scan_layers-without_shards :
      (query : SearchQuery vectors) (layers : List (VfsLayer vectors)) (found : Found vectors)
      → found.out ≡ []
      → (scan_layers vectors query (map (without_shards vectors) layers) found).out ≡ []
  unfolding scan_layers scan_layer collection_of shard_of
  scan_layers-without_shards query [] found h = h
  scan_layers-without_shards query (layer ∷ layers) found h =
      scan_layers-without_shards query layers
        (record found { seen = layer.tombstones ++ found.seen }) h

  matches-restored :
      (stored : VectorVfs vectors) (query : SearchQuery vectors)
      → matches vectors (restored vectors stored) query ≡ []
  unfolding matches restored
  matches-restored stored query =
      rw (map-reverse (without_shards vectors) stored.base_layers, matches)
        (scan_layers-without_shards query (stored.active_layer ∷ reverse stored.base_layers)
          (record { out = []; seen = [] }) refl)

  -- Whatever a memory holds when it is stored, a query on the stored memory has no result.
  pub query_memory-nothing :
      (stored : VectorVfs vectors) (query : SearchQuery vectors)
      → query_memory vectors stored query ≡ some []
  unfolding query_memory restored rebuild_all_indexes recall sort_scored
  query_memory-nothing stored query =
      rw (matches-restored stored query, recall)
        (ap (λ out. some (map (search_result vectors) out)) (take-nil query.limit))
