-- ===== src/Memory/Tests.antt =====
-- Witnesses and tests of the vector memory, with whole numbers for scores, which say how far two
-- vectors' products and norms lie apart; and an index that finds nothing.
use trytet.Prelude.{
  ℕ, ◌+◌, ◌*◌, ◌-◌, ◌/◌, ◌≤◌, ◌≡◌, refl, leb, ltb, length, none, some, List, [], ◌∷◌, Distinct, All,
  bytes_eq,
}
use trytet.Memory.{
  Vectors, VectorRecord, SearchQuery, VectorVfs, new, remember, forget, spawn_cow_child,
}
use trytet.Memory.Snapshots.{query_memory-nothing}
use trytet.Prelude.HashMap
use trytet.Memory.Search.{recall, query_memory}
use trytet.Memory.Recall.{Wanted, result_ids, recall-Sound}
use trytet.Memory.Layers.{Keeps, Live, remember-Keeps}

abbrev whole : Vectors
whole = record {
  F32 = ℕ;
  zero = 0;
  one = 100;
  add = λ a b. a + b;
  mul = λ a b. a * b;
  sub = λ a b. a - b;
  div = λ a b. a * 100 / (b + 1);
  sqrt = λ a. a;
  is_zero = λ a. leb a 0;
  ge = λ a b. leb b a;
  lt = ltb;
  hash = λ name. length name;
  HnswMap = List (List ℕ);
  build = λ points names. points;
  search = λ index point. [];
}

abbrev note : ℕ → ℕ → VectorRecord whole
note id x = record { id = id ∷ []; vector = x ∷ []; metadata = [] }

abbrev query : SearchQuery whole
query = record { collection = 7 ∷ []; query_vector = 1 ∷ []; limit = 2; min_score = 0 }

abbrev vfs : VectorVfs whole
unfolding new
vfs = new whole 1

abbrev filled : VectorVfs whole
unfolding remember new
filled = elim (remember whole vfs (7 ∷ []) (note 1 2)) [ none ↦ vfs | some after ↦ after ]

recall-Sound_example :
    (length (recall whole filled query) ≤ 2)
    × Distinct (result_ids whole (recall whole filled query))
    × All (Wanted whole query filled.active_layer.tombstones) (recall whole filled query)
recall-Sound_example = recall-Sound whole filled query

remember-Keeps_example :
    (after : VectorVfs whole) × (remember whole vfs (7 ∷ []) (note 1 2) ≡ some after)
    × Keeps whole after.active_layer (7 ∷ []) (note 1 2)
    × Live whole after.active_layer
unfolding new
remember-Keeps_example = remember-Keeps whole vfs (7 ∷ []) (note 1 2) (_, refl, refl)

-- What was remembered is found, until it is forgotten; and not in a stored memory.
found : length (recall whole filled query) ≡ 1
unfolding recall remember new HashMap.lookup HashMap.insert
found = refl

forgotten : length (recall whole (forget whole filled (1 ∷ [])) query) ≡ 0
unfolding recall remember new forget HashMap.lookup HashMap.insert
forgotten = refl

lost : query_memory whole filled query ≡ some []
lost = query_memory-nothing whole filled query

-- The record is written again with a vector that scores nothing: its old form is found in the layer
-- below.
abbrev rewritten : VectorVfs whole
unfolding spawn_cow_child remember
rewritten = elim (remember whole (spawn_cow_child whole filled 2 3).0 (7 ∷ []) (note 1 0)) [
  | none ↦ vfs
  | some after ↦ after
]

stale :
    recall whole rewritten (record query { min_score = 1 })
    ≡ record { id = 1 ∷ []; score = 40; metadata = [] } ∷ []
unfolding recall remember new spawn_cow_child HashMap.lookup HashMap.insert
stale = refl
