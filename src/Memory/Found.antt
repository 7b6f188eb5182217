-- ===== src/Memory/Found.antt =====
-- src/memory.rs: what a search has found so far, layer by layer.
use trytet.Prelude.{
  ℕ, ◌*◌, ◌%◌, ◌^◌, ◌≡◌, refl, arith, true, false, Option, none, some, List, [], ◌∷◌, ◌++◌, map,
  contains, contains-append, contains-cons_old, contains-cons_self, Distinct, Distinct-append_one,
  bytes_eq, take, ap, All, Bool-cases, Option-cases, inl, inr,
}
use trytet.Memory.{Vectors, VectorRecord, SearchQuery, Tier2Data, VectorCollection, VfsLayer}
use trytet.Memory.Search.{
  Found, see, scan_record, scan, find_record, scan_hit, scan_hits, scan_tier2, collection_of,
  scan_layer, scan_layers,
}

module _ (vectors : Vectors) where
  open vectors use {F32, ge, one, sub, search}

  -- Of what was found, each good enough, hidden by nothing of `hidden`, and seen; and none twice.
  abbrev pub Fits :
      SearchQuery vectors → List (List ℕ) → List (List ℕ) → F32 × VectorRecord vectors → Type 0
  Fits query hidden seen (score, r) =
      (ge score query.min_score ≡ true)
      × (contains r.id hidden ≡ false)
      × (contains r.id seen ≡ true)

  abbrev pub ids : List (F32 × VectorRecord vectors) → List (List ℕ)
  ids [] = []
  ids ((score, r) ∷ out) = r.id ∷ ids out

  abbrev Holds : List ℕ → List (List ℕ) → Type 0
  Holds id seen = contains id seen ≡ true

  pub record Fair (query : SearchQuery vectors) (hidden : List (List ℕ)) (found : Found vectors)
      : Type 0 where
    pub fits : All (Fits query hidden found.seen) found.out
    pub distinct : Distinct (ids found.out)
    pub hides : (id : List ℕ) → contains id hidden ≡ true → contains id found.seen ≡ true

  Fits-mono :
      (query : SearchQuery vectors) (hidden seen more : List (List ℕ))
      (out : List (F32 × VectorRecord vectors))
      → ((id : List ℕ) → contains id seen ≡ true → contains id more ≡ true)
      → All (Fits query hidden seen) out
      → All (Fits query hidden more) out
  Fits-mono query hidden seen more [] h a = tt
  Fits-mono query hidden seen more (x ∷ out) h a =
      ((a.0.0, a.0.1, h x.1.id a.0.2), Fits-mono query hidden seen more out h a.1)

  All-append_one :
      (query : SearchQuery vectors) (hidden seen : List (List ℕ))
      (out : List (F32 × VectorRecord vectors)) (x : F32 × VectorRecord vectors)
      → All (Fits query hidden seen) out
      → Fits query hidden seen x
      → All (Fits query hidden seen) (out ++ x ∷ [])
  All-append_one query hidden seen [] x a h = (h, tt)
  All-append_one query hidden seen (y ∷ out) x a h =
      (a.0, All-append_one query hidden seen out x a.1 h)

  ids-append_one :
      (out : List (F32 × VectorRecord vectors)) (x : F32 × VectorRecord vectors)
      → ids (out ++ x ∷ []) ≡ ids out ++ x.1.id ∷ []
  ids-append_one [] x = refl
  ids-append_one (y ∷ out) x = ap (λ rest. y.1.id ∷ rest) (ids-append_one out x)

  contains-append_right :
      (id : List ℕ) (xs ys : List (List ℕ)) → contains id ys ≡ true → contains id (xs ++ ys) ≡ true
  contains-append_right id xs ys h = ground (arith, contains-append id xs ys)

  -- An identifier that is not seen is not among the results.
  unseen_new :
      (query : SearchQuery vectors) (hidden seen : List (List ℕ)) (id : List ℕ)
      (out : List (F32 × VectorRecord vectors))
      → All (Fits query hidden seen) out
      → contains id seen ≡ false
      → contains id (ids out) ≡ false
  unfolding contains
  unseen_new query hidden seen id [] a h = refl
  unseen_new query hidden seen id (x ∷ out) a h =
      ground (arith, unseen_new query hidden seen id out, bytes_eq.beq_iff id x.1.id)

  Fair-see :
      (query : SearchQuery vectors) (hidden : List (List ℕ)) (score : F32)
      (r : VectorRecord vectors) (found : Found vectors)
      → contains r.id found.seen ≡ false
      → Fair query hidden found
      → Fair query hidden (see vectors query score r found)
  unfolding see contains
  Fair-see query hidden score r found new fair = elim (Bool-cases (ge score query.min_score)) [
    | inr bad ↦ rw bad fair
    | inl good ↦ rw good (
        let grown =
          Fits-mono query hidden found.seen (r.id ∷ found.seen) found.out
            (λ id h. contains-cons_old id r.id found.seen h) fair.fits in
        record {
          fits =
              All-append_one query hidden (r.id ∷ found.seen) found.out (score, r) grown
                (
                  good,
                  ground (arith, Bool-cases (contains r.id hidden), fair.hides r.id),
                  contains-cons_self r.id found.seen,
                );
          distinct = rw (ids-append_one found.out (score, r)) (
              Distinct-append_one (ids found.out) r.id fair.distinct
                (unseen_new query hidden found.seen r.id found.out fair.fits new));
          hides = λ id h. contains-cons_old id r.id found.seen (fair.hides id h);
        })
  ]

  Fair-scan_record :
      (query : SearchQuery vectors) (hidden : List (List ℕ)) (r : VectorRecord vectors)
      (found : Found vectors)
      → Fair query hidden found
      → Fair query hidden (scan_record vectors query r found)
  unfolding scan_record
  Fair-scan_record query hidden r found fair = elim (Bool-cases (contains r.id found.seen)) [
    | inl old ↦ rw old fair
    | inr new ↦ rw new (Fair-see query hidden _ r found new fair)
  ]

  Fair-scan :
      (query : SearchQuery vectors) (hidden : List (List ℕ)) (rs : List (VectorRecord vectors))
      (found : Found vectors)
      → Fair query hidden found
      → Fair query hidden (scan vectors query rs found)
  unfolding scan
  Fair-scan query hidden [] found fair = fair
  Fair-scan query hidden (r ∷ rs) found fair =
      Fair-scan query hidden rs _ (Fair-scan_record query hidden r found fair)

  find_record-id :
      (id : List ℕ) (rs : List (VectorRecord vectors)) (r : VectorRecord vectors)
      → find_record vectors id rs ≡ some r
      → r.id ≡ id
  unfolding find_record
  find_record-id id [] r h = cc
  find_record-id id (x ∷ rs) r h = ground (arith, find_record-id id rs r, bytes_eq.beq_iff x.id id)

  Fair-scan_hit :
      (query : SearchQuery vectors) (hidden : List (List ℕ)) (records : List (VectorRecord vectors))
      (hit : F32 × List ℕ) (found : Found vectors)
      → Fair query hidden found
      → Fair query hidden (scan_hit vectors query records hit found)
  unfolding scan_hit
  Fair-scan_hit query hidden records hit found fair =
      elim (Bool-cases (contains hit.1 found.seen)) [
        | inl old ↦ rw old fair
        | inr new ↦ rw new (elim (Option-cases (find_record vectors hit.1 records)) [
          | inl e ↦ rw e fair
          | inr (r, e) ↦ rw e (
              Fair-see query hidden (sub one hit.0) r found
                (rw (find_record-id hit.1 records r e) new) fair)
        ])
      ]

  Fair-scan_hits :
      (query : SearchQuery vectors) (hidden : List (List ℕ)) (records : List (VectorRecord vectors))
      (hits : List (F32 × List ℕ)) (found : Found vectors)
      → Fair query hidden found
      → Fair query hidden (scan_hits vectors query records hits found)
  unfolding scan_hits
  Fair-scan_hits query hidden records [] found fair = fair
  Fair-scan_hits query hidden records (hit ∷ hits) found fair =
      Fair-scan_hits query hidden records hits _ (Fair-scan_hit query hidden records hit found fair)

  Fair-scan_tier2 :
      (query : SearchQuery vectors) (hidden : List (List ℕ)) (t2 : Tier2Data vectors)
      (found : Found vectors)
      → Fair query hidden found
      → Fair query hidden (scan_tier2 vectors query t2 found)
  unfolding scan_tier2
  Fair-scan_tier2 query hidden t2 found fair = elim (Option-cases t2.index) [
    | inl e ↦ rw e (Fair-scan query hidden t2.records found fair)
    | inr (idx, e) ↦ rw e (
        Fair-scan_hits query hidden t2.records
          (take (query.limit * 5 % 2 ^ 32) (search idx query.query_vector)) found fair)
  ]

  Fair-hide :
      (query : SearchQuery vectors) (hidden tombstones : List (List ℕ)) (found : Found vectors)
      → Fair query hidden found
      → Fair query hidden (record found { seen = tombstones ++ found.seen })
  Fair-hide query hidden tombstones found fair = record {
    fits =
        Fits-mono query hidden found.seen (tombstones ++ found.seen) found.out
          (λ id h. contains-append_right id tombstones found.seen h) fair.fits;
    distinct = fair.distinct;
    hides = λ id h. contains-append_right id tombstones found.seen (fair.hides id h);
  }

  -- The search of a collection, if the layer has it.
  Fair-collection :
      (query : SearchQuery vectors) (hidden : List (List ℕ)) (o : Option (VectorCollection vectors))
      (found : Found vectors)
      → Fair query hidden found
      → Fair query hidden (elim o [
        | none ↦ found
        | some col ↦
            scan_tier2 vectors query col.tier2 (scan vectors query (map (λ e. e.1) col.tier1) found)
      ])
  Fair-collection query hidden none found fair = fair
  Fair-collection query hidden (some col) found fair =
      Fair-scan_tier2 query hidden col.tier2 (scan vectors query (map (λ e. e.1) col.tier1) found)
        (Fair-scan query hidden (map (λ e. e.1) col.tier1) found fair)

  Fair-scan_layers :
      (query : SearchQuery vectors) (hidden : List (List ℕ)) (layers : List (VfsLayer vectors))
      (found : Found vectors)
      → Fair query hidden found
      → Fair query hidden (scan_layers vectors query layers found)
  unfolding scan_layers scan_layer
  Fair-scan_layers query hidden [] found fair = fair
  Fair-scan_layers query hidden (layer ∷ layers) found fair =
      Fair-scan_layers query hidden layers (scan_layer vectors query layer found) (
        Fair-collection query hidden (collection_of vectors layer query.collection)
          (record found { seen = layer.tombstones ++ found.seen })
          (Fair-hide query hidden layer.tombstones found fair))

  -- From nothing, with the tombstones of the first layer hidden for good.
  pub Fair-first :
      (query : SearchQuery vectors) (layer : VfsLayer vectors) (layers : List (VfsLayer vectors))
      → Fair query layer.tombstones
          (scan_layers vectors query (layer ∷ layers) (record { out = []; seen = [] }))
  unfolding scan_layers scan_layer
  Fair-first query layer layers =
      Fair-scan_layers query layer.tombstones layers
        (scan_layer vectors query layer (record { out = []; seen = [] }))
        (Fair-collection query layer.tombstones (collection_of vectors layer query.collection)
          (record { out = []; seen = layer.tombstones ++ [] })
          (record {
            fits = tt;
            distinct = tt;
            hides = λ id h. rw (contains-append id layer.tombstones []) (rw h);
          }))
