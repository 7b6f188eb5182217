-- ===== src/Mesh/Aliases.antt =====
-- src/mesh.rs: what an alias resolves to, over any history of registrations and removals.
use trytet.Prelude.{
  ℕ, ◌≡◌, ◌≢◌, refl, arith, false, ◌||◌, Option, none, some, List, [], ◌∷◌, map, bytes_eq,
  bytes_beq_iff, contains, Distinct, Bool-cases, Option-cases, inl, inr, ◌==◌,
}
use trytet.Prelude.HashMap
use trytet.Prelude.HashMap.{HashMap}
use trytet.Mesh.{
  TetMetadata, TetMesh, new, or_default, upsert, register, deregister, is_snapshot, retain_others,
  store_entries, remove_by_snapshot,
}

abbrev pub ids : List TetMetadata → List (List ℕ)
ids entries = map (λ (e : TetMetadata). e.tet_id) entries

contains-ids-upsert :
    (j : List ℕ) (metadata : TetMetadata) (entries : List TetMetadata)
    → contains j (ids (upsert metadata entries))
      ≡ (j == metadata.tet_id || contains j (ids entries))
unfolding upsert contains
contains-ids-upsert j metadata [] = refl
contains-ids-upsert j metadata (e ∷ entries) = ground (
  arith,
  contains-ids-upsert j metadata entries,
  bytes_beq_iff e.tet_id metadata.tet_id,
  bytes_beq_iff j metadata.tet_id,
  bytes_beq_iff j e.tet_id,
)

upsert-Distinct :
    (metadata : TetMetadata) (entries : List TetMetadata)
    → Distinct (ids entries)
    → Distinct (ids (upsert metadata entries))
unfolding upsert contains
upsert-Distinct metadata [] h = (refl, tt)
upsert-Distinct metadata (e ∷ entries) h = elim (Bool-cases (e.tet_id == metadata.tet_id)) [
  | inl same ↦
      let one = (bytes_beq_iff e.tet_id metadata.tet_id).0 same in rw same (rw one at h.0, h.1)
  | inr other ↦ rw other (
    ground (arith, contains-ids-upsert e.tet_id metadata entries, h.0),
    upsert-Distinct metadata entries h.1,
  )
]

contains-ids-retain_others :
    (id j : List ℕ) (entries : List TetMetadata)
    → contains j (ids entries) ≡ false
    → contains j (ids (retain_others id entries)) ≡ false
unfolding retain_others contains
contains-ids-retain_others id j [] h = refl
contains-ids-retain_others id j (e ∷ entries) h =
    ground (arith, contains-ids-retain_others id j entries)

retain_others-Distinct :
    (id : List ℕ) (entries : List TetMetadata)
    → Distinct (ids entries)
    → Distinct (ids (retain_others id entries))
unfolding retain_others contains
retain_others-Distinct id [] h = tt
retain_others-Distinct id (e ∷ entries) h = elim (Bool-cases (is_snapshot id e.snapshot_id)) [
  | inl gone ↦ rw gone (retain_others-Distinct id entries h.1)
  | inr kept ↦
      rw kept
        (contains-ids-retain_others id e.tet_id entries h.0, retain_others-Distinct id entries h.1)
]

-- What may stand under an alias: at least one tet, and none twice.
abbrev pub IsEntry : Option (List TetMetadata) → Type 0
IsEntry none = Unit
IsEntry (some entries) = (entries ≢ []) × Distinct (ids entries)

abbrev pub WellFormed : TetMesh → Type 0
WellFormed m = (alias : List ℕ) → IsEntry (HashMap.lookup alias m.registry)

upsert-ne-nil : (metadata : TetMetadata) (entries : List TetMetadata) → upsert metadata entries ≢ []
unfolding upsert
upsert-ne-nil metadata [] h = cc
upsert-ne-nil metadata (e ∷ entries) h = ground arith

pub or_default-Distinct :
    (o : Option (List TetMetadata)) → IsEntry o → Distinct (ids (or_default o))
or_default-Distinct none h = tt
or_default-Distinct (some entries) h = h.1

-- Where an alias's entries are replaced, or an alias is removed, the others stay as they are.
insert-IsEntry :
    (k j : List ℕ) (entries : List TetMetadata) (m : HashMap (List ℕ) (List TetMetadata))
    → IsEntry (some entries)
    → IsEntry (HashMap.lookup j m)
    → IsEntry (HashMap.lookup j (HashMap.insert k entries m))
insert-IsEntry k j entries m new old =
    rw (HashMap.lookup-insert k j entries m)
      (elim (Bool-cases (k == j)) [ inl e ↦ rw e new | inr e ↦ rw e old ])

remove-IsEntry :
    (k j : List ℕ) (m : HashMap (List ℕ) (List TetMetadata))
    → IsEntry (HashMap.lookup j m)
    → IsEntry (HashMap.lookup j (HashMap.remove k m))
remove-IsEntry k j m old =
    rw (HashMap.lookup-remove k j m)
      (elim (Bool-cases (k == j)) [ inl e ↦ rw e tt | inr e ↦ rw e old ])

store_entries-IsEntry :
    (k j : List ℕ) (entries : List TetMetadata) (m : HashMap (List ℕ) (List TetMetadata))
    → Distinct (ids entries)
    → IsEntry (HashMap.lookup j m)
    → IsEntry (HashMap.lookup j (store_entries k entries m))
unfolding store_entries
store_entries-IsEntry k j [] m h old = remove-IsEntry k j m old
store_entries-IsEntry k j (e ∷ entries) m h old =
    insert-IsEntry k j (e ∷ entries) m ((λ none. cc), h) old

register-WellFormed :
    (m : TetMesh) (alias : List ℕ) (metadata : TetMetadata)
    → WellFormed m
    → WellFormed (register m alias metadata)
unfolding register
register-WellFormed m alias metadata h j =
    let entries = or_default (HashMap.lookup alias m.registry) in
    insert-IsEntry alias j (upsert metadata entries) m.registry
      (
        upsert-ne-nil metadata entries,
        upsert-Distinct metadata entries
            (or_default-Distinct (HashMap.lookup alias m.registry) (h alias)),
      )
      (h j)

remove_by_snapshot-WellFormed :
    (m : TetMesh) (alias snapshot_id : List ℕ)
    → WellFormed m
    → WellFormed (remove_by_snapshot m alias snapshot_id)
unfolding remove_by_snapshot
remove_by_snapshot-WellFormed m alias snapshot_id h j =
    elim (Option-cases (HashMap.lookup alias m.registry)) [
      | inl missing ↦ rw (missing, remove_by_snapshot) (h j)
      | inr (entries, found) ↦
          let listed : IsEntry (some entries) = rw found at (h alias) in
          rw (found, remove_by_snapshot)
            (store_entries-IsEntry alias j (retain_others snapshot_id entries) m.registry
              (retain_others-Distinct snapshot_id entries listed.1) (h j))
    ]

-- What tets and the engine do to the registry.
pub data Event : Type 0 where
  registers : List ℕ → TetMetadata → Event
  deregisters : List ℕ → Event
  removes : List ℕ → List ℕ → Event

unfoldable pub step : TetMesh → Event → TetMesh
step m (registers alias metadata) = register m alias metadata
step m (deregisters alias) = deregister m alias
step m (removes alias snapshot_id) = remove_by_snapshot m alias snapshot_id

unfoldable pub run : TetMesh → List Event → TetMesh
unfolding step
run m [] = m
run m (e ∷ events) = run (step m e) events

step-WellFormed : (m : TetMesh) (e : Event) → WellFormed m → WellFormed (step m e)
unfolding step deregister
step-WellFormed m (registers alias metadata) h = register-WellFormed m alias metadata h
step-WellFormed m (deregisters alias) h = λ j. remove-IsEntry alias j m.registry (h j)
step-WellFormed m (removes alias id) h = remove_by_snapshot-WellFormed m alias id h

run-WellFormed_from : (m : TetMesh) (events : List Event) → WellFormed m → WellFormed (run m events)
unfolding run
run-WellFormed_from m [] h = h
run-WellFormed_from m (e ∷ events) h = run-WellFormed_from (step m e) events (step-WellFormed m e h)

-- After any history of registrations and removals from the empty mesh, each alias in the registry
-- has at least one tet, and no tet stands twice under it.
pub run-WellFormed : (events : List Event) → WellFormed (run new events)
unfolding new HashMap.lookup
run-WellFormed events = run-WellFormed_from new events (λ alias. tt)
