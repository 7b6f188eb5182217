-- ===== src/Mesh/Resolution.antt =====
-- src/mesh.rs: which tets the resolution of an alias can return.
use trytet.Prelude.{
  ℕ, zero, suc, ◌%◌, ◌≡◌, refl, sym, ap, ◌∙◌, arith, false, Option, none, some, List, [], ◌∷◌,
  bytes_eq, bytes_beq_iff, contains, Distinct, Bool-cases, inl, inr, ◌==◌, length, get_elem?, All,
  subst, All, subst,
}
use trytet.Prelude.HashMap
use trytet.Prelude.HashMap.{HashMap}
use trytet.Mesh.{TetMetadata, TetMesh, new, or_default, upsert, register, resolve_local}
use trytet.Mesh.Aliases.{or_default-Distinct, ids, Event, run, run-WellFormed}

-- `resolve_local`, from the entries of the alias.
abbrev pub pick : ℕ → Option (List TetMetadata) → Option TetMetadata
pick now none = none
pick now (some []) = none
pick now (some (e ∷ entries)) = get_elem? (e ∷ entries) (now % length (e ∷ entries))

pub resolve_local-pick :
    (m : TetMesh) (alias : List ℕ) (now : ℕ)
    → resolve_local m alias now ≡ pick now (HashMap.lookup alias m.registry)
unfolding resolve_local
resolve_local-pick m alias now = ground arith

-- Where each listed tet satisfies a predicate, so does a resolved one.
get_elem?-All :
    (P : TetMetadata → Type 0) (entries : List TetMetadata) (i : ℕ) (e : TetMetadata)
    → All P entries
    → get_elem? entries i ≡ some e
    → P e
get_elem?-All P [] i e h found = cc
get_elem?-All P (x ∷ entries) zero e h found = subst P (ground arith) h.0
get_elem?-All P (x ∷ entries) (suc i) e h found = get_elem?-All P entries i e h.1 found

pick-All :
    (P : TetMetadata → Type 0) (now : ℕ) (o : Option (List TetMetadata)) (e : TetMetadata)
    → All P (or_default o)
    → pick now o ≡ some e
    → P e
pick-All P now none e h found = cc
pick-All P now (some []) e h found = cc
pick-All P now (some (x ∷ entries)) e h found =
    get_elem?-All P (x ∷ entries) (now % length (x ∷ entries)) e h found

-- A tet with the registered identity is the registered one.
abbrev Current : TetMetadata → TetMetadata → Type 0
Current metadata e = e.tet_id ≡ metadata.tet_id → e ≡ metadata

absent-Current :
    (metadata : TetMetadata) (entries : List TetMetadata)
    → contains metadata.tet_id (ids entries) ≡ false
    → All (Current metadata) entries
unfolding contains
absent-Current metadata [] h = tt
absent-Current metadata (e ∷ entries) h = (
  (λ same. ground (arith, bytes_beq_iff metadata.tet_id e.tet_id)),
  absent-Current metadata entries (ground arith),
)

upsert-Current :
    (metadata : TetMetadata) (entries : List TetMetadata)
    → Distinct (ids entries)
    → All (Current metadata) (upsert metadata entries)
unfolding upsert
upsert-Current metadata [] h = ((λ same. refl), tt)
upsert-Current metadata (e ∷ entries) h = elim (Bool-cases (e.tet_id == metadata.tet_id)) [
  | inl same ↦
      let one = (bytes_beq_iff e.tet_id metadata.tet_id).0 same in
      rw same ((λ again. refl), absent-Current metadata entries (rw one at h.0))
  | inr other ↦ rw other (
    (λ same. ground (arith, bytes_beq_iff e.tet_id metadata.tet_id)),
    upsert-Current metadata entries h.1,
  )
]

-- After any history and a registration, whenever its alias resolves to the tet that was registered,
-- it does so with the metadata just given, never with an older state of that tet.
pub register-current :
    (events : List Event) (alias : List ℕ) (metadata e : TetMetadata) (now : ℕ)
    → resolve_local (register (run new events) alias metadata) alias now ≡ some e
    → e.tet_id ≡ metadata.tet_id
    → e ≡ metadata
unfolding register
register-current events alias metadata e now found same =
    let registry = (run new events).registry in
    let old = or_default (HashMap.lookup alias registry) in
    let stored = HashMap.lookup-insert alias alias (upsert metadata old) registry in
    let entries : HashMap.lookup alias (HashMap.insert alias (upsert metadata old) registry)
        ≡ some (upsert metadata old) =
      ground (arith, bytes_beq_iff alias alias) in
    let picked : pick now (some (upsert metadata old)) ≡ some e =
      ap (pick now) (sym entries)
      ∙ sym (resolve_local-pick (register (run new events) alias metadata) alias now)
      ∙ found in
    pick-All (Current metadata) now (some (upsert metadata old)) e
      (upsert-Current metadata old
        (or_default-Distinct (HashMap.lookup alias registry) (run-WellFormed events alias)))
      picked same
