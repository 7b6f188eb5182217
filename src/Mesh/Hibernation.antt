-- ===== src/Mesh/Hibernation.antt =====
-- src/mesh.rs: how a tet that wakes from a snapshot leaves the registry.

use trytet.Prelude.{
  ℕ, zero, suc, ◌%◌, ◌≡◌, ◌≢◌, ◌<◌, ◌↔◌, ◌⊎◌, sym, ap, ◌∙◌, arith, true, Option, none, some, List,
  [], ◌∷◌, bytes_eq, bytes_beq_iff, Bool-cases, Option-cases, inl, inr, length, get_elem?,
}
use trytet.Prelude.HashMap
use trytet.Prelude.HashMap.{HashMap}
use trytet.Mesh.{
  TetMetadata, TetMesh, or_default, resolve_local, is_snapshot, retain_others, store_entries,
  remove_by_snapshot,
}
use trytet.Mesh.Resolution.{pick, resolve_local-pick}

abbrev Among : TetMetadata → List TetMetadata → Type 0
Among e [] = ⊥
Among e (x ∷ entries) = (x ≡ e) ⊎ Among e entries

Among-of_get :
    (e : TetMetadata) (entries : List TetMetadata) (i : ℕ)
    → get_elem? entries i ≡ some e
    → Among e entries
Among-of_get e [] i h = cc
Among-of_get e (x ∷ entries) zero h = inl (ground arith)
Among-of_get e (x ∷ entries) (suc i) h = inr (Among-of_get e entries i h)

get-of_Among :
    (e : TetMetadata) (entries : List TetMetadata)
    → Among e entries
    → (i : ℕ) × (i < length entries) × (get_elem? entries i ≡ some e)
get-of_Among e [] h = elim h [ ]
get-of_Among e (x ∷ entries) (inl h) = (0, omega arith, ap some h)
get-of_Among e (x ∷ entries) (inr h) =
    let (i, small, found) = get-of_Among e entries h in (suc i, omega arith, found)

-- At some time the alias resolves to the tet.
abbrev pub Reachable : TetMesh → List ℕ → TetMetadata → Type 0
Reachable m alias e = (now : ℕ) × (resolve_local m alias now ≡ some e)

abbrev listed : TetMesh → List ℕ → List TetMetadata
listed m alias = or_default (HashMap.lookup alias m.registry)

Among-of_pick :
    (e : TetMetadata) (now : ℕ) (o : Option (List TetMetadata))
    → pick now o ≡ some e
    → Among e (or_default o)
Among-of_pick e now none h = cc
Among-of_pick e now (some []) h = cc
Among-of_pick e now (some (x ∷ entries)) h =
    Among-of_get e (x ∷ entries) (now % length (x ∷ entries)) h

pick-of_Among :
    (e : TetMetadata) (o : Option (List TetMetadata))
    → Among e (or_default o)
    → (now : ℕ) × (pick now o ≡ some e)
pick-of_Among e none h = elim h [ ]
pick-of_Among e (some []) h = elim h [ ]
pick-of_Among e (some (x ∷ entries)) h =
    let (i, small, found) = get-of_Among e (x ∷ entries) h in
    let fixed : i % length (x ∷ entries) ≡ i = grind (arith, small) in
    (i, ap (get_elem? (x ∷ entries)) fixed ∙ found)

Reachable-Among :
    (m : TetMesh) (alias : List ℕ) (e : TetMetadata)
    → Reachable m alias e ↔ Among e (listed m alias)
Reachable-Among m alias e = (
  (λ h.
      Among-of_pick e h.0 (HashMap.lookup alias m.registry)
        (sym (resolve_local-pick m alias h.0) ∙ h.1)),
  (λ h.
      let (now, found) = pick-of_Among e (HashMap.lookup alias m.registry) h in
      (now, resolve_local-pick m alias now ∙ found)),
)

is_snapshot_iff : (id : List ℕ) (s : Option (List ℕ)) → (is_snapshot id s ≡ true) ↔ (s ≡ some id)
unfolding is_snapshot
is_snapshot_iff id none = ((λ h. cc), (λ h. cc))
is_snapshot_iff id (some s) =
    ((λ h. ap some ((bytes_beq_iff s id).0 h)), (λ h. (bytes_beq_iff s id).1 (ground arith)))

Among-retain_others :
    (id : List ℕ) (e : TetMetadata) (entries : List TetMetadata)
    → Among e (retain_others id entries) ↔ (Among e entries × (e.snapshot_id ≢ some id))
unfolding retain_others
Among-retain_others id e [] = ((λ h. elim h [ ]), (λ h. h.0))
Among-retain_others id e (x ∷ entries) =
    let ih = Among-retain_others id e entries in
    let test = is_snapshot_iff id x.snapshot_id in
    elim (Bool-cases (is_snapshot id x.snapshot_id)) [
      | inl gone ↦ rw gone (
        (λ h. let old = ih.0 h in (inr old.0, old.1)),
        (λ h. ih.1 (
          elim h.0 [
            | inl same ↦ absurd (h.1 (ap (λ t. t.snapshot_id) (sym same) ∙ test.0 gone))
            | inr old ↦ old
          ],
          h.1,
        )),
      )
      | inr kept ↦ rw kept (
        (λ h. elim h [
          | inl same ↦ (
            inl same,
            (λ s.
                let held = test.1 (ap (λ (t : TetMetadata). t.snapshot_id) same ∙ s) in
                ground arith),
          )
          | inr old ↦ let rest = ih.0 old in (inr rest.0, rest.1)
        ]),
        (λ h. elim h.0 [ inl same ↦ inl same | inr old ↦ inr (ih.1 (old, h.1)) ]),
      )
    ]

lookup-store_entries :
    (alias : List ℕ) (entries : List TetMetadata) (m : HashMap (List ℕ) (List TetMetadata))
    → or_default (HashMap.lookup alias (store_entries alias entries m)) ≡ entries
unfolding store_entries
lookup-store_entries alias [] m =
    ground (arith, HashMap.lookup-remove alias alias m, bytes_beq_iff alias alias)
lookup-store_entries alias (e ∷ entries) m =
    ground (arith, HashMap.lookup-insert alias alias (e ∷ entries) m, bytes_beq_iff alias alias)

listed-remove_by_snapshot :
    (m : TetMesh) (alias snapshot_id : List ℕ)
    → listed (remove_by_snapshot m alias snapshot_id) alias
      ≡ retain_others snapshot_id (listed m alias)
unfolding remove_by_snapshot retain_others
listed-remove_by_snapshot m alias snapshot_id =
    elim (Option-cases (HashMap.lookup alias m.registry)) [
      | inl missing ↦ rw (missing, remove_by_snapshot) (ap or_default missing)
      | inr (entries, found) ↦
          rw (found, remove_by_snapshot)
            (lookup-store_entries alias (retain_others snapshot_id entries) m.registry)
    ]

-- After `remove_by_snapshot` the alias resolves to exactly the tets that it resolved to before,
-- except those that hibernate in that snapshot: no other tet is lost, and none of them stays.
pub remove_by_snapshot-exact :
    (m : TetMesh) (alias snapshot_id : List ℕ) (e : TetMetadata)
    → Reachable (remove_by_snapshot m alias snapshot_id) alias e
      ↔ (Reachable m alias e × (e.snapshot_id ≢ some snapshot_id))
remove_by_snapshot-exact m alias snapshot_id e =
    let before = Reachable-Among m alias e in
    let later = Reachable-Among (remove_by_snapshot m alias snapshot_id) alias e in
    let kept = Among-retain_others snapshot_id e (listed m alias) in
    let same = listed-remove_by_snapshot m alias snapshot_id in
    (
      (λ h. let among = kept.0 (rw same at (later.0 h)) in (before.1 among.0, among.1)),
      (λ h. later.1 (rw same (kept.1 (before.0 h.0, h.1)))),
    )
