-- ===== src/Oci/Tests.antt =====
-- A witness of the registry client: a registry in memory, whose digest of a blob is the blob itself.
use trytet.Prelude.{
  ℕ, ◌≡◌, refl, sym, ap, arith, Bool, true, false, ◌&&◌, Option, none, some, List, [], ◌∷◌,
  bytes_eq, bytes_beq, bytes_beq_iff, codes, if◌then◌else◌, Bool-cases, inl, inr, subst,
}
use trytet.Engine.{AgentManifest}
use trytet.Hive.Examples.{snapshot, bincode}
use trytet.Oci.{
  OciManifest, Registry, Libraries, upload_all, push_state, pull_state, state_manifest, split_once,
}
use trytet.Oci.Integrity.{Keeps, pull_state-push_state}

-- What is stored under a name and a digest or a tag; a blob whose digest is another is not given.
abbrev Blobs : Type 0
Blobs = List ℕ → List ℕ → Option (List ℕ)

abbrev put {ℓ} : {A : Type ℓ} → (List ℕ → List ℕ → A) → List ℕ → List ℕ → A → List ℕ → List ℕ → A
put m name key value name' key' =
    if bytes_beq name name' && bytes_beq key key' then value else m name' key'

abbrev proper : List ℕ → Option (List ℕ) → Option (List ℕ)
proper digest none = none
proper digest (some content) = if bytes_beq content digest then some content else none

abbrev is_some {ℓ} : {A : Type ℓ} → Option A → Bool
is_some none = false
is_some (some a) = true

abbrev registry : Registry
registry = record {
  State = Blobs × (List ℕ → List ℕ → Option OciManifest);
  has_blob = λ s name digest. is_some (proper digest (s.0 name digest));
  put_blob = λ s name digest content.
      if bytes_beq content digest then some (put s.0 name digest (some content), s.1) else none;
  get_blob = λ s name digest. proper digest (s.0 name digest);
  put_manifest = λ s name tag m. some (s.0, put s.1 name tag (some m));
  get_manifest = λ s name tag. s.1 name tag;
}

no_json : (m : AgentManifest) (json : List ℕ) → none ≡ some json → none ≡ some m
no_json m json h = cc

abbrev libraries : Libraries
libraries = record {
  digest_of = λ content. content;
  print_oci_manifest = λ m. [];
  print_manifest = λ m. none;
  parse_manifest = λ json. none;
  serialize = bincode.serialize;
  deserialize = bincode.deserialize;
  parse-print_manifest = no_json;
  deserialize-serialize = bincode.deserialize-serialize;
}

content_addressed_lem :
    (digest : List ℕ) (o : Option (List ℕ))
    → is_some (proper digest o) ≡ true
    → (content : List ℕ) × (proper digest o ≡ some content) × (content ≡ digest)
content_addressed_lem digest none h = cc
content_addressed_lem digest (some content) h = elim (Bool-cases (bytes_beq content digest)) [
  | inl same ↦ (content, rw same refl, (bytes_beq_iff content digest).0 same)
  | inr other ↦ cc (rw other at h)
]

get-put_blob_lem :
    (m : Blobs) (manifests : List ℕ → List ℕ → Option OciManifest)
    (s' : Blobs × (List ℕ → List ℕ → Option OciManifest)) (name digest content : List ℕ)
    → (if bytes_beq content digest
        then some (put m name digest (some content), manifests)
        else none)
      ≡ some s'
    → (bytes_beq content digest ≡ true) × (s'.0 ≡ put m name digest (some content))
get-put_blob_lem m manifests s' name digest content h =
    elim (Bool-cases (bytes_beq content digest)) [
      | inl same ↦
          let e : (put m name digest (some content), manifests) ≡ s' = cc (rw same at h) in
          (same, sym (ap (λ r. r.0) e))
      | inr other ↦ cc (rw other at h)
    ]

self : (a : List ℕ) → bytes_beq a a ≡ true
self a = (bytes_beq_iff a a).1 refl

put_other :
    (m : Blobs) (name digest content other kept : List ℕ)
    → proper other (m name other) ≡ some kept
    → (other ≡ digest → kept ≡ content)
    → proper other (put m name digest (some content) name other) ≡ some kept
put_other m name digest content other kept h same =
    ground (arith, self name, h, bytes_beq_iff digest other, same, bytes_beq_iff content other)

keeps : Keeps registry libraries
keeps = record {
  content_addressed = λ s name digest h. content_addressed_lem digest (s.0 name digest) h;
  get-put_blob = λ s s' name digest content h.
      let (same, e) = get-put_blob_lem s.0 s.1 s' name digest content h in
      subst (λ (b : Blobs). proper digest (b name digest) ≡ some content) (sym e)
        (rw (self name, self digest, same) refl);
  get-put_blob_other = λ s s' name digest content other kept h held same.
      let (_, e) = get-put_blob_lem s.0 s.1 s' name digest content h in
      subst (λ (b : Blobs). proper other (b name other) ≡ some kept) (sym e)
        (put_other s.0 name digest content other kept held same);
  get-put_manifest = λ s s' name tag m h.
      let e : (s.0, put s.1 name tag (some m)) ≡ s' = cc (h) in
      subst (λ (r : registry.State). r.1 name tag ≡ some m) e (rw (self name, self tag) refl);
  get_blob-put_manifest = λ s s' name tag digest m h.
      let e : (s.0, put s.1 name tag (some m)) ≡ s' = cc (h) in
      ap (λ (r : registry.State). proper digest (r.0 name digest)) (sym e);
  digest_injective = λ a b same. same;
}

abbrev empty : registry.State
empty = (λ name digest. none, λ name tag. none)

-- The registry after the push.
abbrev pushed : registry.State
pushed = (
  put (put empty.0 (codes "tet") (7 ∷ 8 ∷ []) (some (7 ∷ 8 ∷ []))) (codes "tet") (codes "{}")
      (some (codes "{}")),
  put empty.1 (codes "tet") (codes "v1") (some (state_manifest registry libraries (7 ∷ 8 ∷ []))),
)

pull_state-push_state_example :
    pull_state registry libraries pushed (codes "tet:v1") ≡ some (snapshot (7 ∷ 8 ∷ []))
unfolding push_state upload_all split_once
pull_state-push_state_example =
    pull_state-push_state registry libraries keeps empty pushed (snapshot (7 ∷ 8 ∷ []))
      (codes "tet:v1") [] refl
