-- ===== src/Auth.antt =====
-- src/auth.rs: the API keys and the middleware that asks for one. SHA-256 and hexadecimal digits are
-- parameters, and so is the reading of a header's value as text; the fresh UUID and the clock are
-- arguments, as is the order in which `revoke` visits its map. Each operation on the maps is one step.
pub mod Ledger
pub mod Revocation
pub mod Access
pub mod Tests
use trytet.Prelude.{
  ℕ, ◌+◌, ◌%◌, ◌^◌, Bool, true, false, ◌&&◌, ◌||◌, Option, none, some, List, [], ◌∷◌, ◌++◌, ◌==◌,
  bytes_eq, nat_beq, codes, drop, take, if◌then◌else◌, starts_with, get_or_zero,
}
use trytet.Prelude.HashMap
use trytet.Prelude.HashMap.{HashMap}

pub record ApiKey : Type 0 where
  pub prefix : List ℕ
  pub hash : List ℕ
  pub label : List ℕ
  pub created : ℕ
  pub active : Bool

pub record KeyStore : Type 0 where
  pub keys : HashMap (List ℕ) ApiKey
  pub usage : HashMap (List ℕ) ℕ

-- `hex::encode` of the SHA-256 of a text, and `HeaderValue::to_str`.
pub record Library : Type 0 where
  pub digest : List ℕ → List ℕ
  pub to_str : List ℕ → Option (List ℕ)

unfoldable pub new : KeyStore
new = record { keys = []; usage = [] }

-- `ApiKey::new`: the record and the raw key.
unfoldable pub new_key : Library → List ℕ → List ℕ → ℕ → ApiKey × List ℕ
new_key library label uuid now =
    let raw = codes "tet_" ++ uuid in
    (
      record {
        prefix = take 12 raw;
        hash = library.digest raw;
        label = label;
        created = now;
        active = true;
      },
      raw,
    )

unfoldable pub any_active : HashMap (List ℕ) ApiKey → Bool
any_active [] = false
any_active ((hash, key) ∷ keys) = key.active || any_active keys

unfoldable pub has_keys : KeyStore → Bool
unfolding any_active
has_keys s = any_active s.keys

unfoldable pub create_key : Library → KeyStore → List ℕ → List ℕ → ℕ → List ℕ × KeyStore
unfolding new_key
create_key library s label uuid now =
    let (key, raw) = new_key library label uuid now in
    (
      raw,
      record {
        keys = HashMap.insert key.hash key s.keys;
        usage = HashMap.insert key.prefix 0 s.usage;
      },
    )

-- `entry(hash).or_default().fetch_add(1)`
unfoldable pub count_use : List ℕ → HashMap (List ℕ) ℕ → HashMap (List ℕ) ℕ
count_use hash usage =
    HashMap.insert hash ((get_or_zero (HashMap.lookup hash usage) + 1) % 2 ^ 64) usage

abbrev pub is_active : Option ApiKey → Bool
is_active none = false
is_active (some key) = key.active

unfoldable pub validate : Library → KeyStore → List ℕ → Option (List ℕ) × KeyStore
unfolding count_use
validate library s raw =
    let hash = library.digest raw in
    if is_active (HashMap.lookup hash s.keys)
    then (some hash, record s { usage = count_use hash s.usage })
    else (none, s)

-- The search of `revoke`: `order` has the hashes in the order in which the concurrent map is visited,
-- which is that of its own hashing. The first active record with the prefix is revoked.
unfoldable pub revoke_in :
    List (List ℕ) → List ℕ → HashMap (List ℕ) ApiKey → Bool × HashMap (List ℕ) ApiKey
revoke_in [] prefix keys = (false, keys)
revoke_in (hash ∷ order) prefix keys =
    let rest = revoke_in order prefix keys in
    elim (HashMap.lookup hash keys) [
      | none ↦ rest
      | some key ↦
          if key.prefix == prefix && key.active
          then (true, HashMap.insert hash (record key { active = false }) keys)
          else rest
    ]

unfoldable pub revoke : List (List ℕ) → KeyStore → List ℕ → Bool × KeyStore
unfolding revoke_in
revoke order s prefix =
    let (found, keys) = revoke_in order prefix s.keys in (found, record s { keys = keys })

unfoldable pub list_keys : HashMap (List ℕ) ApiKey → HashMap (List ℕ) ℕ → List (List ℕ × ℕ × List ℕ)
list_keys [] usage = []
list_keys ((hash, key) ∷ keys) usage =
    let rest = list_keys keys usage in
    if key.active
    then (key.prefix, get_or_zero (HashMap.lookup hash usage), key.label) ∷ rest
    else rest

unfoldable pub list : KeyStore → List (List ℕ × ℕ × List ℕ)
unfolding list_keys
list s = list_keys s.keys s.usage

-- `trim` of the text of a header, whose only white space is the blank and the tab.
unfoldable pub trim_start : List ℕ → List ℕ
trim_start [] = []
trim_start (c ∷ text) = if nat_beq c 32 || nat_beq c 9 then trim_start text else c ∷ text

unfoldable pub trim_end : List ℕ → List ℕ
trim_end [] = []
trim_end (c ∷ text) = elim (trim_end text) [
  | [] ↦ if nat_beq c 32 || nat_beq c 9 then [] else c ∷ []
  | d ∷ rest ↦ c ∷ d ∷ rest
]

abbrev pub non_empty : List ℕ → Option (List ℕ)
non_empty [] = none
non_empty (c ∷ text) = some (c ∷ text)

unfoldable pub trimmed : List ℕ → Option (List ℕ)
unfolding trim_start trim_end
trimmed text = non_empty (trim_end (trim_start text))

-- Header names are in lower case, as the library keeps them.
abbrev pub Headers : Type 0
Headers = HashMap (List ℕ) (List ℕ)

unfoldable pub header_text : Library → Headers → List ℕ → Option (List ℕ)
header_text library headers name = elim (HashMap.lookup name headers) [
  | none ↦ none
  | some value ↦ library.to_str value
]

unfoldable pub x_api_key : Library → Headers → Option (List ℕ)
unfolding header_text trimmed
x_api_key library headers = elim (header_text library headers (codes "x-api-key")) [
  | none ↦ none
  | some text ↦ trimmed text
]

unfoldable pub bearer : Library → Headers → Option (List ℕ)
unfolding header_text trimmed
bearer library headers = elim (header_text library headers (codes "authorization")) [
  | none ↦ none
  | some text ↦ if starts_with text (codes "Bearer ") then trimmed (drop 7 text) else none
]

unfoldable pub extract_api_key : Library → Headers → Option (List ℕ)
unfolding x_api_key bearer
extract_api_key library headers = elim (x_api_key library headers) [
  | some key ↦ some key
  | none ↦ bearer library headers
]

pub data Verdict : Type 0 where
  passes unauthorized : Verdict

unfoldable pub verdict : Option (List ℕ) × KeyStore → Verdict × KeyStore
verdict (none, s) = (unauthorized, s)
verdict (some hash, s) = (passes, s)

unfoldable pub require_api_key : Library → KeyStore → Headers → Verdict × KeyStore
unfolding has_keys extract_api_key validate verdict
require_api_key library s headers =
    if has_keys s
    then (elim (extract_api_key library headers) [
      | none ↦ (unauthorized, s)
      | some key ↦ verdict (validate library s key)
    ])
    else (passes, s)
