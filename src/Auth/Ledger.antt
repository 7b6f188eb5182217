-- ===== src/Auth/Ledger.antt =====
-- The ledger of the API keys that were issued, which the key store of src/auth.rs is held against.
use trytet.Prelude.{
  ℕ, ◌≡◌, refl, Bool, true, false, ◌||◌, Option, none, some, List, [], ◌∷◌, ◌++◌, ◌==◌, bytes_eq,
  codes, take, map, ap, ◌⊎◌, if◌then◌else◌, Bool-cases, inl, inr,
}
use trytet.Auth.{Headers, Verdict, passes, unauthorized}

pub data Event : Type 0 where
  create : List ℕ → List ℕ → ℕ → Event
  revoke_prefix : List (List ℕ) → List ℕ → Event
  request : Headers → Event

-- The raw keys in the order in which they were issued, each with whether it still counts.
abbrev pub Ledger : Type 0
Ledger = List (List ℕ × Bool)

unfoldable pub issue : List ℕ → Ledger → Ledger
issue raw l = l ++ (raw, true) ∷ []

-- A key is withdrawn.
unfoldable pub withdraw : List ℕ → Ledger → Ledger
withdraw raw [] = []
withdraw raw ((other, live) ∷ l) =
    let rest = withdraw raw l in if other == raw then (other, false) ∷ l else (other, live) ∷ rest

unfoldable pub is_live : List ℕ → Ledger → Bool
is_live raw [] = false
is_live raw ((other, live) ∷ l) = if other == raw then live else is_live raw l

unfoldable pub any_live : Ledger → Bool
any_live [] = false
any_live ((raw, live) ∷ l) = live || any_live l

unfoldable pub raw_key : List ℕ → List ℕ
raw_key uuid = codes "tet_" ++ uuid

-- A revocation withdraws one live key with the prefix, whichever; or there is none, and it does
-- nothing.
abbrev pub Revokes : List ℕ → Ledger → Ledger → Type 0
Revokes prefix l l' =
    ((raw : List ℕ) × ((take 12 raw == prefix) ≡ true)
      × (is_live raw l ≡ true)
      × (l' ≡ withdraw raw l))
    ⊎ (((raw : List ℕ) → (take 12 raw == prefix) ≡ true → is_live raw l ≡ false) × (l' ≡ l))

-- The ledgers that a history may lead to.
abbrev pub Leads : Ledger → List Event → Ledger → Type 0
Leads l [] last = last ≡ l
Leads l (create label uuid now ∷ events) last = Leads (issue (raw_key uuid) l) events last
Leads l (revoke_prefix order prefix ∷ events) last =
    (l' : Ledger) × Revokes prefix l l' × Leads l' events last
Leads l (request headers ∷ events) last = Leads l events last

abbrev pub raws : Ledger → List (List ℕ)
raws l = map (λ entry. entry.0) l

pub raws-withdraw : (raw : List ℕ) (l : Ledger) → raws (withdraw raw l) ≡ raws l
unfolding withdraw
raws-withdraw raw [] = refl
raws-withdraw raw ((other, live) ∷ l) = elim (Bool-cases (other == raw)) [
  | inl here ↦ rw here refl
  | inr there ↦ rw there (ap (λ rest. other ∷ rest) (raws-withdraw raw l))
]

pub raws-issue : (raw : List ℕ) (l : Ledger) → raws (issue raw l) ≡ raws l ++ raw ∷ []
unfolding issue
raws-issue raw [] = refl
raws-issue raw ((other, live) ∷ l) = ap (λ rest. other ∷ rest) (raws-issue raw l)

-- A request is served by the ledger: with no live key at all, or with a live key of its own.
unfoldable pub serves : Ledger → Option (List ℕ) → Verdict
unfolding any_live is_live
serves l none = if any_live l then unauthorized else passes
serves l (some key) =
    if any_live l then (if is_live key l then passes else unauthorized) else passes
