-- ===== src/Fortress/Tests.antt =====
-- One tenant with a limit of 10 bytes, and an identity with a stand-in for hashing.
use trytet.Prelude.{
  ℕ, zero, suc, ◌%◌, ◌*◌, ◌≡◌, ◌<◌, ◌≢◌, ◌↔◌, refl, arith, List, [], ◌∷◌, length, replicate,
  length-replicate, bytes_eq, take, some, none,
}
use trytet.Prelude.HashMap
use trytet.Fortress.{new, check_and_record, saturating_add, Identities, IsBytes, tenant_id}
use trytet.Fortress.Metering.{Event, requests, serve, Exact, serve-Exact}
use trytet.Fortress.Identity.{tenant_id-separates}

abbrev tenant : List ℕ
tenant = 1 ∷ []

abbrev limit_of : List ℕ → ℕ
limit_of t = 10

abbrev events : List Event
events = requests tenant 6 ∷ requests tenant 6 ∷ requests tenant 4 ∷ []

second_request_refused : (serve limit_of new [] events).1 ≡ (tenant, 4) ∷ (tenant, 6) ∷ []
unfolding serve check_and_record saturating_add new HashMap.lookup HashMap.insert HashMap.or_insert
second_request_refused = refl

serve-Exact_example : Exact limit_of (serve limit_of new [] events)
serve-Exact_example = serve-Exact limit_of events (λ t. omega arith)

-- Each digit twice.
double : List ℕ → List ℕ
double [] = []
double (b ∷ bytes) = b ∷ b ∷ double bytes

length-double : (bytes : List ℕ) → length (double bytes) ≡ 2 * length bytes
unfolding double
length-double [] = refl
length-double (b ∷ bytes) = omega (arith, length-double bytes)

double_injective : (a b : List ℕ) → double a ≡ double b → a ≡ b
unfolding double
double_injective [] [] h = refl
double_injective [] (y ∷ ys) h = cc
double_injective (x ∷ xs) [] h = cc
double_injective (x ∷ xs) (y ∷ ys) h = ground (arith, double_injective xs ys)

abbrev first_byte : List ℕ → ℕ
first_byte [] = 0
first_byte (b ∷ bytes) = b

replicate-IsBytes : (n b : ℕ) → b < 256 → IsBytes (replicate n b)
replicate-IsBytes zero b h = tt
replicate-IsBytes (suc n) b h = (h, replicate-IsBytes n b h)

abbrev identities : Identities
identities = record {
  sha256 = λ bytes. replicate 32 (first_byte bytes % 256);
  length-sha256 = λ bytes. length-replicate 32 (first_byte bytes % 256);
  sha256-IsBytes = λ bytes. replicate-IsBytes 32 (first_byte bytes % 256) (omega arith);
  encode = double;
  length-encode = length-double;
  encode_injective = λ a b ha hb same. double_injective a b same;
  sign_bytes = λ bytes. replicate 64 0;
  length-sign_bytes = λ bytes. length-replicate {A = ℕ} 64 0;
}

tenant_id-separates_example :
    ((tenant_id identities (some (7 ∷ [])) ≡ tenant_id identities (some (8 ∷ [])))
      ↔ (take 8 (identities.sha256 (7 ∷ [])) ≡ take 8 (identities.sha256 (8 ∷ []))))
    × (tenant_id identities (some (7 ∷ [])) ≢ tenant_id identities none)
tenant_id-separates_example = tenant_id-separates identities (7 ∷ []) (8 ∷ []) refl refl
