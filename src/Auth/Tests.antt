-- ===== src/Auth/Tests.antt =====
-- Witnesses and tests of the API keys, with the text itself for its digest.
use trytet.Prelude.{◌≡◌, refl, some, List, [], ◌∷◌, codes}
use trytet.Auth.{
  Library, Headers, new, passes, unauthorized, create_key, revoke, require_api_key, extract_api_key,
}
use trytet.Auth.Ledger.{Event, Ledger, create, revoke_prefix, request, Leads, serves}
use trytet.Auth.Access.{run, require_api_key-serves}

abbrev library : Library
library = record { digest = λ text. text; to_str = λ value. some value }

abbrev headers : Headers
headers = (codes "authorization", codes "Bearer tet_2222abcd-1") ∷ []

-- Two keys with one prefix, of which the map visits the newer first.
abbrev events : List Event
events =
    create (codes "one") (codes "2222abcd-1") 5
    ∷ create (codes "two") (codes "2222abcd-2") 6
    ∷ revoke_prefix (codes "tet_2222abcd-2" ∷ codes "tet_2222abcd-1" ∷ []) (codes "tet_2222abcd")
    ∷ request headers
    ∷ []

require_api_key-serves_example :
    (last : Ledger) × Leads [] events last
    × ((headers : Headers)
        → (require_api_key library (run library (λ a b same. same) new events) headers).0
          ≡ serves last (extract_api_key library headers))
unfolding trytet.Prelude.contains trytet.Auth.Ledger.raw_key
require_api_key-serves_example =
    require_api_key-serves library (λ a b same. same) events
      (refl, (refl, ((refl, (refl, tt)), tt)))

-- The older one still counts, and the newer does not.
newer_revoked :
    ((require_api_key library (run library (λ a b same. same) new events) headers).0 ≡ passes)
    × ((require_api_key library
          (run library (λ a b same. same) new events)
          ((codes "x-api-key", codes "tet_2222abcd-2") ∷ [])).0
        ≡ unauthorized)
unfolding require_api_key run new create_key revoke trytet.Prelude.HashMap.lookup
    trytet.Prelude.HashMap.insert trytet.Prelude.starts_with
newer_revoked = (refl, refl)
