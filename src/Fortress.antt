-- ===== src/Fortress.antt =====
-- src/fortress.rs: the quotas on the bandwidth of tenants, the names of tenants, and the identity
-- headers of outbound requests. `check_and_record` keeps its guard on the tenant's entry from its
-- first line to its last, and so it is one step. Hashing, signing and hexadecimal texts are
-- parameters.
pub mod Metering
pub mod Identity
pub mod Tests
use trytet.Prelude.{
  ℕ, ◌+◌, ◌-◌, ◌%◌, ◌^◌, ◌≡◌, ◌*◌, min, Option, none, some, List, [], ◌∷◌, ◌++◌, map, ltb, not,
  ◌==◌, ◌&&◌, bytes_eq, if◌then◌else◌, get_or_zero, length, take, codes, All, ◌<◌,
}
use trytet.Prelude.HashMap
use trytet.Prelude.HashMap.{HashMap}

abbrev pub u64_max : ℕ
u64_max = 2 ^ 64 - 1

unfoldable pub saturating_add : ℕ → ℕ → ℕ
saturating_add a b = min (a + b) u64_max

pub record QuotaExceeded : Type 0 where
  pub tenant : List ℕ
  pub requested : ℕ
  pub current : ℕ
  pub limit : ℕ

pub data Check : Type 0 where
  ok : Check
  err : QuotaExceeded → Check

pub record QuotaManager : Type 0 where
  pub usage : HashMap (List ℕ) ℕ

unfoldable pub new : QuotaManager
new = record { usage = [] }

unfoldable pub get_usage : QuotaManager → List ℕ → ℕ
get_usage q tenant = get_or_zero (HashMap.lookup tenant q.usage)

unfoldable pub check_and_record : QuotaManager → List ℕ → ℕ → ℕ → Check × QuotaManager
unfolding saturating_add
check_and_record q tenant bytes limit =
    let entries = HashMap.or_insert tenant 0 q.usage in
    let current = HashMap.value_of tenant entries in
    if ltb limit (saturating_add current bytes)
    then (
      err (record { tenant = tenant; requested = bytes; current = current; limit = limit }),
      record { usage = entries },
    )
    else (ok, record { usage = HashMap.insert tenant ((current + bytes) % 2 ^ 64) entries })

unfoldable pub zero_all : HashMap (List ℕ) ℕ → HashMap (List ℕ) ℕ
zero_all [] = []
zero_all ((tenant, n) ∷ m) = (tenant, 0) ∷ zero_all m

unfoldable pub reset_all : QuotaManager → QuotaManager
unfolding zero_all
reset_all q = record { usage = zero_all q.usage }

abbrev pub IsBytes : List ℕ → Type 0
IsBytes = All (λ b. b < 256)

-- What the code uses of sha2, hex and the node's wallet.
pub record Identities : Type 0 where
  pub sha256 : List ℕ → List ℕ
  pub length-sha256 : (bytes : List ℕ) → length (sha256 bytes) ≡ 32
  pub sha256-IsBytes : (bytes : List ℕ) → IsBytes (sha256 bytes)
  pub encode : List ℕ → List ℕ
  pub length-encode : (bytes : List ℕ) → length (encode bytes) ≡ 2 * length bytes
  pub encode_injective : (a b : List ℕ) → IsBytes a → IsBytes b → encode a ≡ encode b → a ≡ b
  pub sign_bytes : List ℕ → List ℕ
  pub length-sign_bytes : (bytes : List ℕ) → length (sign_bytes bytes) ≡ 64

module _ (identities : Identities) where
  open identities use {sha256, encode, sign_bytes}

  unfoldable pub tenant_id : Option (List ℕ) → List ℕ
  tenant_id none = codes "anonymous"
  tenant_id (some pk) =
      if not (pk == []) && not (pk == codes "UNKNOWN")
      then encode (take 8 (sha256 pk))
      else codes "anonymous"

  -- `IdentityHeaders::inject`, as pairs of name and value.
  unfoldable pub inject : List ℕ → List ℕ → List ℕ → List ℕ → List ℕ → List (List ℕ × List ℕ)
  inject tet_id author_pubkey method url body =
      let sign_payload = method ++ (codes "|" ++ (url ++ (codes "|" ++ body))) in
      (codes "X-Trytet-Agent-ID", tet_id)
      ∷ (codes "X-Trytet-Tenant", author_pubkey)
      ∷ (codes "X-Trytet-Signature", encode (sign_bytes sign_payload))
      ∷ []

unfoldable pub header_overhead : List ℕ → List ℕ → ℕ
header_overhead tet_id author_pubkey =
    let names_len =
      length (codes "X-Trytet-Agent-ID")
      + length (codes "X-Trytet-Tenant")
      + length (codes "X-Trytet-Signature") in
    let values_len = length tet_id + length author_pubkey + 128 in names_len + values_len + 18
