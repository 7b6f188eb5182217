-- ===== src/Fortress/Metering.antt =====
-- src/fortress.rs: what `QuotaManager` counts, over any history of requests and resets.
use trytet.Prelude.{
  ℕ, ◌+◌, ◌%◌, ◌^◌, ◌≡◌, ◌∙◌, ◌≤◌, ◌<◌, refl, arith, List, [], ◌∷◌, ltb, ◌==◌, bytes_eq,
  bytes_beq_iff, if◌then◌else◌, Bool-cases, inl, inr,
}
use trytet.Prelude.HashMap
use trytet.Prelude.HashMap.{HashMap}
use trytet.Fortress.{
  u64_max, saturating_add, Check, ok, err, QuotaManager, new, get_usage, check_and_record, zero_all,
  reset_all,
}

abbrev share : List ℕ → ℕ → List ℕ → ℕ
share tenant bytes j = if tenant == j then bytes else 0

-- A request is counted in full or not at all.
abbrev Metered : QuotaManager → List ℕ → ℕ → ℕ → Check × QuotaManager → Type 0
Metered q tenant bytes limit (ok, q') =
    (get_usage q tenant + bytes ≤ limit)
    × ((j : List ℕ) → get_usage q' j ≡ get_usage q j + share tenant bytes j)
Metered q tenant bytes limit (err e, q') =
    (limit < get_usage q tenant + bytes)
    × (e ≡ record {
      tenant = tenant;
      requested = bytes;
      current = get_usage q tenant;
      limit = limit;
    })
    × ((j : List ℕ) → get_usage q' j ≡ get_usage q j)

-- With a limit below the largest `u64`, a request is allowed only if the tenant's count stays within
-- the limit, and then exactly its bytes are added to that tenant's count; otherwise the error names
-- the count, and no tenant's count changes.
check_and_record-Metered :
    (q : QuotaManager) (tenant : List ℕ) (bytes limit : ℕ)
    → limit < u64_max
    → Metered q tenant bytes limit (check_and_record q tenant bytes limit)
unfolding check_and_record saturating_add get_usage
check_and_record-Metered q tenant bytes limit small =
    let entries = HashMap.or_insert tenant 0 q.usage in
    let current = HashMap.value_of tenant entries in
    let old = HashMap.value_of-or_insert_zero tenant tenant q.usage in
    elim (Bool-cases (ltb limit (saturating_add current bytes))) [
      | inl over ↦
          rw over
            (ground arith, rw old refl, (λ j. HashMap.value_of-or_insert_zero tenant j q.usage))
      | inr within ↦ rw within (
        ground arith,
        (λ j.
            let same = HashMap.value_of-or_insert_zero tenant j q.usage in
            let put = HashMap.value_of-insert tenant j ((current + bytes) % 2 ^ 64) entries in
            ground (arith, bytes_beq_iff tenant j)),
      )
    ]

-- What the node does to its quotas.
pub data Event : Type 0 where
  requests : List ℕ → ℕ → Event
  resets : Event

abbrev allow : List ℕ → ℕ → Check → List (List ℕ × ℕ) → List (List ℕ × ℕ)
allow tenant bytes ok log = (tenant, bytes) ∷ log
allow tenant bytes (err e) log = log

-- Requests and resets in order; with the manager, the requests allowed since the last reset.
unfoldable pub serve :
    (List ℕ → ℕ) → QuotaManager → List (List ℕ × ℕ) → List Event → QuotaManager × List (List ℕ × ℕ)
serve limit_of q log [] = (q, log)
serve limit_of q log (requests tenant bytes ∷ events) =
    let (result, q') = check_and_record q tenant bytes (limit_of tenant) in
    serve limit_of q' (allow tenant bytes result log) events
serve limit_of q log (resets ∷ events) = serve limit_of (reset_all q) [] events

pub spent : List ℕ → List (List ℕ × ℕ) → ℕ
spent j [] = 0
spent j ((tenant, bytes) ∷ log) = share tenant bytes j + spent j log

abbrev pub Exact : (List ℕ → ℕ) → QuotaManager × List (List ℕ × ℕ) → Type 0
Exact limit_of (q, log) = (j : List ℕ) → (get_usage q j ≡ spent j log) × (spent j log ≤ limit_of j)

value_of-zero_all : (j : List ℕ) (m : HashMap (List ℕ) ℕ) → HashMap.value_of j (zero_all m) ≡ 0
unfolding zero_all HashMap.lookup
value_of-zero_all j [] = refl
value_of-zero_all j ((tenant, n) ∷ m) = ground (arith, value_of-zero_all j m)

get_usage-reset_all : (q : QuotaManager) (j : List ℕ) → get_usage (reset_all q) j ≡ 0
unfolding get_usage reset_all
get_usage-reset_all q j = value_of-zero_all j q.usage

Exact-request :
    (limit_of : List ℕ → ℕ) (q : QuotaManager) (log : List (List ℕ × ℕ))
    → (tenant : List ℕ) (bytes : ℕ) (r : Check × QuotaManager)
    → Metered q tenant bytes (limit_of tenant) r
    → Exact limit_of (q, log)
    → Exact limit_of (r.1, allow tenant bytes r.0 log)
unfolding spent
Exact-request limit_of q log tenant bytes (ok, q') m h j =
    ground (arith, m.0, m.1 j, h j, h tenant, bytes_beq_iff tenant j)
Exact-request limit_of q log tenant bytes (err e, q') m h j = ground (arith, m.2 j, h j)

serve-Exact_from :
    (limit_of : List ℕ → ℕ)
    → ((tenant : List ℕ) → limit_of tenant < u64_max)
    → (q : QuotaManager) (log : List (List ℕ × ℕ)) (events : List Event) → Exact limit_of (q, log)
    → Exact limit_of (serve limit_of q log events)
unfolding serve spent
serve-Exact_from limit_of small q log [] h = h
serve-Exact_from limit_of small q log (requests tenant bytes ∷ events) h =
    let r = check_and_record q tenant bytes (limit_of tenant) in
    serve-Exact_from limit_of small r.1 (allow tenant bytes r.0 log) events (
      Exact-request limit_of q log tenant bytes r
        (check_and_record-Metered q tenant bytes (limit_of tenant) (small tenant)) h)
serve-Exact_from limit_of small q log (resets ∷ events) h =
    serve-Exact_from limit_of small (reset_all q) [] events
      (λ j. (get_usage-reset_all q j ∙ refl, omega arith))

-- Over any history of requests and resets, where each tenant has a limit below the largest `u64`,
-- the count of a tenant is the sum of the bytes of its requests that were allowed since the last
-- reset, and that is never above the tenant's limit.
pub serve-Exact :
    (limit_of : List ℕ → ℕ) (events : List Event)
    → ((tenant : List ℕ) → limit_of tenant < u64_max)
    → Exact limit_of (serve limit_of new [] events)
unfolding new get_usage HashMap.lookup spent
serve-Exact limit_of events small =
    serve-Exact_from limit_of small new [] events (λ j. (refl, omega arith))
