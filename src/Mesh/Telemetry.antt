-- ===== src/Mesh/Telemetry.antt =====
-- src/mesh.rs: the counters of the edge between two tets.
use trytet.Prelude.{
  ℕ, ◌+◌, ◌^◌, ◌≡◌, ◌<◌, ◌≤◌, refl, ap, arith, Option, none, some, List, [], ◌∷◌, if◌then◌else◌,
  bytes_eq, bytes_beq_iff, Bool-cases, inl, inr, ◌==◌,
}
use trytet.Prelude.HashMap
use trytet.Mesh.{
  TopologyEdge, TetMesh, new, Call, edge_key, new_edge, update_edge, or_new, record_telemetry,
}

-- The mesh after the calls, in the order in which they were reported.
unfoldable pub observe : TetMesh → List Call → TetMesh
observe m [] = m
observe m (c ∷ calls) = observe (record_telemetry m c) calls

abbrev pub one : Call → ℕ
one c = 1

abbrev pub one_error : Call → ℕ
one_error c = if c.is_error then 1 else 0

-- The sum of a measure over the calls of an edge.
unfoldable pub sum_of : (Call → ℕ) → List ℕ → List Call → ℕ
sum_of measure key [] = 0
sum_of measure key (c ∷ calls) =
    (if edge_key c.source c.target == key then measure c else 0) + sum_of measure key calls

abbrev pub read : (TopologyEdge → ℕ) → Option TopologyEdge → ℕ
read field none = 0
read field (some e) = field e

-- A counter: a field that starts at 0 and grows with each call by a measure of it.
record Counter (field : TopologyEdge → ℕ) (measure : Call → ℕ) : Type 0 where
  starts : (c : Call) → field (new_edge c) ≡ 0
  grows :
      (c : Call) (e : TopologyEdge)
      → field e + measure c < 2 ^ 64
      → field (update_edge c e) ≡ field e + measure c

module _ (field : TopologyEdge → ℕ) (measure : Call → ℕ) (counter : Counter field measure) where
  read-or_new : (c : Call) (o : Option TopologyEdge) → field (or_new c o) ≡ read field o
  read-or_new c none = counter.starts c
  read-or_new c (some e) = refl

  read-record_telemetry :
      (m : TetMesh) (c : Call) (key : List ℕ)
      → let share = if edge_key c.source c.target == key then measure c else 0 in
        read field (HashMap.lookup key m.topology) + share < 2 ^ 64
        → read field (HashMap.lookup key (record_telemetry m c).topology)
          ≡ read field (HashMap.lookup key m.topology) + share
  unfolding record_telemetry
  read-record_telemetry m c key small =
      let k = edge_key c.source c.target in
      let e = or_new c (HashMap.lookup k m.topology) in
      let put = HashMap.lookup-insert k key (update_edge c e) m.topology in
      let old = read-or_new c (HashMap.lookup k m.topology) in
      elim (Bool-cases (k == key)) [
        | inl same ↦
            let at_key = (bytes_beq_iff k key).0 same in
            let entry = ap (λ x. read field (HashMap.lookup x m.topology)) at_key in
            let fits = rw same at small in
            rw (put, same) (omega (arith, counter.grows c e (omega arith)))
        | inr other ↦ rw (put, other) (omega arith)
      ]

  read-observe :
      (m : TetMesh) (calls : List Call) (key : List ℕ)
      → read field (HashMap.lookup key m.topology) + sum_of measure key calls < 2 ^ 64
      → read field (HashMap.lookup key (observe m calls).topology)
        ≡ read field (HashMap.lookup key m.topology) + sum_of measure key calls
  unfolding observe sum_of
  read-observe m [] key small = omega arith
  read-observe m (c ∷ calls) key small =
      let first = read-record_telemetry m c key (omega arith) in
      let rest = read-observe (record_telemetry m c) calls key (omega arith) in omega arith

  read-observe-new :
      (calls : List Call) (key : List ℕ)
      → sum_of measure key calls < 2 ^ 64
      → read field (HashMap.lookup key (observe new calls).topology) ≡ sum_of measure key calls
  unfolding new HashMap.lookup
  read-observe-new calls key small = omega (arith, read-observe new calls key (omega arith))

calls-Counter : Counter (λ e. e.call_count) one
unfolding new_edge update_edge
calls-Counter = record { starts = λ c. refl; grows = λ c e small. ground arith }

errors-Counter : Counter (λ e. e.error_count) one_error
unfolding new_edge update_edge
errors-Counter = record { starts = λ c. refl; grows = λ c e small. ground arith }

bytes-Counter : Counter (λ e. e.total_bytes) (λ c. c.bytes)
unfolding new_edge update_edge
bytes-Counter = record { starts = λ c. refl; grows = λ c e small. ground arith }

latency-Counter : Counter (λ e. e.total_latency_us) (λ c. c.latency_us)
unfolding new_edge update_edge
latency-Counter = record { starts = λ c. refl; grows = λ c e small. ground arith }

-- No more calls failed than were made.
sum_of-errors :
    (key : List ℕ) (calls : List Call) → sum_of one_error key calls ≤ sum_of one key calls
unfolding sum_of
sum_of-errors key [] = omega arith
sum_of-errors key (c ∷ calls) = ground (arith, sum_of-errors key calls)

-- What the topology holds under a key, of the calls that were reported for it.
pub record Counted (key : List ℕ) (calls : List Call) (o : Option TopologyEdge) : Type 0 where
  call_count : read (λ e. e.call_count) o ≡ sum_of one key calls
  error_count : read (λ e. e.error_count) o ≡ sum_of one_error key calls
  total_bytes : read (λ e. e.total_bytes) o ≡ sum_of (λ c. c.bytes) key calls
  total_latency_us : read (λ e. e.total_latency_us) o ≡ sum_of (λ c. c.latency_us) key calls
  errors_within : read (λ e. e.error_count) o ≤ read (λ e. e.call_count) o

-- After any calls from the empty mesh, the edge of a key counts the calls, the failed calls, the
-- bytes and the latency that were reported under that key, exactly, as long as the number of calls,
-- the bytes and the latency fit a `u64`; so no edge has more errors than calls.
pub observe-Counted :
    (calls : List Call) (key : List ℕ)
    → sum_of one key calls < 2 ^ 64
    → sum_of (λ c. c.bytes) key calls < 2 ^ 64
    → sum_of (λ c. c.latency_us) key calls < 2 ^ 64
    → Counted key calls (HashMap.lookup key (observe new calls).topology)
observe-Counted calls key few few_bytes fast =
    let errors = sum_of-errors key calls in
    let made = read-observe-new (λ e. e.call_count) one calls-Counter calls key few in
    let failed =
      read-observe-new (λ e. e.error_count) one_error errors-Counter calls key (omega arith) in
    record {
      call_count = made;
      error_count = failed;
      total_bytes =
          read-observe-new (λ e. e.total_bytes) (λ c. c.bytes) bytes-Counter calls key few_bytes;
      total_latency_us =
          read-observe-new (λ e. e.total_latency_us) (λ c. c.latency_us) latency-Counter calls key
            fast;
      errors_within = omega arith;
    }
