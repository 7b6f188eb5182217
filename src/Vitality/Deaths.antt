-- ===== src/Vitality/Deaths.antt =====
-- src/network/vitality.rs: each death is noticed, and it is reported once.
use trytet.Prelude.{
  ℕ, ◌+◌, ◌-◌, ◌≡◌, ◌≢◌, ◌≤◌, refl, sym, ap, ◌∙◌, arith, Bool, true, false, ◌||◌, Option, none,
  some, List, [], ◌∷◌, ◌++◌, ltb, leb, if◌then◌else◌, bytes_eq, bytes_beq_iff, contains,
  contains-append,
}
use trytet.Prelude.HashMap
use trytet.Prelude.HashMap.{HashMap, IsMap, IsMap-insert}
use trytet.Vitality.{
  NodeStatus, active, suspect, dead, Heartbeat, VitalityManager, new, record_heartbeat, is_active,
  is_suspect, visit, visit_all, calculate_unresponsive,
}

-- The status of a node that was last heard `elapsed` microseconds ago.
abbrev pub status_after : ℕ → NodeStatus → NodeStatus
status_after elapsed active =
    if ltb elapsed 5000000 then active else if ltb elapsed 15000000 then suspect else dead
status_after elapsed suspect = if ltb elapsed 15000000 then suspect else dead
status_after elapsed dead = dead

abbrev pub after : ℕ → Option (ℕ × NodeStatus) → Option (ℕ × NodeStatus)
after now none = none
after now (some (seen, status)) = some (seen, status_after (now - seen) status)

abbrev is_dead : NodeStatus → Bool
is_dead dead = true
is_dead _ = false

-- Whether a pass at `now` reports the node.
abbrev pub dies : ℕ → Option (ℕ × NodeStatus) → Bool
dies now none = false
dies now (some (seen, dead)) = false
dies now (some (seen, _)) = leb 15000000 (now - seen)

visit-Judged :
    (now seen : ℕ) (status : NodeStatus)
    → visit now (seen, status)
      ≡ (dies now (some (seen, status)), (seen, status_after (now - seen) status))
unfolding visit is_active is_suspect
visit-Judged now seen active = ground arith
visit-Judged now seen suspect = ground arith
visit-Judged now seen dead = ground arith

contains-visit_all :
    (now : ℕ) (k : List ℕ) (nodes : HashMap (List ℕ) (ℕ × NodeStatus))
    → contains k (HashMap.keys nodes) ≡ false
    → contains k (visit_all now nodes).0 ≡ false
unfolding visit_all contains
contains-visit_all now k [] h = refl
contains-visit_all now k ((j, entry) ∷ nodes) h = ground (arith, contains-visit_all now k nodes)

keys-visit_all :
    (now : ℕ) (nodes : HashMap (List ℕ) (ℕ × NodeStatus))
    → HashMap.keys (visit_all now nodes).1 ≡ HashMap.keys nodes
unfolding visit_all
keys-visit_all now [] = refl
keys-visit_all now ((j, entry) ∷ nodes) = ap (λ ks. j ∷ ks) (keys-visit_all now nodes)

visit_all-Judged :
    (now : ℕ) (k : List ℕ) (nodes : HashMap (List ℕ) (ℕ × NodeStatus))
    → IsMap nodes
    → (HashMap.lookup k (visit_all now nodes).1 ≡ after now (HashMap.lookup k nodes))
      × (contains k (visit_all now nodes).0 ≡ dies now (HashMap.lookup k nodes))
unfolding visit_all contains HashMap.lookup
visit_all-Judged now k [] h = (refl, refl)
visit_all-Judged now k ((j, (seen, status)) ∷ nodes) h =
    let one = visit-Judged now seen status in
    let rest = visit_all-Judged now k nodes h.1 in
    let absent = contains-visit_all now j nodes h.0 in
    ground (arith, bytes_beq_iff j k, bytes_beq_iff k j)

-- After a pass at time `now` the status of each node is the one that its age asks for, where a dead
-- node stays dead, and the nodes reported are exactly those that died: not dead before, and not
-- heard of for 15 seconds. The map is one, with each node once.
pub calculate_unresponsive-Judged :
    (now : ℕ) (m : VitalityManager) (k : List ℕ)
    → IsMap m.nodes
    → (HashMap.lookup k (calculate_unresponsive now m).1.nodes
        ≡ after now (HashMap.lookup k m.nodes))
      × (contains k (calculate_unresponsive now m).0 ≡ dies now (HashMap.lookup k m.nodes))
unfolding calculate_unresponsive
calculate_unresponsive-Judged now m k h = visit_all-Judged now k m.nodes h

-- What happens to a manager: heartbeats, and passes, each with the time of the clock.
pub data Event : Type 0 where
  beats : ℕ → Heartbeat → Event
  checks : ℕ → Event

-- The nodes that were reported, in order, and the manager afterwards.
unfoldable pub run : VitalityManager → List Event → List (List ℕ) × VitalityManager
run m [] = ([], m)
run m (beats now heartbeat ∷ events) = run (record_heartbeat now m heartbeat) events
run m (checks now ∷ events) =
    let (dead_nodes, m') = calculate_unresponsive now m in
    let (later, last) = run m' events in (dead_nodes ++ later, last)

-- No heartbeat of the node.
abbrev pub Silent : List ℕ → List Event → Type 0
Silent k [] = Unit
Silent k (beats now heartbeat ∷ events) = (heartbeat.node_id ≢ k) × Silent k events
Silent k (checks now ∷ events) = Silent k events

check-IsMap :
    (now : ℕ) (m : VitalityManager) → IsMap m.nodes → IsMap (calculate_unresponsive now m).1.nodes
unfolding calculate_unresponsive
check-IsMap now m h = rw (keys-visit_all now m.nodes) h

run-IsMap :
    (m : VitalityManager) (events : List Event) → IsMap m.nodes → IsMap (run m events).1.nodes
unfolding run record_heartbeat
run-IsMap m [] h = h
run-IsMap m (beats now heartbeat ∷ events) h =
    run-IsMap (record_heartbeat now m heartbeat) events
      (IsMap-insert heartbeat.node_id (now, active) m.nodes h)
run-IsMap m (checks now ∷ events) h =
    run-IsMap (calculate_unresponsive now m).1 events (check-IsMap now m h)

-- A heartbeat of another node.
lookup-beat :
    (now : ℕ) (m : VitalityManager) (heartbeat : Heartbeat) (k : List ℕ)
    → heartbeat.node_id ≢ k
    → HashMap.lookup k (record_heartbeat now m heartbeat).nodes ≡ HashMap.lookup k m.nodes
unfolding record_heartbeat
lookup-beat now m heartbeat k h = ground (
  arith,
  HashMap.lookup-insert heartbeat.node_id k (now, active) m.nodes,
  bytes_beq_iff heartbeat.node_id k,
)

run-dead :
    (m : VitalityManager) (k : List ℕ) (seen : ℕ) (events : List Event)
    → IsMap m.nodes
    → HashMap.lookup k m.nodes ≡ some (seen, dead)
    → Silent k events
    → contains k (run m events).0 ≡ false
unfolding run contains
run-dead m k seen [] map found silent = refl
run-dead m k seen (beats now heartbeat ∷ events) map found silent =
    run-dead (record_heartbeat now m heartbeat) k seen events
      (run-IsMap m (beats now heartbeat ∷ []) map) (lookup-beat now m heartbeat k silent.0 ∙ found)
      silent.1
run-dead m k seen (checks now ∷ events) map found silent =
    let judged = calculate_unresponsive-Judged now m k map in
    let still : HashMap.lookup k (calculate_unresponsive now m).1.nodes ≡ some (seen, dead) =
      judged.0 ∙ ap (after now) found in
    let quiet : contains k (calculate_unresponsive now m).0 ≡ false =
      judged.1 ∙ ap (dies now) found in
    let later =
      run-dead (calculate_unresponsive now m).1 k seen events (check-IsMap now m map) still
        silent in
    ground (
      arith,
      contains-append k (calculate_unresponsive now m).0
          (run (calculate_unresponsive now m).1 events).0,
    )

-- A node that a pass reports is dead afterwards.
reported-dead :
    (now : ℕ) (entry : Option (ℕ × NodeStatus))
    → dies now entry ≡ true
    → (seen : ℕ) × (after now entry ≡ some (seen, dead))
reported-dead now none h = cc
reported-dead now (some (seen, active)) h = (seen, ground arith)
reported-dead now (some (seen, suspect)) h = (seen, ground arith)
reported-dead now (some (seen, dead)) h = cc

-- After any history from the empty manager, a node that a pass reports dead is reported by no
-- later pass, as long as no heartbeat of it comes.
pub calculate_unresponsive-once :
    (timeout now : ℕ) (k : List ℕ) (before later : List Event)
    → Silent k later
    → let m = (run (new timeout) before).1 in
      contains k (calculate_unresponsive now m).0 ≡ true
      → contains k (run (calculate_unresponsive now m).1 later).0 ≡ false
unfolding new contains
calculate_unresponsive-once timeout now k before later silent reported =
    let m = (run (new timeout) before).1 in
    let map = run-IsMap (new timeout) before tt in
    let judged = calculate_unresponsive-Judged now m k map in
    let (seen, found) = reported-dead now (HashMap.lookup k m.nodes) (sym judged.1 ∙ reported) in
    run-dead (calculate_unresponsive now m).1 k seen later (check-IsMap now m map)
      (judged.0 ∙ found) silent

-- A pass reports a node at the moment of its death.
dies-is_dead :
    (now seen : ℕ) (status : NodeStatus)
    → is_dead (status_after (now - seen) status)
      ≡ (is_dead status || dies now (some (seen, status)))
dies-is_dead now seen active = ground arith
dies-is_dead now seen suspect = ground arith
dies-is_dead now seen dead = ground arith

late-is_dead :
    (now seen : ℕ) (status : NodeStatus)
    → seen + 15000000 ≤ now
    → (is_dead status || dies now (some (seen, status))) ≡ true
late-is_dead now seen active h = ground arith
late-is_dead now seen suspect h = ground arith
late-is_dead now seen dead h = ground arith

run-detects :
    (m : VitalityManager) (k : List ℕ) (seen now : ℕ) (status : NodeStatus) (events : List Event)
    → IsMap m.nodes
    → HashMap.lookup k m.nodes ≡ some (seen, status)
    → Silent k events
    → seen + 15000000 ≤ now
    → (is_dead status || contains k (run m (events ++ checks now ∷ [])).0) ≡ true
unfolding run contains
run-detects m k seen now status [] map found silent late =
    let judged = (calculate_unresponsive-Judged now m k map).1 ∙ ap (dies now) found in
    let split = contains-append k (calculate_unresponsive now m).0 [] in
    let dead_by_now = late-is_dead now seen status late in ground arith
run-detects m k seen now status (beats t heartbeat ∷ events) map found silent late =
    run-detects (record_heartbeat t m heartbeat) k seen now status events
      (run-IsMap m (beats t heartbeat ∷ []) map) (lookup-beat t m heartbeat k silent.0 ∙ found)
      silent.1 late
run-detects m k seen now status (checks t ∷ events) map found silent late =
    let m' = (calculate_unresponsive t m).1 in
    let judged = calculate_unresponsive-Judged t m k map in
    let reported = judged.1 ∙ ap (dies t) found in
    let later =
      run-detects m' k seen now (status_after (t - seen) status) events (check-IsMap t m map)
        (judged.0 ∙ ap (after t) found) silent late in
    let split =
      contains-append k (calculate_unresponsive t m).0 (run m' (events ++ checks now ∷ [])).0 in
    let dead_now = dies-is_dead t seen status in ground arith

-- After any history, a node whose last heartbeat came at `seen` is reported dead by the passes that
-- follow, at the latest by the one that runs 15 seconds or more after it, whatever heartbeats of
-- other nodes and passes come between.
pub run-reports :
    (timeout seen now : ℕ) (heartbeat : Heartbeat) (before between : List Event)
    → Silent heartbeat.node_id between
    → seen + 15000000 ≤ now
    → let m = record_heartbeat seen (run (new timeout) before).1 heartbeat in
      contains heartbeat.node_id (run m (between ++ checks now ∷ [])).0 ≡ true
unfolding new contains record_heartbeat
run-reports timeout seen now heartbeat before between silent late =
    let m = (run (new timeout) before).1 in
    let map = run-IsMap (new timeout) before tt in
    let k = heartbeat.node_id in
    run-detects (record_heartbeat seen m heartbeat) k seen now active between
      (IsMap-insert k (seen, active) m.nodes map)
      (ground (arith, HashMap.lookup-insert k k (seen, active) m.nodes, bytes_beq_iff k k)) silent
      late
