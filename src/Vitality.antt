-- ===== src/Vitality.antt =====
-- src/network/vitality.rs: which nodes of a hive still send heartbeats. Times are in microseconds;
-- the clock is an argument. Each entry of the concurrent map is visited under its own lock, and a
-- pass over all of them is one step here.
pub mod Deaths
pub mod Tests
use trytet.Prelude.{ℕ, ◌-◌, Bool, true, false, List, [], ◌∷◌, leb, ◌&&◌, if◌then◌else◌, bytes_eq}
use trytet.Prelude.HashMap
use trytet.Prelude.HashMap.{HashMap}

pub data NodeStatus : Type 0 where
  active suspect dead : NodeStatus

pub record Heartbeat : Type 0 where
  pub node_id : List ℕ
  pub timestamp_us : ℕ
  pub signature : List ℕ

pub record VitalityManager : Type 0 where
  pub nodes : HashMap (List ℕ) (ℕ × NodeStatus)
  pub timeout_limit_us : ℕ

unfoldable pub new : ℕ → VitalityManager
new timeout_limit_us = record { nodes = []; timeout_limit_us = timeout_limit_us }

unfoldable pub record_heartbeat : ℕ → VitalityManager → Heartbeat → VitalityManager
record_heartbeat now m heartbeat = record m {
  nodes = HashMap.insert heartbeat.node_id (now, active) m.nodes;
}

unfoldable pub is_active : NodeStatus → Bool
is_active active = true
is_active _ = false

unfoldable pub is_suspect : NodeStatus → Bool
is_suspect suspect = true
is_suspect _ = false

-- The body of the loop on one entry; with it, whether the node is reported.
unfoldable pub visit : ℕ → ℕ × NodeStatus → Bool × (ℕ × NodeStatus)
unfolding is_active is_suspect
visit now (last_seen_us, status) =
    let elapsed_us = now - last_seen_us in
    let status = if leb 5000000 elapsed_us && is_active status then suspect else status in
    if leb 15000000 elapsed_us && is_suspect status
    then (true, (last_seen_us, dead))
    else (false, (last_seen_us, status))

unfoldable pub visit_all :
    ℕ → HashMap (List ℕ) (ℕ × NodeStatus) → List (List ℕ) × HashMap (List ℕ) (ℕ × NodeStatus)
unfolding visit
visit_all now [] = ([], [])
visit_all now ((node, entry) ∷ nodes) =
    let (reported, entry') = visit now entry in
    let (dead_nodes, nodes') = visit_all now nodes in
    (if reported then node ∷ dead_nodes else dead_nodes, (node, entry') ∷ nodes')

unfoldable pub calculate_unresponsive : ℕ → VitalityManager → List (List ℕ) × VitalityManager
unfolding visit_all
calculate_unresponsive now m =
    let (dead_nodes, nodes) = visit_all now m.nodes in (dead_nodes, record m { nodes = nodes })
