-- ===== src/Market.antt =====
-- src/market.rs: the bids of the nodes of a hive, and the search for a cheaper one. Prices are
-- floating-point numbers, whose operations are parameters; the clock is an argument.
pub mod Arbitrage
pub mod Tests
use trytet.Prelude.{
  ℕ, ◌≡◌, Bool, true, false, ◌&&◌, ◌||◌, not, leb, Option, none, some, List, [], ◌∷◌, ◌==◌,
  bytes_eq, if◌then◌else◌,
}
use trytet.Prelude.HashMap
use trytet.Prelude.HashMap.{HashMap}

-- `f32`: the comparisons, the prices of a node by its vitals, and the 15% buffer.
pub record Prices : Type 1 where
  pub F32 : Type 0
  pub le : F32 → F32 → Bool
  pub lt : F32 → F32 → Bool
  -- `x * 0.85`
  pub buffered : F32 → F32
  -- `5.0`
  pub escape : F32
  -- `(2500.0 / (mem * cpu / (thermal + 1.0)).max(1.0)).clamp(0.5, 2.0)`
  pub scaled : ℕ → ℕ → ℕ → F32
  -- The order is transitive, and a strict comparison implies the other.
  pub lt-trans : (a b c : F32) → lt a b ≡ true → lt b c ≡ true → lt a c ≡ true
  pub lt-irrefl : (a : F32) → lt a a ≡ false

pub record NodeVitals : Type 0 where
  pub cpu_idle_percent : ℕ
  pub memory_free_mb : ℕ
  pub thermal_pressure : ℕ

module _ (prices : Prices) where
  open prices use {F32, le, lt, buffered, escape, scaled}

  pub record MarketBid : Type 0 where
    pub node_id : List ℕ
    pub fuel_multiplier : F32
    pub available_capacity_mb : ℕ
    pub thermal_score : ℕ
    pub timestamp_us : ℕ

  pub record HiveMarket : Type 0 where
    pub active_bids : HashMap (List ℕ) MarketBid
    pub local_vitals : NodeVitals
    pub local_node_id : List ℕ

  unfoldable pub new : List ℕ → HiveMarket
  new local_node_id = record {
    active_bids = [];
    local_vitals = record { cpu_idle_percent = 100; memory_free_mb = 1024; thermal_pressure = 40 };
    local_node_id = local_node_id;
  }

  unfoldable pub calculate_local_bid : ℕ → HiveMarket → MarketBid
  calculate_local_bid now m =
      let v = m.local_vitals in
      record {
        node_id = m.local_node_id;
        fuel_multiplier =
            if leb 95 v.thermal_pressure
            then escape
            else scaled v.memory_free_mb v.cpu_idle_percent v.thermal_pressure;
        available_capacity_mb = v.memory_free_mb;
        thermal_score = v.thermal_pressure;
        timestamp_us = now;
      }

  unfoldable pub process_bid : HiveMarket → MarketBid → HiveMarket
  process_bid m bid = record m { active_bids = HashMap.insert bid.node_id bid m.active_bids }

  -- One round of the search: the lowest cost so far, and its bid.
  unfoldable pub consider :
      List ℕ → F32 → F32 × Option MarketBid → MarketBid → F32 × Option MarketBid
  consider current_node_id current_cost (lowest_cost, best_bid) bid =
      if bid.node_id == current_node_id
      then (lowest_cost, best_bid)
      else if le bid.fuel_multiplier (buffered current_cost) && lt bid.fuel_multiplier lowest_cost
      then (bid.fuel_multiplier, some bid)
      else (lowest_cost, best_bid)

  unfoldable pub search_bids :
      List ℕ → F32 → F32 × Option MarketBid → HashMap (List ℕ) MarketBid → F32 × Option MarketBid
  unfolding consider
  search_bids current_node_id current_cost acc [] = acc
  search_bids current_node_id current_cost acc ((k, bid) ∷ bids) =
      search_bids current_node_id current_cost (consider current_node_id current_cost acc bid) bids

  unfoldable pub find_best_arbitrage : ℕ → HiveMarket → List ℕ → Option MarketBid
  unfolding calculate_local_bid search_bids
  find_best_arbitrage now m current_node_id =
      let current_cost = (calculate_local_bid now m).fuel_multiplier in
      (search_bids current_node_id current_cost (current_cost, none) m.active_bids).1
