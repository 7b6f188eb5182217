-- ===== src/Market/Tests.antt =====
-- Witnesses of the market, with prices in whole numbers.
use trytet.Prelude.{ℕ, ◌*◌, ◌/◌, ◌≡◌, arith, true, ltb, leb, [], ◌∷◌}
use trytet.Market.{Prices, HiveMarket, MarketBid, calculate_local_bid, find_best_arbitrage}
use trytet.Market.Arbitrage.{IsBest, find_best_arbitrage-IsBest}

ltb_trans : (a b c : ℕ) → ltb a b ≡ true → ltb b c ≡ true → ltb a c ≡ true
ltb_trans a b c h k = ground arith

abbrev whole : Prices
whole = record {
  F32 = ℕ;
  le = leb;
  lt = ltb;
  buffered = λ p. p * 85 / 100;
  escape = 500;
  scaled = λ mem cpu thermal. 100;
  lt-trans = ltb_trans;
  lt-irrefl = λ a. ground arith;
}

abbrev bid : ℕ → ℕ → MarketBid whole
bid node price = record {
  node_id = node ∷ [];
  fuel_multiplier = price;
  available_capacity_mb = 1024;
  thermal_score = 40;
  timestamp_us = 0;
}

abbrev market : HiveMarket whole
market = record {
  active_bids = (1 ∷ [], bid 1 90) ∷ (2 ∷ [], bid 2 80) ∷ (3 ∷ [], bid 3 60) ∷ [];
  local_vitals = record { cpu_idle_percent = 10; memory_free_mb = 512; thermal_pressure = 40 };
  local_node_id = 0 ∷ [];
}

find_best_arbitrage-IsBest_example :
    IsBest whole
      (0 ∷ [])
      (calculate_local_bid whole 7 market).fuel_multiplier
      market.active_bids
      (find_best_arbitrage whole 7 market (0 ∷ []))
find_best_arbitrage-IsBest_example = find_best_arbitrage-IsBest whole 7 market (0 ∷ [])
