-- ===== src/Market/Arbitrage.antt =====
-- src/market.rs: which bid the search returns.
use trytet.Prelude.{
  ◌≡◌, refl, sym, subst, arith, ℕ, Bool, true, false, ◌&&◌, not, Option, none, some, List, [], ◌∷◌,
  ◌==◌, bytes_eq, ◌⊎◌, inl, inr, All, Bool-cases,
}
use trytet.Prelude.HashMap.{HashMap}
use trytet.Market.{
  Prices, MarketBid, HiveMarket, calculate_local_bid, consider, search_bids, find_best_arbitrage,
}

module _ (prices : Prices) where
  open prices use {F32, le, lt, buffered, lt-trans, lt-irrefl}

  -- A bid of another node that is cheap enough to move for.
  abbrev pub qualifies : List ℕ → F32 → MarketBid prices → Bool
  qualifies current_node_id current_cost bid =
      not (bid.node_id == current_node_id)
      && (le bid.fuel_multiplier (buffered current_cost) && lt bid.fuel_multiplier current_cost)

  abbrev pub Offered : MarketBid prices → HashMap (List ℕ) (MarketBid prices) → Type 0
  Offered b [] = ⊥
  Offered b ((k, bid) ∷ bids) = (bid ≡ b) ⊎ Offered b bids

  -- A bid that qualifies is no cheaper than `cost`.
  abbrev pub NotBelow : List ℕ → F32 → F32 → List ℕ × MarketBid prices → Type 0
  NotBelow current_node_id current_cost cost (k, bid) =
      qualifies current_node_id current_cost bid ≡ true → lt bid.fuel_multiplier cost ≡ false

  -- The outcome of a search over `bids` that began at cost `start` with no bid.
  abbrev Cheapest :
      List ℕ
      → F32
      → HashMap (List ℕ) (MarketBid prices)
      → F32
      → Option (MarketBid prices)
      → F32 × Option (MarketBid prices)
      → Type 0
  Cheapest node cost bids lowest best (final, result) =
      All (NotBelow node cost final) bids
      × (((final ≡ lowest) × (result ≡ best))
          ⊎ ((lt final lowest ≡ true)
              × ((b : MarketBid prices) × (result ≡ some b)
                  × Offered b bids
                  × (qualifies node cost b ≡ true)
                  × (b.fuel_multiplier ≡ final))))

  -- At most the cost at the start.
  abbrev Within : F32 → F32 → Type 0
  Within lowest cost = (lowest ≡ cost) ⊎ (lt lowest cost ≡ true)

  -- What is not below a cost is not below what is lower.
  not-below_mono :
      (p final lowest : F32)
      → lt p lowest ≡ false
      → (final ≡ lowest) ⊎ (lt final lowest ≡ true)
      → lt p final ≡ false
  not-below_mono p final lowest h (inl e) = rw e h
  not-below_mono p final lowest h (inr l) = elim (Bool-cases (lt p final)) [
    | inl below ↦ let lower = lt-trans p final lowest below l in cc
    | inr fine ↦ fine
  ]

  Cheapest-keep :
      (node : List ℕ) (cost lowest : F32) (best : Option (MarketBid prices)) (k : List ℕ)
      → (bid : MarketBid prices) (bids : HashMap (List ℕ) (MarketBid prices))
      → (r : F32 × Option (MarketBid prices)) → NotBelow node cost lowest (k, bid)
      → Cheapest node cost bids lowest best r
      → Cheapest node cost ((k, bid) ∷ bids) lowest best r
  Cheapest-keep node cost lowest best k bid bids (final, result) h (rest, inl (e, same)) =
      (((λ q. not-below_mono bid.fuel_multiplier final lowest (h q) (inl e)), rest), inl (e, same))
  Cheapest-keep node cost lowest best k bid bids (final, result) h
        (rest, inr (l, (b, is, at, q, p))) =
      (
        ((λ fit. not-below_mono bid.fuel_multiplier final lowest (h fit) (inr l)), rest),
        inr (l, (b, is, inr at, q, p)),
      )

  Cheapest-take :
      (node : List ℕ) (cost lowest : F32) (best : Option (MarketBid prices)) (k : List ℕ)
      → (bid : MarketBid prices) (bids : HashMap (List ℕ) (MarketBid prices))
      → (r : F32 × Option (MarketBid prices)) → lt bid.fuel_multiplier lowest ≡ true
      → qualifies node cost bid ≡ true
      → Cheapest node cost bids bid.fuel_multiplier (some bid) r
      → Cheapest node cost ((k, bid) ∷ bids) lowest best r
  Cheapest-take node cost lowest best k bid bids (final, result) low fits (rest, inl (e, same)) = (
    (
      (λ q.
          not-below_mono bid.fuel_multiplier final bid.fuel_multiplier
            (lt-irrefl bid.fuel_multiplier) (inl e)),
      rest,
    ),
    inr (rw e low, (bid, same, inl refl, fits, sym e)),
  )
  Cheapest-take node cost lowest best k bid bids (final, result) low fits
        (rest, inr (l, (b, is, at, q, p))) =
      (
        (
          (λ fit.
              not-below_mono bid.fuel_multiplier final bid.fuel_multiplier
                (lt-irrefl bid.fuel_multiplier) (inr l)),
          rest,
        ),
        inr (lt-trans final bid.fuel_multiplier lowest l low, (b, is, inr at, q, p)),
      )

  -- A cost below the lowest one is below the cost at the start.
  below-Within : (p lowest cost : F32) → Within lowest cost → lt p lowest ≡ true → lt p cost ≡ true
  below-Within p lowest cost (inl e) l = subst (λ x. lt p x ≡ true) e l
  below-Within p lowest cost (inr w) l = lt-trans p lowest cost l w

  consider-cases :
      (node : List ℕ) (cost lowest : F32) (best : Option (MarketBid prices))
      (bid : MarketBid prices)
      → (k : List ℕ) → Within lowest cost
      → ((consider prices node cost (lowest, best) bid ≡ (lowest, best))
          × NotBelow node cost lowest (k, bid))
        ⊎ ((consider prices node cost (lowest, best) bid ≡ (bid.fuel_multiplier, some bid))
            × (lt bid.fuel_multiplier lowest ≡ true)
            × (qualifies node cost bid ≡ true))
  unfolding consider
  consider-cases node cost lowest best bid k h =
      let p = bid.fuel_multiplier in
      elim (Bool-cases (bid.node_id == node)) [
        | inl own ↦ inl (rw own refl, (λ q. ground arith))
        | inr other ↦ elim (Bool-cases (le p (buffered cost) && lt p lowest)) [
          | inl cheap ↦
              let under = below-Within p lowest cost h in
              inr (rw (other, cheap) refl, ground arith, ground (arith, under))
          | inr dear ↦ inl (rw (other, dear) refl, (λ q. ground arith))
        ]
      ]

  search_bids-Cheapest :
      (node : List ℕ) (cost lowest : F32) (best : Option (MarketBid prices))
      → (bids : HashMap (List ℕ) (MarketBid prices)) → Within lowest cost
      → Cheapest node cost bids lowest best (search_bids prices node cost (lowest, best) bids)
  unfolding search_bids
  search_bids-Cheapest node cost lowest best [] h = (tt, inl (refl, refl))
  search_bids-Cheapest node cost lowest best ((k, bid) ∷ bids) h =
      let p = bid.fuel_multiplier in
      elim (consider-cases node cost lowest best bid k h) [
        | inl (keeps, above) ↦
            subst
              (λ acc.
                Cheapest node cost ((k, bid) ∷ bids) lowest best
                  (search_bids prices node cost acc bids))
              (sym keeps)
              (Cheapest-keep node cost lowest best k bid bids
                (search_bids prices node cost (lowest, best) bids) above
                (search_bids-Cheapest node cost lowest best bids h))
        | inr (takes, low, fits) ↦
            subst
              (λ acc.
                Cheapest node cost ((k, bid) ∷ bids) lowest best
                  (search_bids prices node cost acc bids))
              (sym takes)
              (Cheapest-take node cost lowest best k bid bids
                (search_bids prices node cost (p, some bid) bids) low fits
                (search_bids-Cheapest node cost p (some bid) bids
                  (inr (below-Within p lowest cost h low))))
      ]

  -- The outcome of `find_best_arbitrage`, by the bids alone.
  abbrev pub IsBest :
      List ℕ → F32 → HashMap (List ℕ) (MarketBid prices) → Option (MarketBid prices) → Type 0
  IsBest node cost bids none =
      All (λ (e : List ℕ × MarketBid prices). qualifies node cost e.1 ≡ false) bids
  IsBest node cost bids (some b) =
      Offered b bids
      × (qualifies node cost b ≡ true)
      × All (NotBelow node cost b.fuel_multiplier) bids

  none-qualifies :
      (node : List ℕ) (cost : F32) (bids : HashMap (List ℕ) (MarketBid prices))
      → All (NotBelow node cost cost) bids
      → All (λ (e : List ℕ × MarketBid prices). qualifies node cost e.1 ≡ false) bids
  none-qualifies node cost [] h = tt
  none-qualifies node cost ((k, bid) ∷ bids) h =
      (ground (arith, h.0), none-qualifies node cost bids h.1)

  Cheapest-IsBest :
      (node : List ℕ) (cost : F32) (bids : HashMap (List ℕ) (MarketBid prices))
      → (r : F32 × Option (MarketBid prices)) → Cheapest node cost bids cost none r
      → IsBest node cost bids r.1
  Cheapest-IsBest node cost bids (final, result) (rest, inl (e, same)) =
      rw same (none-qualifies node cost bids (subst (λ x. All (NotBelow node cost x) bids) e rest))
  Cheapest-IsBest node cost bids (final, result) (rest, inr (l, (b, is, at, q, p))) =
      rw is (at, q, subst (λ x. All (NotBelow node cost x) bids) (sym p) rest)

  -- The search returns an offered bid of another node that is cheap enough to move for, and no other
  -- such bid is cheaper; it returns none only if no bid is cheap enough.
  pub find_best_arbitrage-IsBest :
      (now : ℕ) (m : HiveMarket prices) (node : List ℕ)
      → IsBest node
          (calculate_local_bid prices now m).fuel_multiplier
          m.active_bids
          (find_best_arbitrage prices now m node)
  unfolding find_best_arbitrage
  find_best_arbitrage-IsBest now m node =
      let cost = (calculate_local_bid prices now m).fuel_multiplier in
      Cheapest-IsBest node cost m.active_bids
        (search_bids prices node cost (cost, none) m.active_bids)
        (search_bids-Cheapest node cost cost none m.active_bids (inl refl))
