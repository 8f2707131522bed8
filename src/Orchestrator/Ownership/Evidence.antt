-- ===== src/Orchestrator/Ownership/Evidence.antt =====
-- What it takes for a position to be given to a strategy.
use pg_tsy_core_bootstrap.Prelude.{
  arith, String, Bool, true, false, not, ◌&&◌, ◌||◌, all, sym, Option, none, some, List, [], ◌∷◌,
  ◌≡◌, ◌≢◌, refl, ◌∙◌, ◌==◌, string_eq, string_ord, unwrap_or, filter, ◌⊎◌, inl, inr, if_paths,
  if◌then◌else◌,
}
use pg_tsy_core_bootstrap.Decimal.{Decimal, is_zero, lt, ◌≈◌}
use pg_tsy_core_bootstrap.Types.{Side}
use pg_tsy_core_bootstrap.Oms.{OrderRecord}
use pg_tsy_core_bootstrap.Reconcile.Defs.{Ownership}
use pg_tsy_core_bootstrap.Orchestrator.Ownership.{
  is_relevant, owner_of_orders, ownership_from_order_evidence,
}
use pg_tsy_core_bootstrap.Orchestrator.Ownership.Nets.{net_of, has_side, NetExplains, by_orders}

module _ {Q : Type 0} ⦃d : Decimal Q⦄ where
  -- A position after a fill: a buy adds the quantity, a sell takes it away.
  abbrev pub after_trade : Q → Option Side → Q → Q
  after_trade position none quantity = position
  after_trade position (some Side.buy) quantity = d.add position quantity
  after_trade position (some Side.sell) quantity = d.add position (d.neg quantity)

  -- Whether an order filled some of an asset, and whether it did so for a strategy.
  abbrev pub traded : String → OrderRecord Q → Bool
  traded asset order = lt d.zero order.filled_quantity && order.asset == asset

  abbrev pub traded_by : String → String → OrderRecord Q → Bool
  traded_by asset owner order = traded asset order && order.owner_strategy_id == owner

  -- The position in an asset to which the fills of a strategy lead.
  unfoldable pub position_by_fills : String → String → Q → List (OrderRecord Q) → Q
  position_by_fills asset owner position [] = position
  position_by_fills asset owner position (order ∷ orders) =
      position_by_fills asset owner
        (if traded_by asset owner order
          then after_trade position order.side order.filled_quantity
          else position)
        orders

  -- The one strategy whose fills of the asset lead to the position.
  abbrev pub Explains : String → String → Q → List (OrderRecord Q) → Type 0
  Explains asset strategy quantity orders =
      (position_by_fills asset strategy d.zero orders ≈ quantity)
      × ((other : String)
          → other ≢ strategy
          → is_zero (position_by_fills asset other d.zero orders) ≡ true)
      × (all (λ order. not (traded asset order) || has_side order) orders ≡ true)

  position_by_fills-net_of :
      (asset owner : String) (position : Q) (orders : List (OrderRecord Q))
      → position_by_fills asset owner position orders
        ≡ net_of owner position (filter (is_relevant asset) orders)
  unfolding position_by_fills net_of
  position_by_fills-net_of asset owner position [] = refl
  position_by_fills-net_of asset owner position (order ∷ orders) = ground (
    arith,
    position_by_fills-net_of asset owner position orders,
    position_by_fills-net_of asset owner (after_trade position order.side order.filled_quantity)
        orders,
  )

  all-filter-has_side :
      (asset : String) (orders : List (OrderRecord Q))
      → all has_side (filter (is_relevant asset) orders)
        ≡ all (λ order. not (traded asset order) || has_side order) orders
  all-filter-has_side asset [] = refl
  all-filter-has_side asset (order ∷ orders) = ground (arith, all-filter-has_side asset orders)

  explained_by_fills :
      (asset strategy : String) (quantity : Q) (orders : List (OrderRecord Q))
      → NetExplains strategy quantity (filter (is_relevant asset) orders)
      → Explains asset strategy quantity orders
  explained_by_fills asset strategy quantity orders (own, others, sides) = (
    rw (position_by_fills-net_of asset strategy d.zero orders) own,
    λ other differs. rw (position_by_fills-net_of asset other d.zero orders) (others other differs),
    sym (all-filter-has_side asset orders) ∙ sides,
  )

  -- Where the evidence gives the position of an asset to a strategy, that strategy had it before, or
  -- the position is not zero and, over the orders of that asset that filled something, the fills of
  -- that strategy, a buy added and a sell taken away, sum to the position and those of every other
  -- strategy to zero, and each of these orders has a side.
  pub ownership-Explains :
      (asset : String) (quantity : Q) (orders : List (OrderRecord Q)) (previous : Option Ownership)
      (strategy : String)
      → ownership_from_order_evidence asset quantity orders previous ≡ Ownership.strategy strategy
      → (previous ≡ some (Ownership.strategy strategy))
        ⊎ ((is_zero quantity ≡ false) × Explains asset strategy quantity orders)
  unfolding ownership_from_order_evidence
  ownership-Explains asset quantity orders previous strategy owned =
      if_paths
        (λ owner.
          owner ≡ Ownership.strategy strategy
          → (previous ≡ some (Ownership.strategy strategy))
            ⊎ ((is_zero quantity ≡ false) × Explains asset strategy quantity orders))
        (is_zero quantity) (unwrap_or previous Ownership.unknown)
        (owner_of_orders quantity previous (filter (is_relevant asset) orders))
        (λ flat kept. inl (ground (arith, kept)))
        (λ real given.
          elim (by_orders quantity previous strategy (filter (is_relevant asset) orders) real
            given) [
              | inl kept ↦ inl kept
              | inr (real, nets) ↦
                  inr (real, explained_by_fills asset strategy quantity orders nets)
            ])
        owned
