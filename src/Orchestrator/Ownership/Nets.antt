-- ===== src/Orchestrator/Ownership/Nets.antt =====
-- What `ownership_from_order_evidence` computes when its loop leaves one strategy with a net.
use pg_tsy_core_bootstrap.Prelude.{
  get-sole, get-other, same_key_eq, arith, String, Bool, true, false, not, all, Option, none, some,
  List, [], ◌∷◌, ◌≡◌, ◌≢◌, refl, ap, ◌∙◌, ◌==◌, string_eq, string_ord, BTreeMap, get, insert,
  get-insert, insert-IsAscending, IsAscending, unwrap_or, ◌⊎◌, inl, inr, if◌then◌else◌,
}
use pg_tsy_core_bootstrap.Decimal.{Decimal, is_zero, same, ◌≈◌}
use pg_tsy_core_bootstrap.Oms.{OrderRecord}
use pg_tsy_core_bootstrap.Reconcile.Defs.{Ownership}
use pg_tsy_core_bootstrap.Orchestrator.Ownership.{
  signed_fill, add_signed, net_by_strategy, with_position, sole_owner, owner_of_nets,
  owner_of_orders,
}

module _ {Q : Type 0} ⦃d : Decimal Q⦄ where
  -- The signed sum of what the orders of a strategy filled.
  unfoldable pub net_of : String → Q → List (OrderRecord Q) → Q
  net_of owner total [] = total
  net_of owner total (order ∷ orders) =
      net_of owner
        (if order.owner_strategy_id == owner
          then elim (signed_fill order.side order.filled_quantity) [
            | some quantity ↦ d.add total quantity
            | none ↦ total
          ]
          else total)
        orders

  net_by_strategy-none : (orders : List (OrderRecord Q)) → net_by_strategy orders none ≡ none
  unfolding net_by_strategy
  net_by_strategy-none [] = refl
  net_by_strategy-none (order ∷ orders) = ground (arith, net_by_strategy-none orders)

  -- The totals after one more fill.
  abbrev after_fill : String → Q → BTreeMap String Q → BTreeMap String Q
  after_fill owner quantity totals =
      insert owner (d.add (unwrap_or (get owner totals) d.zero) quantity) totals

  -- The loop goes on only where the order has a side.
  first_fill :
      (owner : String) (fill : Option Q) (orders : List (OrderRecord Q))
      (totals nets : BTreeMap String Q)
      → net_by_strategy orders (add_signed owner fill (some totals)) ≡ some nets
      → (quantity : Q) × (fill ≡ some quantity)
        × (net_by_strategy orders (some (after_fill owner quantity totals)) ≡ some nets)
  first_fill owner none orders totals nets made = ground (arith, net_by_strategy-none orders)
  first_fill owner (some quantity) orders totals nets made = (quantity, refl, made)

  nets-IsAscending :
      (orders : List (OrderRecord Q)) (totals nets : BTreeMap String Q)
      → IsAscending totals
      → net_by_strategy orders (some totals) ≡ some nets
      → IsAscending nets
  unfolding net_by_strategy
  nets-IsAscending [] totals nets ascending made = ground (arith, made)
  nets-IsAscending (order ∷ orders) totals nets ascending made =
      let owner = order.owner_strategy_id in
      let (quantity, _, rest) =
        first_fill owner (signed_fill order.side order.filled_quantity) orders totals nets made in
      nets-IsAscending orders (after_fill owner quantity totals) nets
        (insert-IsAscending owner (d.add (unwrap_or (get owner totals) d.zero) quantity) totals
          ascending)
        rest

  get-nets :
      (owner : String) (orders : List (OrderRecord Q)) (totals nets : BTreeMap String Q)
      → net_by_strategy orders (some totals) ≡ some nets
      → unwrap_or (get owner nets) d.zero
        ≡ net_of owner (unwrap_or (get owner totals) d.zero) orders
  unfolding net_by_strategy net_of
  get-nets owner [] totals nets made = ground (arith, made)
  get-nets owner (order ∷ orders) totals nets made =
      let other = order.owner_strategy_id in
      let (quantity, filled, rest) =
        first_fill other (signed_fill order.side order.filled_quantity) orders totals nets made in
      get-nets owner orders (after_fill other quantity totals) nets rest
      ∙ ap (λ start. net_of owner start orders)
          (ground (
            arith,
            filled,
            get-insert other owner (d.add (unwrap_or (get other totals) d.zero) quantity) totals,
            same_key_eq other owner,
            string_eq.beq_iff other owner,
          ))

  abbrev pub has_side : OrderRecord Q → Bool
  has_side order = elim order.side [ some side ↦ true | none ↦ false ]

  -- The loop ends with nets only where all its orders have a side.
  nets-has_side :
      (orders : List (OrderRecord Q)) (totals nets : BTreeMap String Q)
      → net_by_strategy orders (some totals) ≡ some nets
      → all has_side orders ≡ true
  unfolding net_by_strategy
  nets-has_side [] totals nets made = refl
  nets-has_side (order ∷ orders) totals nets made =
      let owner = order.owner_strategy_id in
      let (quantity, filled, rest) =
        first_fill owner (signed_fill order.side order.filled_quantity) orders totals nets made in
      ground (arith, filled, nets-has_side orders (after_fill owner quantity totals) nets rest)

  -- The one strategy whose fills make up the position, over orders that all count.
  abbrev pub NetExplains : String → Q → List (OrderRecord Q) → Type 0
  NetExplains strategy quantity orders =
      (net_of strategy d.zero orders ≈ quantity)
      × ((other : String) → other ≢ strategy → is_zero (net_of other d.zero orders) ≡ true)
      × (all has_side orders ≡ true)

  nets_at :
      (owner : String) (orders : List (OrderRecord Q)) (nets : BTreeMap String Q)
      → net_by_strategy orders (some []) ≡ some nets
      → unwrap_or (get owner nets) d.zero ≡ net_of owner d.zero orders
  unfolding get
  nets_at owner orders nets made = get-nets owner orders [] nets made

  abbrev is_real : Q → Bool
  is_real quantity = not (is_zero quantity)

  sole-NetExplains :
      (orders : List (OrderRecord Q)) (nets : BTreeMap String Q) (strategy : String)
      (net quantity : Q)
      → net_by_strategy orders (some []) ≡ some nets
      → with_position nets ≡ (strategy, net) ∷ []
      → same net quantity ≡ true
      → NetExplains strategy quantity orders
  sole-NetExplains orders nets strategy net quantity made sole equal = (
    ground (
      arith,
      equal,
      nets_at strategy orders nets made,
      get-sole is_real strategy net nets (nets-IsAscending orders [] nets tt made) sole,
    ),
    λ other differs. other_nothing other (get other nets) refl differs,
    nets-has_side orders [] nets made,
  )
    where
      other_nothing :
          (other : String) (o : Option Q)
          → get other nets ≡ o
          → other ≢ strategy
          → is_zero (net_of other d.zero orders) ≡ true
      other_nothing other none found differs = ground (arith, found, nets_at other orders nets made)
      other_nothing other (some y) found differs = ground (
        arith,
        found,
        nets_at other orders nets made,
        get-other is_real strategy other net y nets sole,
        same_key_eq strategy other,
        string_eq.beq_iff strategy other,
      )

  explained :
      (strategy : String) (quantity : Q) (orders : List (OrderRecord Q))
      (nets : Option (BTreeMap String Q))
      → net_by_strategy orders (some []) ≡ nets
      → owner_of_nets quantity nets ≡ Ownership.strategy strategy
      → NetExplains strategy quantity orders
  explained strategy quantity orders none made owned = ground (arith, owned)
  explained strategy quantity orders (some nets) made owned = sole (with_position nets) refl owned
    where
      sole :
          (left : BTreeMap String Q)
          → with_position nets ≡ left
          → sole_owner quantity left ≡ Ownership.strategy strategy
          → NetExplains strategy quantity orders
      sole [] kept owned = ground (arith, owned)
      sole ((owner, net) ∷ []) kept owned =
          let named : owner ≡ strategy = ground (arith, owned) in
          sole-NetExplains orders nets strategy net quantity made
            (kept ∙ ap (λ o. (o, net) ∷ []) named) (ground (arith, owned))
      sole (_ ∷ _ ∷ _) kept owned = ground (arith, owned)

  pub by_orders :
      (quantity : Q) (previous : Option Ownership) (strategy : String)
      (orders : List (OrderRecord Q))
      → is_zero quantity ≡ false
      → owner_of_orders quantity previous orders ≡ Ownership.strategy strategy
      → (previous ≡ some (Ownership.strategy strategy))
        ⊎ ((is_zero quantity ≡ false) × NetExplains strategy quantity orders)
  by_orders quantity previous strategy [] real owned = inl (ground (arith, owned))
  by_orders quantity previous strategy (order ∷ orders) real owned = inr (
    real,
    explained strategy quantity (order ∷ orders) (net_by_strategy (order ∷ orders) (some [])) refl
        owned,
  )
