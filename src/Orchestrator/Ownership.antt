-- ===== src/Orchestrator/Ownership.antt =====
-- `infer_position_ownership` and `ownership_from_order_evidence`.
pub mod Nets
pub mod Evidence
use pg_tsy_core_bootstrap.Prelude.{
  ℕ, String, Bool, true, false, not, ◌&&◌, Option, none, some, List, [], ◌∷◌, ◌==◌, string_eq,
  string_ord, BTreeMap, get, insert, remove, unwrap_or, filter, if◌then◌else◌, ◌≡◌, ◌⊎◌, inl, inr,
  refl, arith, Option-cases, same_key, map, ap,
}
use pg_tsy_core_bootstrap.Decimal.{Decimal, lt, same, is_zero, ◌≈◌}
use pg_tsy_core_bootstrap.Types.{Venue, Side}
use pg_tsy_core_bootstrap.Oms.{OrderRecord}
use pg_tsy_core_bootstrap.Execution.{VenuePositionSnapshot}
use pg_tsy_core_bootstrap.Reconcile.Defs.{Ownership, VenuePosition}

module _ {Q : Type 0} ⦃d : Decimal Q⦄ where
  -- The signed quantity of a fill; `none` where the order has no side.
  abbrev pub signed_fill : Option Side → Q → Option Q
  signed_fill none quantity = none
  signed_fill (some Side.buy) quantity = some quantity
  signed_fill (some Side.sell) quantity = some (d.neg quantity)

  abbrev pub is_relevant : String → OrderRecord Q → Bool
  is_relevant asset order = order.asset == asset && lt d.zero order.filled_quantity

  abbrev pub add_signed :
      String → Option Q → Option (BTreeMap String Q) → Option (BTreeMap String Q)
  add_signed owner (some quantity) (some totals) =
      some (insert owner (d.add (unwrap_or (get owner totals) d.zero) quantity) totals)
  add_signed owner _ _ = none

  -- The loop over the relevant orders; `none` where one of them has no side, which the code asks for
  -- before the loop.
  unfoldable pub net_by_strategy :
      List (OrderRecord Q) → Option (BTreeMap String Q) → Option (BTreeMap String Q)
  net_by_strategy [] totals = totals
  net_by_strategy (order ∷ orders) totals =
      net_by_strategy orders
        (add_signed order.owner_strategy_id (signed_fill order.side order.filled_quantity) totals)

  -- `retain`: the strategies whose net is not zero.
  abbrev pub with_position : BTreeMap String Q → BTreeMap String Q
  with_position = filter (λ (e : String × Q). not (is_zero e.1))

  -- The last tests: one strategy alone has a net, and it is the venue's quantity.
  abbrev pub sole_owner : Q → BTreeMap String Q → Ownership
  sole_owner venue_quantity ((strategy_id, quantity) ∷ []) =
      if same quantity venue_quantity then Ownership.strategy strategy_id else Ownership.unknown
  sole_owner venue_quantity _ = Ownership.unknown

  abbrev pub owner_of_nets : Q → Option (BTreeMap String Q) → Ownership
  owner_of_nets venue_quantity none = Ownership.unknown
  owner_of_nets venue_quantity (some nets) = sole_owner venue_quantity (with_position nets)

  abbrev pub owner_of_orders : Q → Option Ownership → List (OrderRecord Q) → Ownership
  owner_of_orders venue_quantity previous [] = unwrap_or previous Ownership.manual
  owner_of_orders venue_quantity previous (order ∷ orders) =
      owner_of_nets venue_quantity (net_by_strategy (order ∷ orders) (some []))

  unfoldable pub ownership_from_order_evidence :
      String → Q → List (OrderRecord Q) → Option Ownership → Ownership
  ownership_from_order_evidence asset venue_quantity orders previous =
      if is_zero venue_quantity
      then unwrap_or previous Ownership.unknown
      else owner_of_orders venue_quantity previous (filter (is_relevant asset) orders)

  -- The second loop of `infer_position_ownership`: what was owned and is no longer reported.
  unfoldable pub vanished : Venue → BTreeMap String Ownership → List (VenuePosition Q)
  vanished venue [] = []
  vanished venue ((asset, ownership) ∷ rest) =
      record { venue = venue; asset = asset; quantity = d.zero; ownership = ownership }
      ∷ vanished venue rest

  unfoldable pub infer_position_ownership :
      Venue
      → List (VenuePositionSnapshot Q)
      → List (OrderRecord Q)
      → BTreeMap String Ownership
      → List (VenuePosition Q)
  infer_position_ownership venue [] orders previous = vanished venue previous
  infer_position_ownership venue (snapshot ∷ snapshots) orders previous =
      record {
        venue = venue;
        asset = snapshot.asset;
        quantity = snapshot.quantity;
        ownership =
            ownership_from_order_evidence snapshot.asset snapshot.quantity orders
              (get snapshot.asset previous);
      }
      ∷ infer_position_ownership venue snapshots orders (remove snapshot.asset previous)
