-- ===== src/Reconcile/Examples.antt =====
-- rust/crates/pg-reconcile/src/lib.rs: the theorems at concrete orders and positions.
use pg_tsy_core_bootstrap.Reconcile.Compare.{check_positions}
use pg_tsy_core_bootstrap.Reconcile.Compare.{is_unresolved}
use pg_tsy_core_bootstrap.Prelude.{is_empty}
use pg_tsy_core_bootstrap.Reconcile.Compare.{contract_differs}
use pg_tsy_core_bootstrap.Reconcile.Compare.{compare_orders}
use pg_tsy_core_bootstrap.Reconcile.Compare.{venue_by_client}
use pg_tsy_core_bootstrap.Oms.{is_terminal}
use pg_tsy_core_bootstrap.Reconcile.Compare.{is_live}
use pg_tsy_core_bootstrap.Reconcile.Compare.{check_locals}
use pg_tsy_core_bootstrap.Prelude.{insert}
use pg_tsy_core_bootstrap.Reconcile.Compare.{local_by_client}
use pg_tsy_core_bootstrap.Prelude.{get}
use pg_tsy_core_bootstrap.Reconcile.Compare.{is_known}
use pg_tsy_core_bootstrap.Reconcile.Compare.{check_remote}
use pg_tsy_core_bootstrap.Prelude.{
  ℤ, true, some, none, pos, ◌≡◌, ◌↔◌, refl, List, [], ◌∷◌, ◌++◌, any, ◌==◌, string_eq,
}
use pg_tsy_core_bootstrap.Samples.{whole_numbers}
use pg_tsy_core_bootstrap.Types.{Venue, Side, ExposureEffect, asset_key_eq}
use pg_tsy_core_bootstrap.Oms.{OrderRecord, OrderState}
use pg_tsy_core_bootstrap.Execution.{VenueOrderSnapshot, VenueOrderState}
use pg_tsy_core_bootstrap.Reconcile.Defs.{
  Ownership, VenuePosition, asset_key, issue_key, clean, blocks,
}
use pg_tsy_core_bootstrap.Reconcile.Compare.{reconcile}
use pg_tsy_core_bootstrap.Reconcile.Issues.{all_issues, last_with_client}
use pg_tsy_core_bootstrap.Reconcile.Report.{reconcile-issues}
use pg_tsy_core_bootstrap.Reconcile.Agreement.{IsReconciled, reconcile-clean_iff}
use pg_tsy_core_bootstrap.Reconcile.Holds.{reconcile-blocks_local}

abbrev own_order : OrderRecord ℤ
own_order = record {
  order_id = 7;
  intent_id = 1;
  client_order_id = "pg0001";
  venue_order_id = some "v1";
  venue = Venue.binance_pm;
  asset = "BTCUSDT";
  owner_strategy_id = "trend";
  side = some Side.buy;
  effect = some ExposureEffect.increase;
  requested_quantity = pos 5;
  filled_quantity = pos 2;
  state = OrderState.partially_filled;
}

abbrev venue_order : VenueOrderSnapshot ℤ
venue_order = record {
  venue_order_id = "v1";
  client_order_id = some "pg0001";
  asset = "BTCUSDT";
  side = Side.buy;
  requested_quantity = pos 5;
  filled_quantity = pos 2;
  limit_price = none;
  state = VenueOrderState.partially_filled;
}

abbrev positions : List (VenuePosition ℤ)
positions =
    record {
      venue = Venue.hyperliquid;
      asset = "ETH";
      quantity = pos 1;
      ownership = Ownership.manual;
    }
    ∷ []

agreeing_books :
    clean (reconcile Venue.binance_pm (own_order ∷ []) (venue_order ∷ []) positions) ≡ true
unfolding clean reconcile check_remote is_known get local_by_client insert check_locals is_live
    is_terminal venue_by_client compare_orders contract_differs is_empty is_unresolved
    check_positions
agreeing_books = refl

reconcile-issues_example :
    let report = reconcile Venue.binance_pm (own_order ∷ []) [] positions in
    let expected = all_issues Venue.binance_pm (own_order ∷ []) [] positions in
    (report.issues ≡ expected)
    × (blocks report Venue.binance_pm "BTCUSDT"
        ≡ any (λ i. asset_key Venue.binance_pm "BTCUSDT" == issue_key i) expected)
reconcile-issues_example =
    reconcile-issues Venue.binance_pm (own_order ∷ []) [] positions Venue.binance_pm "BTCUSDT"

reconcile-clean_iff_example :
    (clean (reconcile Venue.binance_pm (own_order ∷ []) (venue_order ∷ []) positions) ≡ true)
    ↔ IsReconciled Venue.binance_pm (own_order ∷ []) (venue_order ∷ []) positions
reconcile-clean_iff_example =
    reconcile-clean_iff Venue.binance_pm (own_order ∷ []) (venue_order ∷ []) positions

reconcile-blocks_local_example :
    blocks
      (reconcile Venue.binance_pm ([] ++ own_order ∷ []) [] positions)
      Venue.binance_pm
      "BTCUSDT"
    ≡ true
unfolding is_live is_terminal last_with_client
reconcile-blocks_local_example =
    reconcile-blocks_local Venue.binance_pm [] [] own_order [] positions refl (λ h. h)
