-- ===== src/Orchestrator/Snapshot.antt =====
-- `validate_snapshot`, `apply_snapshot` and `push_snapshot_conflict`.
pub mod Laws
use pg_tsy_core_bootstrap.Prelude.{
  String, Bool, true, false, not, ◌&&◌, ◌||◌, Option, none, some, List, [], ◌∷◌, ◌++◌, Result, ok,
  err, bail_if, ◌>>◌, is_some_and, is_empty, ◌==◌, ◌!=◌, string_eq, option_eq, if◌then◌else◌,
  insert,
}
use pg_tsy_core_bootstrap.Decimal.{Decimal, le, lt, same}
use pg_tsy_core_bootstrap.Types.{side_eq}
use pg_tsy_core_bootstrap.Oms.{OrderState, OrderRecord, is_terminal, state_eq}
use pg_tsy_core_bootstrap.Execution.{VenueOrderState, VenueOrderSnapshot, venue_state_eq}
use pg_tsy_core_bootstrap.Reconcile.Defs.{asset_key, ReconcileIssue, ReconcileReport, push_issue}
use pg_tsy_core_bootstrap.Reconcile.Compare.{local_key}

-- The `matches!` of `same_terminal`.
abbrev pub same_terminal : OrderState → VenueOrderState → Bool
same_terminal OrderState.filled VenueOrderState.filled = true
same_terminal OrderState.canceled VenueOrderState.canceled = true
same_terminal OrderState.rejected VenueOrderState.rejected = true
same_terminal _ _ = false

-- The `match snapshot.state` of `apply_snapshot`.
abbrev pub local_state : VenueOrderState → OrderState
local_state VenueOrderState.opened = OrderState.opened
local_state VenueOrderState.partially_filled = OrderState.partially_filled
local_state VenueOrderState.filled = OrderState.filled
local_state VenueOrderState.canceled = OrderState.canceled
local_state VenueOrderState.rejected = OrderState.rejected
local_state VenueOrderState.unknown = OrderState.unknown

module _ {Q : Type 0} where
  unfoldable pub apply_snapshot : OrderRecord Q → VenueOrderSnapshot Q → OrderRecord Q
  apply_snapshot record' snapshot = record record' {
    venue_order_id = some snapshot.venue_order_id;
    filled_quantity = snapshot.filled_quantity;
    state = local_state snapshot.state;
  }

  unfoldable pub push_snapshot_conflict :
      ReconcileReport Q → OrderRecord Q → String → ReconcileReport Q
  push_snapshot_conflict report local remote_asset =
      let once = push_issue report (
        ReconcileIssue.order_contract_mismatch (local_key local) local.client_order_id
          remote_asset) in
      if remote_asset != local.asset
      then push_issue once (
          ReconcileIssue.order_contract_mismatch (asset_key local.venue remote_asset)
            local.client_order_id remote_asset)
      else once

module _ {Q : Type 0} ⦃d : Decimal Q⦄ where
  abbrev pub contract_conflict : OrderRecord Q → VenueOrderSnapshot Q → Bool
  contract_conflict record' snapshot =
      snapshot.asset != record'.asset
      || record'.side != some snapshot.side
      || not (same snapshot.requested_quantity record'.requested_quantity)
      || is_empty snapshot.venue_order_id
      || is_some_and record'.venue_order_id (λ id. id != snapshot.venue_order_id)

  abbrev pub fill_conflict : OrderRecord Q → VenueOrderSnapshot Q → Bool
  fill_conflict record' snapshot =
      lt snapshot.filled_quantity d.zero
      || lt record'.requested_quantity snapshot.filled_quantity
      || not (same snapshot.filled_quantity record'.filled_quantity)

  abbrev pub partial_conflict : OrderRecord Q → VenueOrderSnapshot Q → Bool
  partial_conflict record' snapshot =
      snapshot.state == VenueOrderState.partially_filled
      && (le snapshot.filled_quantity d.zero
          || le record'.requested_quantity snapshot.filled_quantity)

  abbrev pub unsubmitted_conflict : OrderRecord Q → VenueOrderSnapshot Q → Bool
  unsubmitted_conflict record' snapshot =
      record'.state == OrderState.created && not (snapshot.state == VenueOrderState.rejected)

  unfoldable pub validate_snapshot : OrderRecord Q → VenueOrderSnapshot Q → Result (Unit {0}) String
  unfolding is_terminal
  validate_snapshot record' snapshot = do
    bail_if (snapshot.client_order_id != some record'.client_order_id)
        "client order id mismatch or absent"
    bail_if (contract_conflict record' snapshot) "order contract or venue id mismatch"
    bail_if (fill_conflict record' snapshot)
        "cumulative fill mismatch: reconcile trade IDs and fees first"
    bail_if (snapshot.state == VenueOrderState.unknown)
        "unknown order state requires explicit recovery evidence"
    bail_if (is_terminal record' && not (same_terminal record'.state snapshot.state))
        "terminal order state conflict or resurrection"
    bail_if
        (snapshot.state == VenueOrderState.filled
          && not (same snapshot.filled_quantity record'.requested_quantity))
        "filled status without full quantity"
    bail_if (partial_conflict record' snapshot)
        "partial fill status contradicts cumulative quantity"
    bail_if (unsubmitted_conflict record' snapshot) "unsubmitted local order found remotely"
    ok tt
