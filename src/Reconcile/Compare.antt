-- ===== src/Reconcile/Compare.antt =====
-- `reconcile`: its three loops thread the report.
use pg_tsy_core_bootstrap.Prelude.{
  String, Bool, not, ◌&&◌, ◌||◌, Option, none, some, List, [], ◌∷◌, ◌==◌, ◌!=◌, string_eq,
  option_eq, string_ord, BTreeMap, get, insert, is_some, is_some_and, is_empty, if◌then◌else◌,
}
use pg_tsy_core_bootstrap.Decimal.{Decimal, same, is_zero}
use pg_tsy_core_bootstrap.Types.{Venue, venue_eq, AssetKey, side_eq}
use pg_tsy_core_bootstrap.Types.Keys.{asset_key_ord}
use pg_tsy_core_bootstrap.Oms.{OrderRecord, OrderState, state_eq, is_terminal}
use pg_tsy_core_bootstrap.Execution.{VenueOrderSnapshot, is_unknown}
use pg_tsy_core_bootstrap.Reconcile.Defs.{
  is_unowned, VenuePosition, position_key, ReconcileIssue, ReconcileReport, no_issues, push_issue,
}

module _ {Q : Type 0} where
  abbrev pub add_by_client :
      Option String
      → VenueOrderSnapshot Q
      → BTreeMap String (VenueOrderSnapshot Q)
      → BTreeMap String (VenueOrderSnapshot Q)
  add_by_client none order index = index
  add_by_client (some client_id) order index = insert client_id order index

  -- `collect()` into a map: of two orders with one client id the later stays.
  unfoldable pub venue_by_client :
      List (VenueOrderSnapshot Q)
      → BTreeMap String (VenueOrderSnapshot Q)
      → BTreeMap String (VenueOrderSnapshot Q)
  venue_by_client [] index = index
  venue_by_client (order ∷ orders) index =
      venue_by_client orders (add_by_client order.client_order_id order index)

  unfoldable pub local_by_client :
      Venue
      → List (OrderRecord Q)
      → BTreeMap String (OrderRecord Q)
      → BTreeMap String (OrderRecord Q)
  local_by_client venue [] index = index
  local_by_client venue (order ∷ orders) index =
      local_by_client venue orders
        (if order.venue == venue then insert order.client_order_id order index else index)

  abbrev pub local_key : OrderRecord Q → AssetKey
  local_key local = record { venue = local.venue; asset = local.asset }

  -- `known` in the last loop.
  unfoldable pub is_known : BTreeMap String (OrderRecord Q) → VenueOrderSnapshot Q → Bool
  is_known index remote =
      is_some_and remote.client_order_id (λ client_id. is_some (get client_id index))

  unfoldable pub check_remote :
      Venue
      → BTreeMap String (OrderRecord Q)
      → List (VenueOrderSnapshot Q)
      → ReconcileReport Q
      → ReconcileReport Q
  check_remote venue index [] report = report
  check_remote venue index (remote ∷ remotes) report = check_remote venue index remotes (
      if is_known index remote
      then report
      else push_issue report (
          ReconcileIssue.venue_order_missing_locally
            (record { venue = venue; asset = remote.asset }) remote.client_order_id
            remote.venue_order_id))

module _ {Q : Type 0} ⦃d : Decimal Q⦄ where
  unfoldable pub check_positions :
      Venue → List (VenuePosition Q) → ReconcileReport Q → ReconcileReport Q
  check_positions venue [] report = report
  check_positions venue (position ∷ positions) report = check_positions venue positions (
      if position.venue == venue
        && (is_unowned position.ownership && not (is_zero position.quantity))
      then push_issue report
          (ReconcileIssue.unknown_position_ownership (position_key position) position.quantity)
      else report)

  -- The long condition of the contract check.
  unfoldable pub contract_differs : OrderRecord Q → VenueOrderSnapshot Q → Bool
  contract_differs local remote =
      remote.asset != local.asset
      || local.side != some remote.side
      || not (same remote.requested_quantity local.requested_quantity)
      || is_some_and local.venue_order_id (λ id. id != remote.venue_order_id)
      || is_empty remote.venue_order_id

  -- What `contract_differs` leads to: a remote order on another asset freezes both.
  unfoldable pub report_contract :
      Venue → OrderRecord Q → VenueOrderSnapshot Q → ReconcileReport Q → ReconcileReport Q
  report_contract venue local remote report =
      let once = push_issue report (
        ReconcileIssue.order_contract_mismatch (local_key local) local.client_order_id
          remote.asset) in
      if remote.asset != local.asset
      then push_issue once (
          ReconcileIssue.order_contract_mismatch (record { venue = venue; asset = remote.asset })
            local.client_order_id remote.asset)
      else once

  unfoldable pub is_unresolved : OrderRecord Q → VenueOrderSnapshot Q → Bool
  is_unresolved local remote = local.state == OrderState.unknown || is_unknown remote.state

  -- The arm `Some(remote)`.
  unfoldable pub compare_orders :
      Venue → OrderRecord Q → VenueOrderSnapshot Q → ReconcileReport Q → ReconcileReport Q
  compare_orders venue local remote report =
      let report =
        if not (same remote.filled_quantity local.filled_quantity)
        then push_issue report (
            ReconcileIssue.filled_quantity_mismatch (local_key local) local.client_order_id
              local.filled_quantity remote.filled_quantity)
        else report in
      let report =
        if is_unresolved local remote
        then push_issue report
            (ReconcileIssue.unresolved_order_state (local_key local) local.client_order_id)
        else report in
      if contract_differs local remote then report_contract venue local remote report else report

  abbrev pub check_local :
      Venue → OrderRecord Q → Option (VenueOrderSnapshot Q) → ReconcileReport Q → ReconcileReport Q
  check_local venue local none report = push_issue report (
      ReconcileIssue.local_order_missing_at_venue (local_key local) local.client_order_id
        local.state)
  check_local venue local (some remote) report = compare_orders venue local remote report

  -- The filter of the second loop.
  unfoldable pub is_live : Venue → OrderRecord Q → Bool
  is_live venue order = order.venue == venue && not (is_terminal order)

  unfoldable pub check_locals :
      Venue
      → BTreeMap String (VenueOrderSnapshot Q)
      → List (OrderRecord Q)
      → ReconcileReport Q
      → ReconcileReport Q
  check_locals venue index [] report = report
  check_locals venue index (local ∷ locals) report = check_locals venue index locals (
      if is_live venue local
      then check_local venue local (get local.client_order_id index) report
      else report)

  unfoldable pub reconcile :
      Venue
      → List (OrderRecord Q)
      → List (VenueOrderSnapshot Q)
      → List (VenuePosition Q)
      → ReconcileReport Q
  reconcile venue local_orders venue_orders positions =
      check_remote venue (local_by_client venue local_orders []) venue_orders (
        check_locals venue (venue_by_client venue_orders []) local_orders
          (check_positions venue positions no_issues))
