-- ===== src/Orchestrator/Cycle.antt =====
-- `DurableExecution::reconcile_once`.
pub mod Calls
pub mod Reported
use Prim.Native.String.{◌++◌ as str_append}
use pg_tsy_core_bootstrap.Prelude.{
  ℕ, String, Bool, true, false, not, Option, none, some, List, [], ◌∷◌, ◌++◌, Result, ok, err, ◌||◌,
  ◌==◌, if◌then◌else◌, any, filter, length, ltb, BTreeMap, insert, string_eq, string_ord, option_eq,
}
use pg_tsy_core_bootstrap.Decimal.{Decimal}
use pg_tsy_core_bootstrap.Types.{Venue, venue_name}
use pg_tsy_core_bootstrap.Oms.{OrderRecord, is_terminal}
use pg_tsy_core_bootstrap.Execution.{ExecutionAdapter, VenueOrderSnapshot, find_by_client}
use pg_tsy_core_bootstrap.Reconcile.Defs.{Ownership, VenuePosition, ReconcileReport, clean}
use pg_tsy_core_bootstrap.Reconcile.Compare.{reconcile}
use pg_tsy_core_bootstrap.Orchestrator.Defs.{
  OrchestratorError, Payload, DurableExecution, ReconcileCycle,
}
use pg_tsy_core_bootstrap.Orchestrator.Session.{Call, Action, pure, raise, perform, ◌>>=◌, ◌>>◌}
use pg_tsy_core_bootstrap.Orchestrator.Steps.{
  check_lease, save_record, journal, find_order, adapter_for,
}
use pg_tsy_core_bootstrap.Orchestrator.Snapshot.{
  validate_snapshot, apply_snapshot, push_snapshot_conflict,
}
use pg_tsy_core_bootstrap.Orchestrator.Ownership.{infer_position_ownership}

module _ {Q : Type 0} where
  abbrev pub has_client : String → VenueOrderSnapshot Q → Bool
  has_client client_order_id remote = remote.client_order_id == some client_order_id

  abbrev pub with_found :
      List (VenueOrderSnapshot Q) → Option (VenueOrderSnapshot Q) → List (VenueOrderSnapshot Q)
  with_found venue_orders none = venue_orders
  with_found venue_orders (some remote) = venue_orders ++ remote ∷ []

  -- `collect()` of the stored positions.
  unfoldable pub stored_ownership :
      List (VenuePosition Q) → BTreeMap String Ownership → BTreeMap String Ownership
  stored_ownership [] index = index
  stored_ownership (position ∷ positions) index =
      stored_ownership positions (insert position.asset position.ownership index)

module _ {Q : Type 0} ⦃d : Decimal Q⦄ where
  -- The loop over the matching venue orders.
  unfoldable pub check_matching :
      OrderRecord Q → List (VenueOrderSnapshot Q) → ReconcileReport Q → ReconcileReport Q
  check_matching local [] report = report
  check_matching local (remote ∷ remotes) report =
      check_matching local remotes (elim (validate_snapshot local remote) [
        | ok _ ↦ report
        | err reason ↦ push_snapshot_conflict report local remote.asset
      ])

  -- The loop over the local orders before the report is stored.
  unfoldable pub check_snapshots :
      List (OrderRecord Q) → List (VenueOrderSnapshot Q) → ReconcileReport Q → ReconcileReport Q
  check_snapshots [] venue_orders report = report
  check_snapshots (local ∷ locals) venue_orders report =
      let matching = filter (has_client local.client_order_id) venue_orders in
      check_snapshots locals venue_orders (
        check_matching local matching (
          if ltb 1 (length matching)
          then push_snapshot_conflict report local local.asset
          else report))

  -- The report of a cycle.
  unfoldable pub cycle_report :
      Venue
      → List (OrderRecord Q)
      → List (VenueOrderSnapshot Q)
      → List (VenuePosition Q)
      → ReconcileReport Q
  cycle_report venue local_orders venue_orders positions =
      check_snapshots local_orders venue_orders
        (reconcile venue local_orders venue_orders positions)

module _ {Q W : Type 0} ⦃d : Decimal Q⦄ where
  -- The loop that asks the venue for each live order that its open orders lack.
  unfoldable pub find_missing :
      ExecutionAdapter Q W
      → List (OrderRecord Q)
      → List (VenueOrderSnapshot Q)
      → Action Q W (List (VenueOrderSnapshot Q))
  unfolding is_terminal
  find_missing adapter [] venue_orders = pure venue_orders
  find_missing adapter (local ∷ locals) venue_orders = do
    extended ←
        (if is_terminal local || any (has_client local.client_order_id) venue_orders
          then pure venue_orders
          else (find_order adapter local.client_order_id >>= λ found.
              pure (with_found venue_orders found)))
    find_missing adapter locals extended

  -- The loop that applies the venue's orders; it returns the local orders as it leaves them.
  unfoldable pub apply_order :
      DurableExecution Q W
      → OrderRecord Q
      → Option (VenueOrderSnapshot Q)
      → Action Q W (OrderRecord Q)
  apply_order self local none = pure local
  apply_order self local (some remote) = do
    save_record self (apply_snapshot local remote)
    pure (apply_snapshot local remote)

  unfoldable pub apply_orders :
      DurableExecution Q W
      → List (OrderRecord Q)
      → List (VenueOrderSnapshot Q)
      → Action Q W (List (OrderRecord Q))
  apply_orders self [] venue_orders = pure []
  apply_orders self (local ∷ locals) venue_orders = do
    settled ← apply_order self local (find_by_client local.client_order_id venue_orders)
    rest ← apply_orders self locals venue_orders
    pure (settled ∷ rest)

  unfoldable pub save_positions :
      DurableExecution Q W → List (VenuePosition Q) → Action Q W (Unit {0})
  save_positions self [] = pure tt
  save_positions self (position ∷ positions) = do
    perform (Call.save_position position) OrchestratorError.store
        (self.store.save_position_state position self.lease.fencing_token)
    save_positions self positions

  -- What follows a clean report.
  unfoldable pub settle_cycle :
      DurableExecution Q W
      → Venue
      → ReconcileReport Q
      → List (OrderRecord Q)
      → List (VenueOrderSnapshot Q)
      → List (VenuePosition Q)
      → Action Q W (ReconcileCycle Q)
  settle_cycle self venue report local_orders venue_orders positions = do
    check_lease self
    orders ← apply_orders self local_orders venue_orders
    save_positions self positions
    pure (record { venue = venue; report = report; orders = orders; positions = positions })

  -- From the report on.
  unfoldable pub finish_cycle :
      DurableExecution Q W
      → Venue
      → ReconcileReport Q
      → List (OrderRecord Q)
      → List (VenueOrderSnapshot Q)
      → List (VenuePosition Q)
      → Action Q W (ReconcileCycle Q)
  finish_cycle self venue report local_orders venue_orders positions = do
    check_lease self
    perform (Call.save_report venue report) OrchestratorError.store
        (self.store.save_reconcile_report venue report self.lease.fencing_token)
    journal self (str_append "reconcile:" (venue_name venue)) "reconcile.completed"
        (Payload.reconcile_completed report local_orders venue_orders)
    (if not (clean report)
        then pure (record {
          venue = venue;
          report = report;
          orders = local_orders;
          positions = positions;
        })
        else settle_cycle self venue report local_orders venue_orders positions)

  unfoldable pub reconcile_once : DurableExecution Q W → Venue → Action Q W (ReconcileCycle Q)
  reconcile_once self venue = do
    check_lease self
    adapter ← adapter_for self venue
    local_orders ←
        perform (Call.load_orders venue) OrchestratorError.store
          (self.store.load_orders_for_venue venue)
    listed ← perform Call.open_orders OrchestratorError.execution adapter.open_orders
    venue_orders ← find_missing adapter local_orders listed
    stored_positions ←
        perform (Call.load_positions venue) OrchestratorError.store
          (self.store.load_position_states venue)
    venue_positions ← perform Call.positions OrchestratorError.execution adapter.positions
    let positions =
        infer_position_ownership venue venue_positions local_orders
          (stored_ownership stored_positions [])
    finish_cycle self venue (cycle_report venue local_orders venue_orders positions) local_orders
        venue_orders positions
