-- ===== src/Orchestrator/Recovery.antt =====
-- `DurableExecution::recover_ambiguous`.
use pg_tsy_core_bootstrap.Prelude.{
  String, Bool, true, false, Option, none, some, List, [], ◌∷◌, ◌||◌, ◌==◌, if◌then◌else◌,
}
use pg_tsy_core_bootstrap.Decimal.{Decimal}
use pg_tsy_core_bootstrap.Types.{Venue}
use pg_tsy_core_bootstrap.Oms.{OrderState, OrderRecord, state_eq}
use pg_tsy_core_bootstrap.Execution.{ExecutionAdapter, VenueOrderSnapshot}
use pg_tsy_core_bootstrap.Orchestrator.Defs.{
  OrchestratorError, Payload, DurableExecution, RecoveryItem, RecoveryReport, order_stream,
}
use pg_tsy_core_bootstrap.Orchestrator.Session.{Call, Action, pure, perform, ◌>>=◌, ◌>>◌}
use pg_tsy_core_bootstrap.Orchestrator.Steps.{
  check_lease, save_record, journal, find_order, adapter_for, checked_snapshot,
}

module _ {Q : Type 0} where
  abbrev pub recovery_item : OrderRecord Q → Bool → RecoveryItem Q
  recovery_item order resolved = record {
    venue = order.venue;
    asset = order.asset;
    client_order_id = order.client_order_id;
    state = order.state;
    venue_order_id = order.venue_order_id;
    filled_quantity = order.filled_quantity;
    resolved = resolved;
  }

  -- `matches!(order.state, PendingSubmit | Unknown)`.
  abbrev pub is_ambiguous : OrderRecord Q → Bool
  is_ambiguous order = order.state == OrderState.pending_submit || order.state == OrderState.unknown

module _ {Q W : Type 0} ⦃d : Decimal Q⦄ where
  -- The `match remote`: the order and whether it is resolved.
  unfoldable pub resolve_order :
      DurableExecution Q W
      → OrderRecord Q
      → String
      → Option (VenueOrderSnapshot Q)
      → Action Q W (OrderRecord Q × Bool)
  resolve_order self order stream_id (some snapshot) = do
    settled ← checked_snapshot self order snapshot stream_id
    journal self stream_id "order.recovery.resolved" (Payload.recovery_resolved snapshot)
    pure (settled, true)
  resolve_order self order stream_id none = do
    journal self stream_id "order.recovery.unresolved"
        (Payload.recovery_unresolved order.client_order_id "safe_hold_no_resubmit")
    pure (record order { state = OrderState.unknown }, false)

  -- One round of the loop.
  unfoldable pub recover_order :
      DurableExecution Q W → ExecutionAdapter Q W → OrderRecord Q → Action Q W (RecoveryItem Q)
  recover_order self adapter order = do
    remote ← find_order adapter order.client_order_id
    outcome ← resolve_order self order (order_stream order.client_order_id) remote
    save_record self outcome.0
    pure (recovery_item outcome.0 outcome.1)

  unfoldable pub recover_orders :
      DurableExecution Q W
      → ExecutionAdapter Q W
      → List (OrderRecord Q)
      → Action Q W (List (RecoveryItem Q))
  recover_orders self adapter [] = pure []
  recover_orders self adapter (order ∷ orders) =
      let rest = recover_orders self adapter orders in
      if is_ambiguous order
      then (recover_order self adapter order >>= λ item. rest >>= λ items. pure (item ∷ items))
      else rest

  unfoldable pub recover_ambiguous : DurableExecution Q W → Venue → Action Q W (RecoveryReport Q)
  recover_ambiguous self venue = do
    check_lease self
    adapter ← adapter_for self venue
    orders ←
        perform (Call.load_orders venue) OrchestratorError.store
          (self.store.load_orders_for_venue venue)
    items ← recover_orders self adapter orders
    pure (record { venue = some venue; items = items })
