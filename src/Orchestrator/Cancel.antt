-- ===== src/Orchestrator/Cancel.antt =====
-- `DurableExecution::cancel_order`.
use Prim.Native.String.{◌++◌ as str_append}
use pg_tsy_core_bootstrap.Prelude.{
  String, Option, none, some, Result, ok, err, ◌||◌, not, ◌==◌, if◌then◌else◌,
}
use pg_tsy_core_bootstrap.Decimal.{Decimal}
use pg_tsy_core_bootstrap.Oms.{OrderState, OrderEvent, OrderRecord, apply, is_terminal, state_eq}
use pg_tsy_core_bootstrap.Execution.{
  ExecutionError, ExecutionAdapter, VenueOrderSnapshot, OrderLocator, execution_text,
}
use pg_tsy_core_bootstrap.Orchestrator.Defs.{
  OrchestratorError, Payload, DurableExecution, order_stream, state_name,
}
use pg_tsy_core_bootstrap.Orchestrator.Session.{
  Call, Action, pure, raise, attempt, of_oms, ◌>>=◌, ◌>>◌,
}
use pg_tsy_core_bootstrap.Orchestrator.Steps.{
  check_lease, save_record, journal, find_order, adapter_for, checked_snapshot,
}

abbrev pub locator_of : {Q : Type 0} → OrderRecord Q → OrderLocator
locator_of record' = record {
  asset = record'.asset;
  venue_order_id = record'.venue_order_id;
  client_order_id = record'.client_order_id;
}

module _ {Q W : Type 0} ⦃d : Decimal Q⦄ where
  -- The `match` on the order found after the venue confirmed the cancel.
  unfoldable pub after_cancel :
      DurableExecution Q W
      → String
      → OrderRecord Q
      → Option (VenueOrderSnapshot Q)
      → Action Q W (OrderRecord Q)
  after_cancel self stream_id record' (some snapshot) = do
    settled ← checked_snapshot self record' snapshot stream_id
    save_record self settled
    journal self stream_id "order.cancel.reconciled" (Payload.cancel_reconciled settled.state)
    pure settled
  after_cancel self stream_id record' none = do
    journal self stream_id "order.cancel.unresolved"
        (Payload.cancel_unresolved record'.client_order_id "terminal order history unavailable")
    raise (
        OrchestratorError.ambiguous record'.client_order_id
          "terminal order history unavailable after cancel")

  -- The arm of a cancel whose outcome is not known.
  unfoldable pub lost_cancel :
      DurableExecution Q W → String → OrderRecord Q → ExecutionError → Action Q W (OrderRecord Q)
  lost_cancel self stream_id record' error = do
    lost ← of_oms (apply OrderEvent.lost_state record')
    save_record self lost
    journal self stream_id "order.cancel.unknown" (Payload.cancel_unknown (execution_text error))
    raise (OrchestratorError.ambiguous lost.client_order_id (execution_text error))

  -- The `match adapter.cancel(…).await`.
  unfoldable pub finish_cancel :
      DurableExecution Q W
      → ExecutionAdapter Q W
      → String
      → OrderRecord Q
      → Result (Unit {0}) ExecutionError
      → Action Q W (OrderRecord Q)
  finish_cancel self adapter stream_id record' (ok _) = do
    found ← find_order adapter record'.client_order_id
    after_cancel self stream_id record' found
  finish_cancel self adapter stream_id record' (err (ExecutionError.unknown s)) =
      lost_cancel self stream_id record' (ExecutionError.unknown s)
  finish_cancel self adapter stream_id record' (err (ExecutionError.transport s)) =
      lost_cancel self stream_id record' (ExecutionError.transport s)
  finish_cancel self adapter stream_id record' (err error) =
      raise (OrchestratorError.execution error)

  -- The request, which a record that is already in `PendingCancel` has made before.
  unfoldable pub request_cancel :
      DurableExecution Q W → String → OrderRecord Q → Action Q W (OrderRecord Q)
  request_cancel self stream_id record' = do
    pending ← of_oms (apply OrderEvent.cancel_requested record')
    save_record self pending
    journal self stream_id "order.cancel.started" (Payload.cancel_started pending.client_order_id)
    pure pending

  unfoldable pub send_cancel :
      DurableExecution Q W
      → ExecutionAdapter Q W
      → String
      → OrderRecord Q
      → Action Q W (OrderRecord Q)
  send_cancel self adapter stream_id record' = do
    check_lease self
    outcome ← attempt (Call.cancel (locator_of record')) (adapter.cancel (locator_of record'))
    finish_cancel self adapter stream_id record' outcome

  -- The guard before the call of the venue.
  unfoldable pub cancel_pending :
      DurableExecution Q W
      → ExecutionAdapter Q W
      → String
      → OrderRecord Q
      → Action Q W (OrderRecord Q)
  cancel_pending self adapter stream_id record' =
      if not (record'.state == OrderState.pending_cancel)
      then raise (
          OrchestratorError.ambiguous record'.client_order_id
            (str_append "order is not safely cancelable from " (state_name record'.state)))
      else send_cancel self adapter stream_id record'

  unfoldable pub cancel_working :
      DurableExecution Q W
      → ExecutionAdapter Q W
      → String
      → OrderRecord Q
      → Action Q W (OrderRecord Q)
  cancel_working self adapter stream_id record' = do
    current ←
        (if record'.state == OrderState.opened || record'.state == OrderState.partially_filled
          then request_cancel self stream_id record'
          else pure record')
    cancel_pending self adapter stream_id current

  -- The `let Some(snapshot) = remote else`, for an order whose submission is in doubt.
  unfoldable pub resolve_first :
      DurableExecution Q W
      → ExecutionAdapter Q W
      → String
      → OrderRecord Q
      → Option (VenueOrderSnapshot Q)
      → Action Q W (OrderRecord Q)
  unfolding is_terminal
  resolve_first self adapter stream_id record' none = do
    save_record self (record record' { state = OrderState.unknown })
    raise (
        OrchestratorError.ambiguous record'.client_order_id
          "cannot prove a cancelable venue order exists")
  resolve_first self adapter stream_id record' (some snapshot) = do
    settled ← checked_snapshot self record' snapshot stream_id
    (if is_terminal settled
        then save_record self settled >> pure settled
        else cancel_working self adapter stream_id settled)

  unfoldable pub cancel_live :
      DurableExecution Q W
      → ExecutionAdapter Q W
      → String
      → OrderRecord Q
      → Action Q W (OrderRecord Q)
  cancel_live self adapter stream_id record' =
      if record'.state == OrderState.pending_submit || record'.state == OrderState.unknown
      then (find_order adapter record'.client_order_id >>= λ remote.
          resolve_first self adapter stream_id record' remote)
      else cancel_working self adapter stream_id record'

  unfoldable pub cancel_order : DurableExecution Q W → OrderRecord Q → Action Q W (OrderRecord Q)
  unfolding is_terminal
  cancel_order self input = do
    check_lease self
    (if is_terminal input
        then pure input
        else adapter_for self input.venue >>= λ adapter.
            cancel_live self adapter (order_stream input.client_order_id) input)
