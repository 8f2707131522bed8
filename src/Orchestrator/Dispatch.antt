-- ===== src/Orchestrator/Dispatch.antt =====
-- `DurableExecution::dispatch`.
pub mod Outcome
pub mod Progress
use pg_tsy_core_bootstrap.Prelude.{String, Option, none, some, Result, ok, err}
use pg_tsy_core_bootstrap.Decimal.{Decimal}
use pg_tsy_core_bootstrap.Types.{Uuid, OrderIntent, client_order_id}
use pg_tsy_core_bootstrap.Oms.{OrderEvent, OrderRecord, from_intent, apply, accept}
use pg_tsy_core_bootstrap.Execution.{
  ExecutionError, ExecutionAdapter, VenueOrderAck, execution_text,
}
use pg_tsy_core_bootstrap.Orchestrator.Defs.{
  OrchestratorError, Payload, DurableExecution, order_stream,
}
use pg_tsy_core_bootstrap.Orchestrator.Session.{
  Call, Action, pure, raise, attempt, of_oms, ◌>>=◌, ◌>>◌,
}
use pg_tsy_core_bootstrap.Orchestrator.Steps.{check_lease, save_record, journal, adapter_for}

module _ {Q W : Type 0} where
  -- The arm `Ok(ack)`.
  unfoldable pub acknowledged :
      DurableExecution Q W → String → OrderRecord Q → VenueOrderAck → Action Q W (OrderRecord Q)
  acknowledged self stream_id pending ack = do
    record' ← of_oms (accept ack.venue_order_id pending)
    save_record self record'
    journal self stream_id "order.dispatch.acknowledged"
        (Payload.dispatch_acknowledged ack.client_order_id ack.venue_order_id)
    pure record'

  -- The arm of an outcome that is not known.
  unfoldable pub lost :
      DurableExecution Q W → String → OrderRecord Q → ExecutionError → Action Q W (OrderRecord Q)
  lost self stream_id pending error = do
    record' ← of_oms (apply OrderEvent.lost_state pending)
    save_record self record'
    journal self stream_id "order.dispatch.unknown"
        (Payload.dispatch_failed record'.client_order_id (execution_text error))
    raise (OrchestratorError.ambiguous record'.client_order_id (execution_text error))

  -- The arm of any other error.
  unfoldable pub refused :
      DurableExecution Q W → String → OrderRecord Q → ExecutionError → Action Q W (OrderRecord Q)
  refused self stream_id pending error = do
    record' ← of_oms (apply OrderEvent.rejected pending)
    save_record self record'
    journal self stream_id "order.dispatch.rejected"
        (Payload.dispatch_failed record'.client_order_id (execution_text error))
    raise (OrchestratorError.execution error)

  -- The `match adapter.submit(intent).await`.
  abbrev pub finish_dispatch :
      DurableExecution Q W
      → String
      → OrderRecord Q
      → Result VenueOrderAck ExecutionError
      → Action Q W (OrderRecord Q)
  finish_dispatch self stream_id pending (ok ack) = acknowledged self stream_id pending ack
  finish_dispatch self stream_id pending (err (ExecutionError.unknown s)) =
      lost self stream_id pending (ExecutionError.unknown s)
  finish_dispatch self stream_id pending (err (ExecutionError.transport s)) =
      lost self stream_id pending (ExecutionError.transport s)
  finish_dispatch self stream_id pending (err error) = refused self stream_id pending error

module _ {Q W : Type 0} ⦃d : Decimal Q⦄ where
  unfoldable pub dispatch :
      (Uuid → String) → Uuid → DurableExecution Q W → OrderIntent Q → Action Q W (OrderRecord Q)
  dispatch simple new_id self intent = do
    check_lease self
    adapter ← adapter_for self intent.venue
    let stream_id = order_stream (client_order_id simple intent)
    let created = from_intent simple new_id intent
    save_record self created
    journal self stream_id "order.intent.persisted"
        (Payload.intent_persisted intent created.client_order_id)
    pending ← of_oms (apply OrderEvent.submit_requested created)
    save_record self pending
    journal self stream_id "order.dispatch.started"
        (Payload.dispatch_started pending.client_order_id)
    check_lease self
    outcome ← attempt (Call.submit intent) (adapter.submit intent)
    finish_dispatch self stream_id pending outcome
