-- ===== src/Orchestrator/Steps.antt =====
-- The calls on the store and the adapters that the methods share, and `checked_snapshot`.
use pg_tsy_core_bootstrap.Prelude.{ℤ, String, Option, none, some, Result, ok, err, get, ◌≡◌, refl}
use pg_tsy_core_bootstrap.Decimal.{Decimal}
use pg_tsy_core_bootstrap.Types.{Venue}
use pg_tsy_core_bootstrap.Types.Keys.{venue_ord}
use pg_tsy_core_bootstrap.Oms.{OrderRecord}
use pg_tsy_core_bootstrap.Execution.{ExecutionAdapter, VenueOrderSnapshot}
use pg_tsy_core_bootstrap.Orchestrator.Defs.{OrchestratorError, Payload, DurableExecution}
use pg_tsy_core_bootstrap.Orchestrator.Session.{
  Call, Session, Action, pure, raise, perform, ◌>>=◌, ◌>>◌,
}
use pg_tsy_core_bootstrap.Orchestrator.Snapshot.{validate_snapshot, apply_snapshot}

module _ {Q W : Type 0} where
  abbrev pub check_lease : DurableExecution Q W → Action Q W (Unit {0})
  check_lease self =
      perform Call.assert_lease OrchestratorError.store (self.store.assert_lease self.lease)

  abbrev pub save_record : DurableExecution Q W → OrderRecord Q → Action Q W (Unit {0})
  save_record self record' =
      perform (Call.save_order record') OrchestratorError.store
        (self.store.save_order_record record' self.lease.fencing_token)

  abbrev pub journal : DurableExecution Q W → String → String → Payload Q → Action Q W ℤ
  journal self stream_id event_type payload =
      perform (Call.append_event stream_id event_type payload) OrchestratorError.store
        (self.store.append_event stream_id event_type payload self.lease.fencing_token)

  abbrev pub find_order : ExecutionAdapter Q W → String → Action Q W (Option (VenueOrderSnapshot Q))
  find_order adapter client_order_id =
      perform (Call.find_order client_order_id) OrchestratorError.execution
        (adapter.find_order_by_client_id client_order_id)

  -- `AdapterRegistry::register` and `get`, with the error of the callers.
  unfoldable pub or_missing :
      Option (ExecutionAdapter Q W) → Venue → Action Q W (ExecutionAdapter Q W)
  or_missing none venue = raise (OrchestratorError.missing_adapter venue)
  or_missing (some adapter) venue = pure adapter

  unfoldable pub adapter_for : DurableExecution Q W → Venue → Action Q W (ExecutionAdapter Q W)
  adapter_for self venue = or_missing (get venue self.adapters) venue

  pub adapter_paths {ℓ} :
      {B : Type 0} (P : Result B OrchestratorError × Session Q W → Type ℓ)
      (self : DurableExecution Q W) (venue : Venue) (k : ExecutionAdapter Q W → Action Q W B)
      (s : Session Q W)
      → P (err (OrchestratorError.missing_adapter venue), s)
      → ((adapter : ExecutionAdapter Q W)
          → get venue self.adapters ≡ some adapter
          → P (k adapter s))
      → P ((adapter_for self venue >>= k) s)
  unfolding adapter_for or_missing pure raise ◌>>=◌
  adapter_paths P self venue k s missing found =
      found_or_not (get venue self.adapters) missing found
    where
      found_or_not :
          (o : Option (ExecutionAdapter Q W))
          → P (err (OrchestratorError.missing_adapter venue), s)
          → ((adapter : ExecutionAdapter Q W) → o ≡ some adapter → P (k adapter s))
          → P ((or_missing o venue >>= k) s)
      found_or_not none missing found = missing
      found_or_not (some adapter) missing found = found adapter refl

module _ {Q W : Type 0} ⦃d : Decimal Q⦄ where
  -- The outcome of the validation, which is noted in the journal when it fails.
  unfoldable pub settle_snapshot :
      DurableExecution Q W
      → OrderRecord Q
      → VenueOrderSnapshot Q
      → String
      → Result (Unit {0}) String
      → Action Q W (OrderRecord Q)
  settle_snapshot self record' snapshot stream_id (ok _) = pure (apply_snapshot record' snapshot)
  settle_snapshot self record' snapshot stream_id (err reason) = do
    journal self stream_id "order.snapshot.conflict"
        (Payload.snapshot_conflict reason record' snapshot "safe_hold_no_overwrite")
    raise (OrchestratorError.ambiguous record'.client_order_id reason)

  unfoldable pub checked_snapshot :
      DurableExecution Q W
      → OrderRecord Q
      → VenueOrderSnapshot Q
      → String
      → Action Q W (OrderRecord Q)
  checked_snapshot self record' snapshot stream_id =
      settle_snapshot self record' snapshot stream_id (validate_snapshot record' snapshot)
