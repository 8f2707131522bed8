-- ===== src/Orchestrator/Journal/Histories.antt =====
-- Every history of the orchestrator: any calls of its methods, in any order, on any world.
use pg_tsy_core_bootstrap.Prelude.{String, List, [], ◌∷◌}
use pg_tsy_core_bootstrap.Decimal.{Decimal}
use pg_tsy_core_bootstrap.Types.{Venue, Uuid, OrderIntent}
use pg_tsy_core_bootstrap.Oms.{OrderRecord}
use pg_tsy_core_bootstrap.Orchestrator.Defs.{DurableExecution}
use pg_tsy_core_bootstrap.Orchestrator.Session.{Session}
use pg_tsy_core_bootstrap.Orchestrator.Dispatch.{dispatch}
use pg_tsy_core_bootstrap.Orchestrator.Cancel.{cancel_order}
use pg_tsy_core_bootstrap.Orchestrator.Recovery.{recover_ambiguous}
use pg_tsy_core_bootstrap.Orchestrator.Cycle.{reconcile_once}
use pg_tsy_core_bootstrap.Orchestrator.Traces.{Obeys}
use pg_tsy_core_bootstrap.Orchestrator.Journal.{Journaled, dispatch-Journaled}
use pg_tsy_core_bootstrap.Orchestrator.Journal.Cancels.{cancel_order-Journaled}
use pg_tsy_core_bootstrap.Orchestrator.Journal.Rounds.{
  recover_ambiguous-Journaled, reconcile_once-Journaled,
}

-- A call of a method; `dispatch` with the id that it draws for the record.
pub data Operation (Q : Type 0) : Type 0 where
  dispatch_intent : Uuid → OrderIntent Q → Operation Q
  cancel : OrderRecord Q → Operation Q
  recover : Venue → Operation Q
  reconcile : Venue → Operation Q

module _ {Q W : Type 0} ⦃d : Decimal Q⦄ (simple : Uuid → String) (self : DurableExecution Q W) where
  unfoldable pub step : Operation Q → Session Q W → Session Q W
  step (Operation.dispatch_intent new_id intent) s = (dispatch simple new_id self intent s).1
  step (Operation.cancel order) s = (cancel_order self order s).1
  step (Operation.recover venue) s = (recover_ambiguous self venue s).1
  step (Operation.reconcile venue) s = (reconcile_once self venue s).1

  unfoldable pub run : List (Operation Q) → Session Q W → Session Q W
  run [] s = s
  run (operation ∷ operations) s = run operations (step operation s)

  step-Journaled :
      (operation : Operation Q) (s : Session Q W)
      → Obeys (Journaled simple) s.calls
      → Obeys (Journaled simple) (step operation s).calls
  unfolding step
  step-Journaled (Operation.dispatch_intent new_id intent) s =
      (dispatch-Journaled simple self new_id intent).at s
  step-Journaled (Operation.cancel order) s = (cancel_order-Journaled simple self order).at s
  step-Journaled (Operation.recover venue) s = (recover_ambiguous-Journaled simple self venue).at s
  step-Journaled (Operation.reconcile venue) s = (reconcile_once-Journaled simple self venue).at s

  run-Journaled_of :
      (operations : List (Operation Q)) (s : Session Q W)
      → Obeys (Journaled simple) s.calls
      → Obeys (Journaled simple) (run operations s).calls
  unfolding run
  run-Journaled_of [] s h = h
  run-Journaled_of (operation ∷ operations) s h =
      run-Journaled_of operations (step operation s) (step-Journaled operation s h)

  -- Whatever methods of the orchestrator are called, on whatever store, adapters and world: each
  -- order that was handed to a venue had, at that moment, a record of its intent and client id saved
  -- in `PendingSubmit` and the start of its dispatch in its journal, and each submission and each
  -- cancel directly followed a call that confirmed the lease.
  pub run-Journaled :
      (operations : List (Operation Q)) (world : W)
      → Obeys (Journaled simple) (run operations (record { world = world; calls = [] })).calls
  run-Journaled operations world =
      run-Journaled_of operations (record { world = world; calls = [] }) tt
