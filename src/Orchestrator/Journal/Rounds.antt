-- ===== src/Orchestrator/Journal/Rounds.antt =====
-- `recover_ambiguous` and `reconcile_once` keep the journal's law: they submit and cancel nothing.
use pg_tsy_core_bootstrap.Prelude.{String, List, [], ◌∷◌, Option, none, some, nat_eq, string_eq}
use pg_tsy_core_bootstrap.Decimal.{Decimal}
use pg_tsy_core_bootstrap.Types.{Uuid}
use pg_tsy_core_bootstrap.Oms.{OrderRecord, state_eq}
use pg_tsy_core_bootstrap.Execution.{ExecutionAdapter, VenueOrderSnapshot}
use pg_tsy_core_bootstrap.Orchestrator.Defs.{DurableExecution}
use pg_tsy_core_bootstrap.Orchestrator.Traces.{
  Keeps-bind, Keeps-if, Keeps-pure, Keeps, keeps_rules, Keeps-perform,
}
use pg_tsy_core_bootstrap.Orchestrator.Journal.{Journaled}
use pg_tsy_core_bootstrap.Orchestrator.Journal.Cancels.{Keeps-checked}
use pg_tsy_core_bootstrap.Types.{Venue}
use pg_tsy_core_bootstrap.Reconcile.Defs.{VenuePosition, ReconcileReport}
use pg_tsy_core_bootstrap.Orchestrator.Recovery.{
  is_ambiguous, resolve_order, recover_order, recover_orders, recover_ambiguous,
}
use pg_tsy_core_bootstrap.Orchestrator.Cycle.Calls.{Preserves-find_missing, Preserves-settle_cycle}
use pg_tsy_core_bootstrap.Orchestrator.Cycle.{find_missing, finish_cycle, reconcile_once}

module _ {Q W : Type 0} ⦃d : Decimal Q⦄ (simple : Uuid → String) (self : DurableExecution Q W) where
  Keeps-resolve_order :
      (r : OrderRecord Q) (stream : String) (found : Option (VenueOrderSnapshot Q))
      → Keeps (Journaled simple) (resolve_order self r stream found)
  unfolding resolve_order
  Keeps-resolve_order r stream (some snapshot) =
      Keeps-bind _ _ (Keeps-checked simple self r snapshot stream)
        λ settled. search (keeps_rules, Keeps-perform (Journaled simple))
  Keeps-resolve_order r stream none = search (keeps_rules, Keeps-perform (Journaled simple))

  Keeps-recover_order :
      (adapter : ExecutionAdapter Q W) (r : OrderRecord Q)
      → Keeps (Journaled simple) (recover_order self adapter r)
  unfolding recover_order
  Keeps-recover_order adapter r =
      search (keeps_rules, Keeps-perform (Journaled simple), Keeps-resolve_order r)

  Keeps-recover_orders :
      (adapter : ExecutionAdapter Q W) (orders : List (OrderRecord Q))
      → Keeps (Journaled simple) (recover_orders self adapter orders)
  unfolding recover_orders
  Keeps-recover_orders adapter [] = Keeps-pure []
  Keeps-recover_orders adapter (r ∷ orders) =
      Keeps-if (is_ambiguous r) _ _
        (Keeps-bind _ _ (Keeps-recover_order adapter r) λ item.
          Keeps-bind _ _ (Keeps-recover_orders adapter orders) λ items. Keeps-pure (item ∷ items))
        (Keeps-recover_orders adapter orders)

  pub recover_ambiguous-Journaled :
      (venue : Venue) → Keeps (Journaled simple) (recover_ambiguous self venue)
  unfolding recover_ambiguous
  recover_ambiguous-Journaled venue =
      search (keeps_rules, Keeps-perform (Journaled simple), Keeps-recover_orders)

  Keeps-missing :
      (adapter : ExecutionAdapter Q W) (locals : List (OrderRecord Q))
      (remotes : List (VenueOrderSnapshot Q))
      → Keeps (Journaled simple) (find_missing adapter locals remotes)
  Keeps-missing adapter locals remotes =
      Preserves-find_missing adapter locals remotes λ client calls b h. (tt, h)

  Keeps-finish_cycle :
      (venue : Venue) (report : ReconcileReport Q) (locals : List (OrderRecord Q))
      (remotes : List (VenueOrderSnapshot Q)) (positions : List (VenuePosition Q))
      → Keeps (Journaled simple) (finish_cycle self venue report locals remotes positions)
  unfolding finish_cycle
  Keeps-finish_cycle venue report locals remotes positions =
      Keeps-bind _ _ (search (Keeps-perform (Journaled simple))) λ _.
        Keeps-bind _ _ (search (Keeps-perform (Journaled simple))) λ _.
          Keeps-bind _ _ (search (Keeps-perform (Journaled simple))) λ _.
            Keeps-if _ _ _ (Keeps-pure _) (
              Preserves-settle_cycle self venue report locals remotes positions
                (λ calls b h. (tt, h)) (λ r calls b h. (tt, h)) (λ p calls b h. (tt, h)))

  pub reconcile_once-Journaled :
      (venue : Venue) → Keeps (Journaled simple) (reconcile_once self venue)
  unfolding reconcile_once
  reconcile_once-Journaled venue =
      search (keeps_rules, Keeps-perform (Journaled simple), Keeps-missing, Keeps-finish_cycle)
        depth 12
