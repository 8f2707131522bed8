-- ===== src/Orchestrator/Cycle/Reported.antt =====
-- A cycle changes the stored orders and positions only on a clean report.
use pg_tsy_core_bootstrap.Prelude.{
  arith, Bool, true, false, not, List, [], ◌≡◌, any, if_paths, if◌then◌else◌, not-false,
}
use pg_tsy_core_bootstrap.Decimal.{Decimal}
use pg_tsy_core_bootstrap.Types.{Venue}
use pg_tsy_core_bootstrap.Oms.{OrderRecord}
use pg_tsy_core_bootstrap.Execution.{ExecutionAdapter, VenueOrderSnapshot}
use pg_tsy_core_bootstrap.Reconcile.Defs.{VenuePosition, ReconcileReport, clean}
use pg_tsy_core_bootstrap.Orchestrator.Defs.{DurableExecution, ReconcileCycle}
use pg_tsy_core_bootstrap.Orchestrator.Session.{Call, Calls, Session, Action, pure}
use pg_tsy_core_bootstrap.Orchestrator.Traces.{
  Obeys, Keeps, Preserves, keeps_rules, Keeps-perform, keeps_perform,
}
use pg_tsy_core_bootstrap.Orchestrator.Cycle.{
  find_missing, settle_cycle, finish_cycle, reconcile_once,
}
use pg_tsy_core_bootstrap.Orchestrator.Cycle.Calls.{Preserves-find_missing, Preserves-settle_cycle}

module _ {Q : Type 0} where
  -- A clean report was saved for the venue.
  abbrev pub is_clean : Call Q × Bool → Bool
  is_clean (Call.save_report _ report, true) = clean report
  is_clean _ = false

  -- What must stand before each call of a cycle.
  abbrev pub Reported : Call Q → Calls Q → Type 0
  Reported (Call.save_order _) before = any is_clean before ≡ true
  Reported (Call.save_position _) before = any is_clean before ≡ true
  Reported (Call.submit _) before = true ≡ false
  Reported (Call.cancel _) before = true ≡ false
  Reported _ before = Unit

  abbrev Cleared : Calls Q → Type 0
  Cleared calls = (any is_clean calls ≡ true) × Obeys Reported calls

module _ {Q W : Type 0} ⦃d : Decimal Q⦄ (self : DurableExecution Q W) where
  settle-Reported :
      (venue : Venue) (report : ReconcileReport Q) (locals : List (OrderRecord Q))
      (remotes : List (VenueOrderSnapshot Q)) (positions : List (VenuePosition Q))
      → Preserves Cleared (settle_cycle self venue report locals remotes positions)
  settle-Reported venue report locals remotes positions =
      Preserves-settle_cycle self venue report locals remotes positions
        (λ calls b h. (h.0, (tt, h.1))) (λ r calls b h. (h.0, (h.0, h.1)))
        (λ p calls b h. (h.0, (h.0, h.1)))

  decide-Reported :
      (venue : Venue) (report : ReconcileReport Q) (locals : List (OrderRecord Q))
      (remotes : List (VenueOrderSnapshot Q)) (positions : List (VenuePosition Q)) (s : Session Q W)
      → (clean report ≡ true → Cleared s.calls)
      → Obeys Reported s.calls
      → Obeys Reported
          ((if not (clean report)
              then pure (record {
                venue = venue;
                report = report;
                orders = locals;
                positions = positions;
              })
              else settle_cycle self venue report locals remotes positions)
            s).1.calls
  unfolding pure
  decide-Reported venue report locals remotes positions s cleared h =
      if_paths (λ (m : Action Q W (ReconcileCycle Q)). Obeys Reported (m s).1.calls)
        (not (clean report))
        (pure (record { venue = venue; report = report; orders = locals; positions = positions }))
        (settle_cycle self venue report locals remotes positions) (λ _. h)
        λ is_good.
          ((settle-Reported venue report locals remotes positions).at s
            (cleared (not-false (clean report) is_good))).1

  finish-Reported :
      (venue : Venue) (report : ReconcileReport Q) (locals : List (OrderRecord Q))
      (remotes : List (VenueOrderSnapshot Q)) (positions : List (VenuePosition Q))
      → Keeps Reported (finish_cycle self venue report locals remotes positions)
  unfolding finish_cycle pure
  finish-Reported venue report locals remotes positions = record {
    at = λ s h. keeps_perform Reported _ _ _ _ s tt h λ _ w1.
        keeps_perform Reported _ _ _ _ _ tt (tt, h)
          λ _ w2.
            keeps_perform Reported _ _ _ _ _ tt (tt, (tt, h))
              λ _ w3.
                decide-Reported venue report locals remotes positions _
                  (λ is_good. (ground arith, (tt, (tt, (tt, h))))) (tt, (tt, (tt, h)));
  }

  found-Reported :
      (adapter : ExecutionAdapter Q W) (locals : List (OrderRecord Q))
      (remotes : List (VenueOrderSnapshot Q))
      → Keeps Reported (find_missing adapter locals remotes)
  found-Reported adapter locals remotes =
      Preserves-find_missing adapter locals remotes λ client calls b h. (tt, h)

  reconcile_once-Reported_of : (venue : Venue) → Keeps Reported (reconcile_once self venue)
  unfolding reconcile_once
  reconcile_once-Reported_of venue =
      search (keeps_rules, Keeps-perform Reported, found-Reported, finish-Reported) depth 12

  -- On any store, adapters and world: a reconciliation cycle saves an order or a position only after
  -- it has saved a clean report, and it neither submits nor cancels an order.
  pub reconcile_once-Reported :
      (venue : Venue) (world : W)
      → Obeys Reported (reconcile_once self venue (record { world = world; calls = [] })).1.calls
  reconcile_once-Reported venue world =
      (reconcile_once-Reported_of venue).at (record { world = world; calls = [] }) tt
