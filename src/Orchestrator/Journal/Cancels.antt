-- ===== src/Orchestrator/Journal/Cancels.antt =====
-- `cancel_order` and `checked_snapshot` keep the journal's law.
use pg_tsy_core_bootstrap.Prelude.{
  String, Option, none, some, Result, ok, err, refl, nat_eq, string_eq,
}
use pg_tsy_core_bootstrap.Decimal.{Decimal}
use pg_tsy_core_bootstrap.Types.{Uuid}
use pg_tsy_core_bootstrap.Oms.{OrderRecord, state_eq}
use pg_tsy_core_bootstrap.Execution.{ExecutionError, ExecutionAdapter, VenueOrderSnapshot}
use pg_tsy_core_bootstrap.Orchestrator.Defs.{DurableExecution}
use pg_tsy_core_bootstrap.Orchestrator.Traces.{
  Keeps-bind, Keeps-if, Keeps-raise, Keeps, keeps_rules, Keeps-perform, keeps_perform,
  keeps_attempt,
}
use pg_tsy_core_bootstrap.Orchestrator.Cancel.{
  cancel_order, cancel_live, cancel_working, send_cancel, request_cancel, cancel_pending,
  resolve_first, finish_cancel, after_cancel, lost_cancel,
}
use pg_tsy_core_bootstrap.Orchestrator.Snapshot.{validate_snapshot}
use pg_tsy_core_bootstrap.Orchestrator.Steps.{settle_snapshot, checked_snapshot}
use pg_tsy_core_bootstrap.Orchestrator.Journal.{Journaled}
use pg_tsy_core_bootstrap.Orchestrator.Session.{pure, ◌>>◌}
use pg_tsy_core_bootstrap.Orchestrator.Steps.{save_record}
use pg_tsy_core_bootstrap.Oms.{is_terminal}

module _ {Q W : Type 0} (simple : Uuid → String) (self : DurableExecution Q W) where
  Keeps-settle :
      ⦃d : Decimal Q⦄ (r : OrderRecord Q) (snapshot : VenueOrderSnapshot Q) (stream : String)
      (valid : Result (Unit {0}) String)
      → Keeps (Journaled simple) (settle_snapshot self r snapshot stream valid)
  unfolding settle_snapshot
  Keeps-settle r snapshot stream (ok _) = search keeps_rules
  Keeps-settle r snapshot stream (err reason) =
      search (keeps_rules, Keeps-perform (Journaled simple))

  pub Keeps-checked :
      ⦃d : Decimal Q⦄ (r : OrderRecord Q) (snapshot : VenueOrderSnapshot Q) (stream : String)
      → Keeps (Journaled simple) (checked_snapshot self r snapshot stream)
  unfolding checked_snapshot
  Keeps-checked r snapshot stream = Keeps-settle r snapshot stream (validate_snapshot r snapshot)

  module _ ⦃d : Decimal Q⦄ (adapter : ExecutionAdapter Q W) where
    Keeps-after_cancel :
        (stream : String) (r : OrderRecord Q) (found : Option (VenueOrderSnapshot Q))
        → Keeps (Journaled simple) (after_cancel self stream r found)
    unfolding after_cancel
    Keeps-after_cancel stream r none = search (keeps_rules, Keeps-perform (Journaled simple))
    Keeps-after_cancel stream r (some snapshot) =
        Keeps-bind _ _ (Keeps-checked r snapshot stream)
          λ settled. search (keeps_rules, Keeps-perform (Journaled simple))

    Keeps-finish_cancel :
        (stream : String) (r : OrderRecord Q) (outcome : Result (Unit {0}) ExecutionError)
        → Keeps (Journaled simple) (finish_cancel self adapter stream r outcome)
    unfolding finish_cancel lost_cancel
    Keeps-finish_cancel stream r (ok _) =
        search (keeps_rules, Keeps-perform (Journaled simple), Keeps-after_cancel stream r)
    Keeps-finish_cancel stream r (err (ExecutionError.unknown _)) =
        search (keeps_rules, Keeps-perform (Journaled simple))
    Keeps-finish_cancel stream r (err (ExecutionError.transport _)) =
        search (keeps_rules, Keeps-perform (Journaled simple))
    Keeps-finish_cancel stream r (err (ExecutionError.rejected _)) = search keeps_rules
    Keeps-finish_cancel stream r (err (ExecutionError.authentication _)) = search keeps_rules
    Keeps-finish_cancel stream r (err (ExecutionError.conversion _)) = search keeps_rules
    Keeps-finish_cancel stream r (err (ExecutionError.unsupported _)) = search keeps_rules

    Keeps-send_cancel :
        (stream : String) (r : OrderRecord Q)
        → Keeps (Journaled simple) (send_cancel self adapter stream r)
    unfolding send_cancel
    Keeps-send_cancel stream r = record {
      at = λ s h. keeps_perform (Journaled simple) _ _ _ _ s tt h λ _ w1.
          keeps_attempt (Journaled simple) _ _ _ _
            λ outcome w2 b. (Keeps-finish_cancel stream r outcome).at _ (refl, (tt, h));
    }

    Keeps-cancel_working :
        (stream : String) (r : OrderRecord Q)
        → Keeps (Journaled simple) (cancel_working self adapter stream r)
    unfolding cancel_working request_cancel cancel_pending
    Keeps-cancel_working stream r =
        Keeps-bind _ _ (search (keeps_rules, Keeps-perform (Journaled simple)))
          λ current. Keeps-if _ _ _ (Keeps-raise _) (Keeps-send_cancel stream current)

    Keeps-resolve_first :
        (stream : String) (r : OrderRecord Q) (found : Option (VenueOrderSnapshot Q))
        → Keeps (Journaled simple) (resolve_first self adapter stream r found)
    unfolding resolve_first
    Keeps-resolve_first stream r none = search (keeps_rules, Keeps-perform (Journaled simple))
    Keeps-resolve_first stream r (some snapshot) =
        Keeps-bind _ _ (Keeps-checked r snapshot stream) λ settled.
          Keeps-if (is_terminal settled) (save_record self settled >> pure settled) _
            (search (keeps_rules, Keeps-perform (Journaled simple)))
            (Keeps-cancel_working stream settled)

    Keeps-cancel_live :
        (stream : String) (r : OrderRecord Q)
        → Keeps (Journaled simple) (cancel_live self adapter stream r)
    unfolding cancel_live
    Keeps-cancel_live stream r = search (
      keeps_rules,
      Keeps-perform (Journaled simple),
      Keeps-resolve_first stream r,
      Keeps-cancel_working stream,
    )

  pub cancel_order-Journaled :
      ⦃d : Decimal Q⦄ (order : OrderRecord Q) → Keeps (Journaled simple) (cancel_order self order)
  unfolding cancel_order
  cancel_order-Journaled order =
      search (keeps_rules, Keeps-perform (Journaled simple), Keeps-cancel_live)
