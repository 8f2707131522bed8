-- ===== src/Orchestrator/Cycle/Calls.antt =====
-- What the loops of a reconciliation cycle preserve, from the kinds of calls they make.
use pg_tsy_core_bootstrap.Prelude.{Bool, List, [], ◌∷◌, Option, none, some, any, String, ◌||◌}
use pg_tsy_core_bootstrap.Decimal.{Decimal}
use pg_tsy_core_bootstrap.Types.{Venue}
use pg_tsy_core_bootstrap.Oms.{OrderRecord, is_terminal}
use pg_tsy_core_bootstrap.Execution.{ExecutionAdapter, VenueOrderSnapshot, find_by_client}
use pg_tsy_core_bootstrap.Reconcile.Defs.{VenuePosition, ReconcileReport}
use pg_tsy_core_bootstrap.Orchestrator.Defs.{DurableExecution}
use pg_tsy_core_bootstrap.Orchestrator.Session.{Call, Calls, ◌>>=◌, pure}
use pg_tsy_core_bootstrap.Orchestrator.Steps.{find_order}
use pg_tsy_core_bootstrap.Orchestrator.Traces.{
  Preserves, Preserves-perform, Keeps-pure, Keeps-if, Keeps-bind,
}
use pg_tsy_core_bootstrap.Orchestrator.Cycle.{
  has_client, with_found, find_missing, apply_order, apply_orders, save_positions, settle_cycle,
}

module _ {Q W : Type 0} ⦃d : Decimal Q⦄ {P : Calls Q → Type 0} where
  pub Preserves-find_missing :
      (adapter : ExecutionAdapter Q W) (locals : List (OrderRecord Q))
      (remotes : List (VenueOrderSnapshot Q))
      → ((client : String) (calls : Calls Q) (b : Bool)
          → P calls
          → P ((Call.find_order client, b) ∷ calls))
      → Preserves P (find_missing adapter locals remotes)
  unfolding find_missing
  Preserves-find_missing adapter [] remotes finds = Keeps-pure remotes
  Preserves-find_missing adapter (local ∷ locals) remotes finds =
      Keeps-bind _ _
        (Keeps-if (is_terminal local || any (has_client local.client_order_id) remotes) _
          (find_order adapter local.client_order_id >>= λ found. pure (with_found remotes found))
          (Keeps-pure remotes)
          (Keeps-bind _ _ (Preserves-perform _ _ _ (finds local.client_order_id))
            λ found. Keeps-pure _))
        λ extended. Preserves-find_missing adapter locals extended finds

module _ {Q W : Type 0} ⦃d : Decimal Q⦄ {P : Calls Q → Type 0} (self : DurableExecution Q W) where
  Preserves-apply_order :
      (local : OrderRecord Q) (found : Option (VenueOrderSnapshot Q))
      → ((r : OrderRecord Q) (calls : Calls Q) (b : Bool)
          → P calls
          → P ((Call.save_order r, b) ∷ calls))
      → Preserves P (apply_order self local found)
  unfolding apply_order
  Preserves-apply_order local none saves = Keeps-pure local
  Preserves-apply_order local (some remote) saves =
      Keeps-bind _ _ (Preserves-perform _ _ _ (saves _)) λ _. Keeps-pure _

  Preserves-apply_orders :
      (locals : List (OrderRecord Q)) (remotes : List (VenueOrderSnapshot Q))
      → ((r : OrderRecord Q) (calls : Calls Q) (b : Bool)
          → P calls
          → P ((Call.save_order r, b) ∷ calls))
      → Preserves P (apply_orders self locals remotes)
  unfolding apply_orders
  Preserves-apply_orders [] remotes saves = Keeps-pure []
  Preserves-apply_orders (local ∷ locals) remotes saves =
      Keeps-bind _ _
        (Preserves-apply_order local (find_by_client local.client_order_id remotes) saves)
        λ settled. Keeps-bind _ _ (Preserves-apply_orders locals remotes saves) λ rest. Keeps-pure _

  Preserves-save_positions :
      (positions : List (VenuePosition Q))
      → ((p : VenuePosition Q) (calls : Calls Q) (b : Bool)
          → P calls
          → P ((Call.save_position p, b) ∷ calls))
      → Preserves P (save_positions self positions)
  unfolding save_positions
  Preserves-save_positions [] saves = Keeps-pure tt
  Preserves-save_positions (p ∷ positions) saves =
      Keeps-bind _ _ (Preserves-perform _ _ _ (saves p))
        λ _. Preserves-save_positions positions saves

  pub Preserves-settle_cycle :
      (venue : Venue) (report : ReconcileReport Q) (locals : List (OrderRecord Q))
      (remotes : List (VenueOrderSnapshot Q)) (positions : List (VenuePosition Q))
      → ((calls : Calls Q) (b : Bool) → P calls → P ((Call.assert_lease, b) ∷ calls))
      → ((r : OrderRecord Q) (calls : Calls Q) (b : Bool)
          → P calls
          → P ((Call.save_order r, b) ∷ calls))
      → ((p : VenuePosition Q) (calls : Calls Q) (b : Bool)
          → P calls
          → P ((Call.save_position p, b) ∷ calls))
      → Preserves P (settle_cycle self venue report locals remotes positions)
  unfolding settle_cycle
  Preserves-settle_cycle venue report locals remotes positions leases orders saves =
      Keeps-bind _ _ (Preserves-perform _ _ _ leases) λ _.
        Keeps-bind _ _ (Preserves-apply_orders locals remotes orders)
          λ settled. Keeps-bind _ _ (Preserves-save_positions positions saves) λ _. Keeps-pure _
