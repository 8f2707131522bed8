-- ===== src/Orchestrator/Defs.antt =====
-- The data of the orchestrator, and its store as an interface.
use Prim.Native.String.{◌++◌ as str_append}
use pg_tsy_core_bootstrap.Prelude.{ℤ, String, Bool, Option, List, Result, BTreeMap}
use pg_tsy_core_bootstrap.Types.{Venue, Uuid, OrderIntent}
use pg_tsy_core_bootstrap.Oms.{OrderState, OrderEvent, OrderRecord, TransitionError}
use pg_tsy_core_bootstrap.Execution.{ExecutionError, ExecutionAdapter, VenueOrderSnapshot}
use pg_tsy_core_bootstrap.Reconcile.Defs.{VenuePosition, ReconcileReport}

-- `pg_store::RuntimeLease`.
pub record RuntimeLease : Type 0 where
  pub lease_key : String
  pub holder_id : String
  pub fencing_token : ℤ
  pub ttl_seconds : ℤ

pub data RuntimeStoreError : Type 0 where
  fencing_lost : RuntimeStoreError
  other : String → RuntimeStoreError

pub data OrchestratorError : Type 0 where
  store : RuntimeStoreError → OrchestratorError
  missing_adapter : Venue → OrchestratorError
  oms : String → OrchestratorError
  -- The client id and the reason.
  ambiguous : String → String → OrchestratorError
  execution : ExecutionError → OrchestratorError

-- The JSON payloads of the journal, one constructor for each `json!`.
pub data Payload (Q : Type 0) : Type 0 where
  intent_persisted : OrderIntent Q → String → Payload Q
  dispatch_started : String → Payload Q
  dispatch_acknowledged : String → String → Payload Q
  dispatch_failed : String → String → Payload Q
  cancel_started : String → Payload Q
  cancel_unresolved : String → String → Payload Q
  cancel_reconciled : OrderState → Payload Q
  cancel_unknown : String → Payload Q
  recovery_resolved : VenueOrderSnapshot Q → Payload Q
  recovery_unresolved : String → String → Payload Q
  snapshot_conflict : String → OrderRecord Q → VenueOrderSnapshot Q → String → Payload Q
  reconcile_completed :
      ReconcileReport Q → List (OrderRecord Q) → List (VenueOrderSnapshot Q) → Payload Q

-- The trait `RuntimeStore`. `W` is what a call may read and change: the database.
pub record RuntimeStore (Q W : Type 0) : Type 0 where
  pub assert_lease : RuntimeLease → W → Result (Unit {0}) RuntimeStoreError × W
  pub append_event : String → String → Payload Q → ℤ → W → Result ℤ RuntimeStoreError × W
  pub save_order_record : OrderRecord Q → ℤ → W → Result (Unit {0}) RuntimeStoreError × W
  pub load_orders_for_venue : Venue → W → Result (List (OrderRecord Q)) RuntimeStoreError × W
  pub load_position_states : Venue → W → Result (List (VenuePosition Q)) RuntimeStoreError × W
  pub save_position_state : VenuePosition Q → ℤ → W → Result (Unit {0}) RuntimeStoreError × W
  pub save_reconcile_report : Venue → ReconcileReport Q → ℤ → W → Result Uuid RuntimeStoreError × W

abbrev pub AdapterRegistry : Type 0 → Type 0 → Type 0
AdapterRegistry Q W = BTreeMap Venue (ExecutionAdapter Q W)

pub record RecoveryItem (Q : Type 0) : Type 0 where
  pub venue : Venue
  pub asset : String
  pub client_order_id : String
  pub state : OrderState
  pub venue_order_id : Option String
  pub filled_quantity : Q
  pub resolved : Bool

pub record RecoveryReport (Q : Type 0) : Type 0 where
  pub venue : Option Venue
  pub items : List (RecoveryItem Q)

pub record ReconcileCycle (Q : Type 0) : Type 0 where
  pub venue : Venue
  pub report : ReconcileReport Q
  pub orders : List (OrderRecord Q)
  pub positions : List (VenuePosition Q)

pub record DurableExecution (Q W : Type 0) : Type 0 where
  pub store : RuntimeStore Q W
  pub lease : RuntimeLease
  pub adapters : AdapterRegistry Q W

-- The names that `{:?}` prints.
abbrev pub state_name : OrderState → String
state_name OrderState.created = "Created"
state_name OrderState.pending_submit = "PendingSubmit"
state_name OrderState.opened = "Open"
state_name OrderState.partially_filled = "PartiallyFilled"
state_name OrderState.pending_cancel = "PendingCancel"
state_name OrderState.filled = "Filled"
state_name OrderState.canceled = "Canceled"
state_name OrderState.rejected = "Rejected"
state_name OrderState.unknown = "Unknown"

abbrev pub event_name : OrderEvent → String
event_name OrderEvent.submit_requested = "SubmitRequested"
event_name OrderEvent.accepted = "Accepted"
event_name OrderEvent.cancel_requested = "CancelRequested"
event_name OrderEvent.canceled = "Canceled"
event_name OrderEvent.rejected = "Rejected"
event_name OrderEvent.lost_state = "LostState"

-- `to_string()` of a transition error.
unfoldable pub transition_text : TransitionError → String
transition_text e =
    str_append "illegal order transition from "
      (str_append (state_name e.from) (str_append " on " (event_name e.event)))

unfoldable pub order_stream : String → String
order_stream client_order_id = str_append "order:" client_order_id
