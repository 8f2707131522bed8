-- ===== src/Execution.antt =====
-- rust/crates/pg-execution/src/lib.rs: what a venue tells of its orders.
use Prim.Native.String.{◌++◌ as str_append}
use pg_tsy_core_bootstrap.Prelude.{
  ℕ, ℤ, Result, String, Eq, nat_beq, ◌↔◌, ◌≡◌, arith, Bool, true, Option, none, some, List, [], ◌∷◌,
  ◌==◌, string_eq, option_eq, if◌then◌else◌,
}
use pg_tsy_core_bootstrap.Types.{Side, Venue, OrderIntent}

pub record VenueOrderAck : Type 0 where
  pub venue_order_id : String
  pub client_order_id : String

pub data VenueOrderState : Type 0 where
  opened partially_filled filled canceled rejected unknown : VenueOrderState

abbrev pub venue_state_code : VenueOrderState → ℕ
venue_state_code VenueOrderState.opened = 0
venue_state_code VenueOrderState.partially_filled = 1
venue_state_code VenueOrderState.filled = 2
venue_state_code VenueOrderState.canceled = 3
venue_state_code VenueOrderState.rejected = 4
venue_state_code VenueOrderState.unknown = 5

abbrev pub venue_state_beq : VenueOrderState → VenueOrderState → Bool
venue_state_beq a b = nat_beq (venue_state_code a) (venue_state_code b)

pub venue_state_beq_iff : (a b : VenueOrderState) → (venue_state_beq a b ≡ true) ↔ (a ≡ b)
venue_state_beq_iff a b = ground arith

instance abbrev pub venue_state_eq : Eq VenueOrderState
venue_state_eq = record { beq = venue_state_beq; beq_iff = venue_state_beq_iff }

abbrev pub is_unknown : VenueOrderState → Bool
is_unknown VenueOrderState.unknown = true
is_unknown _ = Bool.false

pub record VenueOrderSnapshot (Q : Type 0) : Type 0 where
  pub venue_order_id : String
  pub client_order_id : Option String
  pub asset : String
  pub side : Side
  pub requested_quantity : Q
  pub filled_quantity : Q
  pub limit_price : Option Q
  pub state : VenueOrderState

pub record VenuePositionSnapshot (Q : Type 0) : Type 0 where
  pub asset : String
  pub quantity : Q

pub record VenueFillSnapshot (Q : Type 0) : Type 0 where
  pub account_scope : String
  pub venue_fill_id : String
  pub legacy_trade_id : Option ℤ
  pub venue_order_id : String
  pub client_order_id : Option String
  pub asset : String
  pub side : Side
  pub quantity : Q
  pub price : Q
  pub commission : Option Q
  pub commission_asset : Option String
  pub realized_pnl : Option Q
  pub trade_time_ms : Option ℤ
  pub venue_time : Option String

pub record AccountSnapshot (Q : Type 0) : Type 0 where
  pub venue : Venue
  pub account_id : Option String
  pub currency : Option String
  pub account_value : Option Q
  pub available_funds : Option Q
  pub withdrawable : Option Q
  pub buying_power : Option Q
  pub initial_margin : Option Q
  pub maintenance_margin : Option Q
  pub margin_used : Option Q
  pub gross_position_value : Option Q
  pub raw_usd : Option Q

pub record OrderLocator : Type 0 where
  pub asset : String
  pub venue_order_id : Option String
  pub client_order_id : String

pub data ExecutionError : Type 0 where
  rejected : String → ExecutionError
  unknown : String → ExecutionError
  transport : String → ExecutionError
  authentication : String → ExecutionError
  conversion : String → ExecutionError
  unsupported : String → ExecutionError

-- The search in the default `find_order_by_client_id`, over the open orders.
unfoldable pub find_by_client :
    {Q : Type 0} → String → List (VenueOrderSnapshot Q) → Option (VenueOrderSnapshot Q)
find_by_client client_order_id [] = none
find_by_client client_order_id (order ∷ orders) =
    if order.client_order_id == some client_order_id
    then some order
    else find_by_client client_order_id orders

-- `to_string()` of an error.
abbrev pub execution_text : ExecutionError → String
execution_text (ExecutionError.rejected s) = str_append "venue rejected order: " s
execution_text (ExecutionError.unknown s) = str_append "venue outcome is unknown: " s
execution_text (ExecutionError.transport s) = str_append "transport error: " s
execution_text (ExecutionError.authentication s) = str_append "venue authentication failed: " s
execution_text (ExecutionError.conversion s) = str_append "venue protocol conversion failed: " s
execution_text (ExecutionError.unsupported s) =
    str_append "operation is not supported by this venue adapter: " s

-- The trait `ExecutionAdapter`. `W` is what a call may read and change: the venue, the network. An
-- adapter's own state is part of it.
pub record ExecutionAdapter (Q W : Type 0) : Type 0 where
  pub submit : OrderIntent Q → W → Result VenueOrderAck ExecutionError × W
  pub cancel : OrderLocator → W → Result (Unit {0}) ExecutionError × W
  pub open_orders : W → Result (List (VenueOrderSnapshot Q)) ExecutionError × W
  pub positions : W → Result (List (VenuePositionSnapshot Q)) ExecutionError × W
  pub fills : W → Result (List (VenueFillSnapshot Q)) ExecutionError × W
  pub account_snapshot : W → Result (AccountSnapshot Q) ExecutionError × W
  pub find_order_by_client_id :
      String → W → Result (Option (VenueOrderSnapshot Q)) ExecutionError × W
