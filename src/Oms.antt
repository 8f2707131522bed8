-- ===== src/Oms.antt =====
-- rust/crates/pg-oms/src/lib.rs: the life of one order. A method on `&mut self` returns the new
-- record and its result. `OrderState::Open` is `opened`, since `open` is a reserved word.
pub mod Lifecycle
pub mod Fills
mod Examples
use pg_tsy_core_bootstrap.Prelude.{
  ℕ, String, Bool, true, false, Option, none, some, Result, ok, err, ◌==◌, not, option_eq,
  if◌then◌else◌, Eq, nat_beq, ◌↔◌, ◌≡◌, arith,
}
use pg_tsy_core_bootstrap.Decimal.{Decimal, le, lt, same}
use pg_tsy_core_bootstrap.Types.{
  Venue, Side, ExposureEffect, Uuid, OrderIntent, client_order_id, effect_eq,
}

pub data OrderState : Type 0 where
  created pending_submit opened partially_filled pending_cancel : OrderState
  filled canceled rejected unknown : OrderState

abbrev state_code : OrderState → ℕ
state_code OrderState.created = 0
state_code OrderState.pending_submit = 1
state_code OrderState.opened = 2
state_code OrderState.partially_filled = 3
state_code OrderState.pending_cancel = 4
state_code OrderState.filled = 5
state_code OrderState.canceled = 6
state_code OrderState.rejected = 7
state_code OrderState.unknown = 8

abbrev pub state_beq : OrderState → OrderState → Bool
state_beq a b = nat_beq (state_code a) (state_code b)

pub state_beq_iff : (a b : OrderState) → (state_beq a b ≡ true) ↔ (a ≡ b)
state_beq_iff a b = ground arith

instance abbrev pub state_eq : Eq OrderState
state_eq = record { beq = state_beq; beq_iff = state_beq_iff }

pub data OrderEvent : Type 0 where
  submit_requested accepted cancel_requested canceled rejected lost_state : OrderEvent

pub record TransitionError : Type 0 where
  pub from : OrderState
  pub event : OrderEvent

pub data FillError (Q : Type 0) : Type 0 where
  non_positive : FillError Q
  overfill : Q → Q → Q → FillError Q
  illegal_state : OrderState → FillError Q

pub record OrderRecord (Q : Type 0) : Type 0 where
  pub order_id : Uuid
  pub intent_id : Uuid
  pub client_order_id : String
  pub venue_order_id : Option String
  pub venue : Venue
  pub asset : String
  pub owner_strategy_id : String
  pub side : Option Side
  pub effect : Option ExposureEffect
  pub requested_quantity : Q
  pub filled_quantity : Q
  pub state : OrderState

abbrev pub is_terminal_state : OrderState → Bool
is_terminal_state OrderState.filled = true
is_terminal_state OrderState.canceled = true
is_terminal_state OrderState.rejected = true
is_terminal_state _ = false

abbrev pub takes_fills : OrderState → Bool
takes_fills OrderState.opened = true
takes_fills OrderState.partially_filled = true
takes_fills OrderState.pending_cancel = true
takes_fills _ = false

-- The `match (self.state, event)` of `apply`; `none` is its last arm.
abbrev pub next_state : OrderState → OrderEvent → Option OrderState
next_state OrderState.created OrderEvent.submit_requested = some OrderState.pending_submit
next_state OrderState.pending_submit OrderEvent.accepted = some OrderState.opened
next_state OrderState.pending_submit OrderEvent.rejected = some OrderState.rejected
next_state OrderState.opened OrderEvent.cancel_requested = some OrderState.pending_cancel
next_state OrderState.partially_filled OrderEvent.cancel_requested = some OrderState.pending_cancel
next_state OrderState.opened OrderEvent.canceled = some OrderState.canceled
next_state OrderState.partially_filled OrderEvent.canceled = some OrderState.canceled
next_state OrderState.pending_cancel OrderEvent.canceled = some OrderState.canceled
next_state OrderState.pending_submit OrderEvent.lost_state = some OrderState.unknown
next_state OrderState.opened OrderEvent.lost_state = some OrderState.unknown
next_state OrderState.partially_filled OrderEvent.lost_state = some OrderState.unknown
next_state OrderState.pending_cancel OrderEvent.lost_state = some OrderState.unknown
next_state _ _ = none

module _ {Q : Type 0} where
  unfoldable pub is_terminal : OrderRecord Q → Bool
  is_terminal self = is_terminal_state self.state

  unfoldable pub is_entry : OrderRecord Q → Bool
  is_entry self = self.effect == some ExposureEffect.increase

  unfoldable pub is_reduce_only : OrderRecord Q → Bool
  is_reduce_only self = self.effect == some ExposureEffect.reduce_only

  unfoldable pub apply :
      OrderEvent → OrderRecord Q → OrderRecord Q × Result (Unit {0}) TransitionError
  apply event self = elim (next_state self.state event) [
    | none ↦ (self, err (record { from = self.state; event = event }))
    | some next ↦ (record self { state = next }, ok tt)
  ]

  -- What `accept` does after `self.apply(Accepted)?`.
  abbrev set_venue_id :
      String
      → OrderRecord Q × Result (Unit {0}) TransitionError
      → OrderRecord Q × Result (Unit {0}) TransitionError
  set_venue_id venue_order_id (self, ok _) =
      (record self { venue_order_id = some venue_order_id }, ok tt)
  set_venue_id venue_order_id (self, err e) = (self, err e)

  unfoldable pub accept : String → OrderRecord Q → OrderRecord Q × Result (Unit {0}) TransitionError
  unfolding apply
  accept venue_order_id self = set_venue_id venue_order_id (apply OrderEvent.accepted self)

module _ {Q : Type 0} ⦃d : Decimal Q⦄ where
  -- `new_id` is what `Uuid::new_v4()` returns.
  unfoldable pub from_intent : (Uuid → String) → Uuid → OrderIntent Q → OrderRecord Q
  unfolding client_order_id
  from_intent simple new_id intent = record {
    order_id = new_id;
    intent_id = intent.intent_id;
    client_order_id = client_order_id simple intent;
    venue_order_id = none;
    venue = intent.venue;
    asset = intent.asset;
    owner_strategy_id = intent.strategy_id;
    side = some intent.side;
    effect = some intent.effect;
    requested_quantity = intent.quantity;
    filled_quantity = d.zero;
    state = OrderState.created;
  }

  unfoldable pub remaining_quantity : OrderRecord Q → Q
  remaining_quantity self = d.sub self.requested_quantity self.filled_quantity

  unfoldable pub apply_fill : Q → OrderRecord Q → OrderRecord Q × Result (Unit {0}) (FillError Q)
  apply_fill quantity self =
      if le quantity d.zero
      then (self, err FillError.non_positive)
      else if not (takes_fills self.state)
      then (self, err (FillError.illegal_state self.state))
      else let next_filled = d.add self.filled_quantity quantity in
        if lt self.requested_quantity next_filled
        then (self, err (FillError.overfill self.requested_quantity self.filled_quantity quantity))
        else (
          record self {
            filled_quantity = next_filled;
            state =
                if same next_filled self.requested_quantity
                then OrderState.filled
                else OrderState.partially_filled;
          },
          ok tt,
        )
