-- ===== src/Strategy/Defs.antt =====
-- The data of the strategy machine, and the tables of its phases.
use pg_tsy_core_bootstrap.Prelude.{
  String, Bool, Option, none, some, string_eq, nat_eq, option_eq, if◌then◌else◌,
}
use pg_tsy_core_bootstrap.Decimal.{Decimal, lt}
use pg_tsy_core_bootstrap.Types.{Venue, venue_eq, Uuid, OrderIntent}

pub record StrategyConfig (Q F : Type 0) : Type 0 where
  pub strategy_id : String
  pub asset : String
  pub venue : Venue
  pub order_quantity : Q
  pub entry_score : F
  pub exit_score : F
  pub allow_short : Bool

pub data StrategyPhase : Type 0 where
  flat entering_long long exiting_long : StrategyPhase
  entering_short short exiting_short : StrategyPhase
  safe_hold unknown halted : StrategyPhase

pub record StrategyState (Q : Type 0) : Type 0 where
  pub phase : StrategyPhase
  pub net_quantity : Q
  pub active_intent_id : Option Uuid
  pub intent_start_quantity : Option Q
  pub last_signal_id : Option String
  pub hold_reason : Option String

pub data StrategyDecision (Q : Type 0) : Type 0 where
  noop : StrategyDecision Q
  submit : OrderIntent Q → StrategyDecision Q
  hold : String → StrategyDecision Q

pub record StrategyMachine (Q F : Type 0) : Type 0 where
  pub config : StrategyConfig Q F
  pub state : StrategyState Q

module _ {Q : Type 0} ⦃d : Decimal Q⦄ where
  -- `StrategyState::default`.
  abbrev pub flat_state : StrategyState Q
  flat_state = record {
    phase = StrategyPhase.flat;
    net_quantity = d.zero;
    active_intent_id = none;
    intent_start_quantity = none;
    last_signal_id = none;
    hold_reason = none;
  }

  abbrev pub phase_of : Q → StrategyPhase
  phase_of net_quantity =
      if lt d.zero net_quantity
      then StrategyPhase.long
      else if lt net_quantity d.zero
      then StrategyPhase.short
      else StrategyPhase.flat

  -- The quantity that the intent in flight is to reach; `none` where none is in flight.
  abbrev pub expected : StrategyPhase → Q → Q → Option Q
  expected StrategyPhase.entering_long order_quantity start = some order_quantity
  expected StrategyPhase.entering_short order_quantity start = some order_quantity
  expected StrategyPhase.exiting_long order_quantity start = some (d.abs start)
  expected StrategyPhase.exiting_short order_quantity start = some (d.abs start)
  expected _ order_quantity start = none

  -- The second `match` of `on_intent_fill_progress`; the other phases have returned before.
  abbrev pub net_after : StrategyPhase → Q → Q → Q → Q
  net_after StrategyPhase.entering_long start cumulative net = cumulative
  net_after StrategyPhase.entering_short start cumulative net = d.neg cumulative
  net_after StrategyPhase.exiting_long start cumulative net = d.sub start cumulative
  net_after StrategyPhase.exiting_short start cumulative net = d.add start cumulative
  net_after _ start cumulative net = net
