-- ===== src/Strategy/Control.antt =====
-- The methods that operators and reconciliation call.
use pg_tsy_core_bootstrap.Prelude.{String, none, some, string_eq, nat_eq, option_eq}
use pg_tsy_core_bootstrap.Decimal.{Decimal}
use pg_tsy_core_bootstrap.Types.{venue_eq}
use pg_tsy_core_bootstrap.Strategy.Defs.{StrategyPhase, StrategyMachine, phase_of}

module _ {Q F : Type 0} ⦃d : Decimal Q⦄ where
  unfoldable pub on_external_state_unknown : StrategyMachine Q F → String → StrategyMachine Q F
  on_external_state_unknown self reason = record self {
    state = record (self.state) { phase = StrategyPhase.unknown; hold_reason = some reason };
  }

  -- What `enter_safe_hold` and `halt` do, with their phase.
  abbrev pub stop : StrategyPhase → StrategyMachine Q F → String → StrategyMachine Q F
  stop phase self reason = record self {
    state = record (self.state) {
      phase = phase;
      hold_reason = some reason;
      active_intent_id = none;
      intent_start_quantity = none;
    };
  }

  unfoldable pub enter_safe_hold : StrategyMachine Q F → String → StrategyMachine Q F
  enter_safe_hold self reason = stop StrategyPhase.safe_hold self reason

  unfoldable pub halt : StrategyMachine Q F → String → StrategyMachine Q F
  halt self reason = stop StrategyPhase.halted self reason

  unfoldable pub restore_after_reconcile : StrategyMachine Q F → Q → StrategyMachine Q F
  restore_after_reconcile self net_quantity = record self {
    state = record (self.state) {
      net_quantity = net_quantity;
      active_intent_id = none;
      intent_start_quantity = none;
      hold_reason = none;
      phase = phase_of net_quantity;
    };
  }
