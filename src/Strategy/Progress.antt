-- ===== src/Strategy/Progress.antt =====
-- `on_intent_fill_progress` and `on_intent_filled`.
use pg_tsy_core_bootstrap.Prelude.{
  Bool, true, false, not, ◌||◌, Option, none, some, ◌!=◌, string_eq, nat_eq, option_eq, unwrap_or,
  if◌then◌else◌,
}
use pg_tsy_core_bootstrap.Decimal.{Decimal, lt, same}
use pg_tsy_core_bootstrap.Types.{venue_eq, Uuid}
use pg_tsy_core_bootstrap.Strategy.Defs.{StrategyMachine, phase_of, expected, net_after}
use pg_tsy_core_bootstrap.Strategy.Control.{enter_safe_hold, on_external_state_unknown}

module _ {Q F : Type 0} ⦃d : Decimal Q⦄ where
  -- What follows `if fully_filled`.
  unfoldable pub settle : StrategyMachine Q F → Q → Q → Bool → StrategyMachine Q F × Bool
  unfolding enter_safe_hold
  settle self cumulative_filled target false = (self, true)
  settle self cumulative_filled target true =
      if not (same cumulative_filled target)
      then (
        enter_safe_hold self "terminal fill quantity does not equal expected intent quantity",
        false,
      )
      else (
        record self {
          state = record (self.state) {
            phase = phase_of self.state.net_quantity;
            active_intent_id = none;
            intent_start_quantity = none;
          };
        },
        true,
      )

  -- From the comparison with the expected quantity on.
  abbrev pub progress : Option Q → StrategyMachine Q F → Q → Q → Bool → StrategyMachine Q F × Bool
  progress none self start cumulative_filled fully_filled = (self, false)
  progress (some target) self start cumulative_filled fully_filled =
      if lt target cumulative_filled
      then (
        on_external_state_unknown self "venue cumulative fill exceeds expected intent quantity",
        false,
      )
      else settle
          (record self {
            state = record (self.state) {
              net_quantity =
                  net_after self.state.phase start cumulative_filled self.state.net_quantity;
            };
          })
          cumulative_filled target fully_filled

  unfoldable pub on_intent_fill_progress :
      StrategyMachine Q F → Uuid → Q → Bool → StrategyMachine Q F × Bool
  unfolding on_external_state_unknown settle
  on_intent_fill_progress self intent_id cumulative_filled fully_filled =
      let start = unwrap_or self.state.intent_start_quantity self.state.net_quantity in
      if self.state.active_intent_id != some intent_id || lt cumulative_filled d.zero
      then (self, false)
      else progress (expected self.state.phase self.config.order_quantity start) self start
          cumulative_filled fully_filled

  abbrev pub filled_with : Option Q → StrategyMachine Q F → Uuid → StrategyMachine Q F × Bool
  filled_with none self intent_id = (self, false)
  filled_with (some target) self intent_id = on_intent_fill_progress self intent_id target true

  unfoldable pub on_intent_filled : StrategyMachine Q F → Uuid → StrategyMachine Q F × Bool
  unfolding on_intent_fill_progress
  on_intent_filled self intent_id =
      let start = unwrap_or self.state.intent_start_quantity self.state.net_quantity in
      filled_with (expected self.state.phase self.config.order_quantity start) self intent_id
