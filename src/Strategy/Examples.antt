-- ===== src/Strategy/Examples.antt =====
-- rust/crates/pg-strategy/src/lib.rs: the theorems at a concrete strategy.
use pg_tsy_core_bootstrap.Strategy.Progress.{on_intent_fill_progress}
use pg_tsy_core_bootstrap.Strategy.Machine.{submit_entry}
use pg_tsy_core_bootstrap.Strategy.Progress.{on_intent_filled}
use pg_tsy_core_bootstrap.Strategy.Control.{halt}
use pg_tsy_core_bootstrap.Strategy.Histories.{step}
use pg_tsy_core_bootstrap.Prelude.{
  ℤ, true, false, some, none, pos, ◌≡◌, ◌≢◌, ◌⊎◌, inr, refl, List, [], ◌∷◌,
}
use pg_tsy_core_bootstrap.Samples.{whole_numbers, whole_numbers_lawful, hundredths, strong_signal}
use pg_tsy_core_bootstrap.Types.{Venue, Side, ExposureEffect, OrderIntent, is_expired}
use pg_tsy_core_bootstrap.Strategy.Defs.{StrategyConfig, StrategyPhase, StrategyMachine, flat_state}
use pg_tsy_core_bootstrap.Strategy.Machine.{new, on_signal}
use pg_tsy_core_bootstrap.Strategy.Invariant.{IsValid}
use pg_tsy_core_bootstrap.Strategy.Histories.{Event, run, run-IsValid}
use pg_tsy_core_bootstrap.Strategy.Signals.{
  is_awaiting, is_submit, IsEntry, IsExit, on_signal-submit, on_signal_blocked,
}

abbrev config : StrategyConfig ℤ ℤ
config = record {
  strategy_id = "trend";
  asset = "BTCUSDT";
  venue = Venue.binance_pm;
  order_quantity = pos 5;
  entry_score = pos 60;
  exit_score = pos 20;
  allow_short = false;
}

abbrev fresh_machine : StrategyMachine ℤ ℤ
fresh_machine = record { config = config; state = flat_state }

abbrev history : List (Event ℤ ℤ)
history =
    Event.signal 1 strong_signal 20
    ∷ Event.fill_progress 1 (pos 2) false
    ∷ Event.intent_filled 1
    ∷ Event.halt_for "stop"
    ∷ []

ends_halted : (run fresh_machine history).state.net_quantity ≡ pos 5
unfolding run step halt on_intent_filled on_signal submit_entry
ends_halted = refl

run-IsValid_example : IsValid (run fresh_machine history)
unfolding new step on_signal submit_entry on_intent_fill_progress
run-IsValid_example =
    run-IsValid whole_numbers_lawful config fresh_machine history refl (tt, (tt, (tt, (tt, tt))))

abbrev entry : OrderIntent ℤ
entry = record {
  intent_id = 1;
  strategy_id = "trend";
  asset = "BTCUSDT";
  venue = Venue.binance_pm;
  side = Side.buy;
  quantity = pos 5;
  limit_price = none;
  effect = ExposureEffect.increase;
  source_signal_id = some "s1";
}

on_signal-submit_example :
    (entry.asset ≡ "BTCUSDT")
    × (entry.venue ≡ Venue.binance_pm)
    × (entry.limit_price ≡ none)
    × (is_expired strong_signal 20 ≡ false)
    × (fresh_machine.state.last_signal_id ≢ some "s1")
    × (IsEntry fresh_machine strong_signal entry ⊎ IsExit fresh_machine entry)
    × (is_awaiting (on_signal fresh_machine 1 strong_signal 20).0.state.phase ≡ true)
    × ((on_signal fresh_machine 1 strong_signal 20).0.state.active_intent_id ≡ some 1)
unfolding on_signal submit_entry
on_signal-submit_example = on_signal-submit fresh_machine 1 strong_signal 20 entry refl

abbrev halted : StrategyMachine ℤ ℤ
halted = record fresh_machine { state = record flat_state { phase = StrategyPhase.halted } }

on_signal_blocked_example :
    (is_submit (on_signal halted 1 strong_signal 20).1 ≡ false)
    × ((on_signal halted 1 strong_signal 20).0.state.phase ≡ StrategyPhase.halted)
    × ((on_signal halted 1 strong_signal 20).0.state.net_quantity ≡ pos 0)
    × ((on_signal halted 1 strong_signal 20).0.state.active_intent_id ≡ none)
on_signal_blocked_example = on_signal_blocked halted 1 strong_signal 20 (inr (inr (inr refl)))
