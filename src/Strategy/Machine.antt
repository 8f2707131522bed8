-- ===== src/Strategy/Machine.antt =====
-- `StrategyConfig::validate`, `StrategyMachine::new` and `on_signal`.
use pg_tsy_core_bootstrap.Prelude.{
  ℕ, String, not, ◌&&◌, ◌||◌, none, some, Result, ok, ◌>>◌, bail_if, ◌==◌, ◌!=◌, string_eq, nat_eq,
  option_eq, unwrap_or, if◌then◌else◌,
}
use pg_tsy_core_bootstrap.Decimal.{Decimal, le, same}
use pg_tsy_core_bootstrap.Float.{Float}
use pg_tsy_core_bootstrap.Types.{
  venue_eq, Signal, is_expired, Side, ExposureEffect, Uuid, OrderIntent,
}
use pg_tsy_core_bootstrap.Strategy.Defs.{
  StrategyConfig, StrategyPhase, StrategyDecision, StrategyMachine, flat_state,
}

module _ {Q F : Type 0} ⦃d : Decimal Q⦄ ⦃f : Float F⦄ where
  -- `StrategyConfig::validate`.
  unfoldable pub validate : StrategyConfig Q F → Result (Unit {0}) String
  validate self = do
    bail_if (le self.order_quantity d.zero) "order_quantity must be positive"
    bail_if
        (not (f.le f.zero self.entry_score && f.le self.entry_score f.one)
          || f.eq self.entry_score f.zero)
        "entry_score must be in (0, 1]"
    bail_if (not (f.le f.zero self.exit_score && f.lt self.exit_score self.entry_score))
        "exit_score must be in [0, entry_score)"
    ok tt

  unfoldable pub new : StrategyConfig Q F → Result (StrategyMachine Q F) String
  unfolding validate
  new config = validate config >> ok (record { config = config; state = flat_state })

  unfoldable pub intent :
      StrategyMachine Q F → Uuid → Signal F → Side → Q → ExposureEffect → OrderIntent Q
  intent self fresh signal side quantity effect = record {
    intent_id = fresh;
    strategy_id = self.config.strategy_id;
    asset = self.config.asset;
    venue = self.config.venue;
    side = side;
    quantity = quantity;
    limit_price = none;
    effect = effect;
    source_signal_id = some signal.signal_id;
  }

  -- The state changes that `submit_entry` and `submit_exit` share.
  abbrev pub await_fill : StrategyMachine Q F → Uuid → StrategyPhase → StrategyMachine Q F
  await_fill self fresh next_phase = record self {
    state = record (self.state) {
      intent_start_quantity = some self.state.net_quantity;
      phase = next_phase;
      active_intent_id = some fresh;
    };
  }

  unfoldable pub submit_entry :
      StrategyMachine Q F
      → Uuid
      → Signal F
      → Side
      → StrategyPhase
      → StrategyMachine Q F × StrategyDecision Q
  unfolding intent
  submit_entry self fresh signal side next_phase = (
    await_fill self fresh next_phase,
    StrategyDecision.submit
        (intent self fresh signal side self.config.order_quantity ExposureEffect.increase),
  )

  unfoldable pub submit_exit :
      StrategyMachine Q F
      → Uuid
      → Signal F
      → Side
      → StrategyPhase
      → StrategyMachine Q F × StrategyDecision Q
  unfolding intent
  submit_exit self fresh signal side next_phase =
      let quantity = d.abs self.state.net_quantity in
      if same quantity d.zero
      then (
        record self {
          state = record (self.state) {
            phase = StrategyPhase.unknown;
            hold_reason = some "exit requested with zero owned quantity";
          };
        },
        StrategyDecision.hold "position ownership mismatch",
      )
      else (
        await_fill self fresh next_phase,
        StrategyDecision.submit (intent self fresh signal side quantity ExposureEffect.reduce_only),
      )

  -- The `match self.state.phase` of `on_signal`.
  abbrev pub act :
      StrategyPhase
      → StrategyMachine Q F
      → Uuid
      → Signal F
      → StrategyMachine Q F × StrategyDecision Q
  act StrategyPhase.flat self fresh signal =
      if f.le self.config.entry_score signal.score
      then submit_entry self fresh signal Side.buy StrategyPhase.entering_long
      else if self.config.allow_short && f.le signal.score (f.neg self.config.entry_score)
      then submit_entry self fresh signal Side.sell StrategyPhase.entering_short
      else (self, StrategyDecision.noop)
  act StrategyPhase.long self fresh signal =
      if f.le signal.score self.config.exit_score
      then submit_exit self fresh signal Side.sell StrategyPhase.exiting_long
      else (self, StrategyDecision.noop)
  act StrategyPhase.short self fresh signal =
      if f.le (f.neg self.config.exit_score) signal.score
      then submit_exit self fresh signal Side.buy StrategyPhase.exiting_short
      else (self, StrategyDecision.noop)
  act StrategyPhase.safe_hold self fresh signal =
      (self, StrategyDecision.hold (unwrap_or self.state.hold_reason "strategy is in safe hold"))
  act StrategyPhase.unknown self fresh signal =
      (self, StrategyDecision.hold "state is unknown; reconcile required")
  act StrategyPhase.halted self fresh signal = (self, StrategyDecision.hold "strategy is halted")
  act _ self fresh signal = (self, StrategyDecision.noop)

  -- The machine that has noted a signal.
  abbrev pub remember : StrategyMachine Q F → Signal F → StrategyMachine Q F
  remember self signal = record self {
    state = record (self.state) { last_signal_id = some signal.signal_id };
  }

  unfoldable pub on_signal :
      StrategyMachine Q F → Uuid → Signal F → ℕ → StrategyMachine Q F × StrategyDecision Q
  unfolding is_expired
  on_signal self fresh signal now_ns =
      if signal.asset != self.config.asset || signal.venue != self.config.venue
      then (self, StrategyDecision.noop)
      else if is_expired signal now_ns
      then (self, StrategyDecision.hold "expired signal")
      else if self.state.last_signal_id == some signal.signal_id
      then (self, StrategyDecision.noop)
      else act self.state.phase (remember self signal) fresh signal
