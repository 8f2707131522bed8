-- ===== src/Strategy/Signals.antt =====
-- What a signal may lead to.
use pg_tsy_core_bootstrap.Prelude.{
  ℕ, Bool, true, false, none, some, ◌≡◌, ◌≢◌, ◌⊎◌, arith, string_eq,
}
use pg_tsy_core_bootstrap.Decimal.{Decimal}
use pg_tsy_core_bootstrap.Float.{Float}
use pg_tsy_core_bootstrap.Types.{Signal, Uuid, Side, ExposureEffect, OrderIntent, is_expired}
use pg_tsy_core_bootstrap.Strategy.Defs.{StrategyPhase, StrategyDecision, StrategyMachine}
use pg_tsy_core_bootstrap.Strategy.Machine.{on_signal, submit_entry, submit_exit}

abbrev pub is_awaiting : StrategyPhase → Bool
is_awaiting StrategyPhase.entering_long = true
is_awaiting StrategyPhase.entering_short = true
is_awaiting StrategyPhase.exiting_long = true
is_awaiting StrategyPhase.exiting_short = true
is_awaiting _ = false

module _ {Q : Type 0} where
  abbrev pub is_submit : StrategyDecision Q → Bool
  is_submit (StrategyDecision.submit i) = true
  is_submit _ = false

module _ {Q F : Type 0} ⦃d : Decimal Q⦄ ⦃f : Float F⦄ where
  -- An intent that enters: of the configured size, from flat, on the side that the score shows.
  abbrev pub IsEntry : StrategyMachine Q F → Signal F → OrderIntent Q → Type 0
  IsEntry m signal i =
      (m.state.phase ≡ StrategyPhase.flat)
      × (i.effect ≡ ExposureEffect.increase)
      × (i.quantity ≡ m.config.order_quantity)
      × (((i.side ≡ Side.buy) × (f.le m.config.entry_score signal.score ≡ true))
          ⊎ ((i.side ≡ Side.sell)
              × (m.config.allow_short ≡ true)
              × (f.le signal.score (f.neg m.config.entry_score) ≡ true)))

  -- An intent that leaves: reduce-only, of the whole position, against it.
  abbrev pub IsExit : StrategyMachine Q F → OrderIntent Q → Type 0
  IsExit m i =
      (i.effect ≡ ExposureEffect.reduce_only)
      × (i.quantity ≡ d.abs m.state.net_quantity)
      × (((m.state.phase ≡ StrategyPhase.long) × (i.side ≡ Side.sell))
          ⊎ ((m.state.phase ≡ StrategyPhase.short) × (i.side ≡ Side.buy)))

  -- An intent that a signal leads to is a market order for the strategy's own asset at its venue,
  -- caused by a signal that is alive and not the last one seen; it is an entry from flat of the
  -- configured size (short only where that is allowed), or the reduce-only exit of the whole
  -- position; and the machine then awaits exactly that intent.
  pub on_signal-submit :
      (m : StrategyMachine Q F) (fresh : Uuid) (signal : Signal F) (now_ns : ℕ) (i : OrderIntent Q)
      → (on_signal m fresh signal now_ns).1 ≡ StrategyDecision.submit i
      → (i.asset ≡ m.config.asset)
        × (i.venue ≡ m.config.venue)
        × (i.limit_price ≡ none)
        × (is_expired signal now_ns ≡ false)
        × (m.state.last_signal_id ≢ some signal.signal_id)
        × (IsEntry m signal i ⊎ IsExit m i)
        × (is_awaiting (on_signal m fresh signal now_ns).0.state.phase ≡ true)
        × ((on_signal m fresh signal now_ns).0.state.active_intent_id ≡ some i.intent_id)
  unfolding on_signal submit_entry submit_exit
  on_signal-submit m fresh signal now_ns i h =
      ground (arith, string_eq.beq_iff signal.signal_id signal.signal_id)

  -- While an intent is in flight, in safe hold, in an unknown state or halted, no signal leads to
  -- an intent, and the phase, the position and the intent in flight stay as they were.
  pub on_signal_blocked :
      (m : StrategyMachine Q F) (fresh : Uuid) (signal : Signal F) (now_ns : ℕ)
      → (is_awaiting m.state.phase ≡ true)
        ⊎ ((m.state.phase ≡ StrategyPhase.safe_hold)
            ⊎ ((m.state.phase ≡ StrategyPhase.unknown) ⊎ (m.state.phase ≡ StrategyPhase.halted)))
      → let m' = (on_signal m fresh signal now_ns).0 in
        (is_submit (on_signal m fresh signal now_ns).1 ≡ false)
        × (m'.state.phase ≡ m.state.phase)
        × (m'.state.net_quantity ≡ m.state.net_quantity)
        × (m'.state.active_intent_id ≡ m.state.active_intent_id)
  unfolding on_signal
  on_signal_blocked m fresh signal now_ns h = ground arith
