-- ===== src/Strategy/Histories.antt =====
-- Every history of a strategy: the calls of its methods, in any order.
use pg_tsy_core_bootstrap.Prelude.{ℕ, String, Bool, true, ok, ◌≡◌, List, [], ◌∷◌, arith, unwrap_or}
use pg_tsy_core_bootstrap.Decimal.{Decimal, IsLawful}
use pg_tsy_core_bootstrap.Float.{Float}
use pg_tsy_core_bootstrap.Types.{Signal, Uuid}
use pg_tsy_core_bootstrap.Strategy.Defs.{StrategyConfig, StrategyMachine, expected}
use pg_tsy_core_bootstrap.Strategy.Machine.{new, on_signal}
use pg_tsy_core_bootstrap.Strategy.Control.{
  on_external_state_unknown, enter_safe_hold, halt, restore_after_reconcile,
}
use pg_tsy_core_bootstrap.Strategy.Progress.{on_intent_fill_progress, on_intent_filled}
use pg_tsy_core_bootstrap.Strategy.Invariant.{
  IsValid, NetFits, start_of, on_signal-IsValid, new-IsValid, on_intent_fill_progress-IsValid,
}

pub data Event (Q F : Type 0) : Type 0 where
  signal : Uuid → Signal F → ℕ → Event Q F
  fill_progress : Uuid → Q → Bool → Event Q F
  intent_filled : Uuid → Event Q F
  external_unknown : String → Event Q F
  safe_hold : String → Event Q F
  halt_for : String → Event Q F
  restore : Q → Event Q F

module _ {Q F : Type 0} ⦃d : Decimal Q⦄ ⦃f : Float F⦄ where
  unfoldable pub step : StrategyMachine Q F → Event Q F → StrategyMachine Q F
  step m (Event.signal fresh s now_ns) = (on_signal m fresh s now_ns).0
  step m (Event.fill_progress id cumulative fully) =
      (on_intent_fill_progress m id cumulative fully).0
  step m (Event.intent_filled id) = (on_intent_filled m id).0
  step m (Event.external_unknown reason) = on_external_state_unknown m reason
  step m (Event.safe_hold reason) = enter_safe_hold m reason
  step m (Event.halt_for reason) = halt m reason
  step m (Event.restore net) = restore_after_reconcile m net

  unfoldable pub run : StrategyMachine Q F → List (Event Q F) → StrategyMachine Q F
  run m [] = m
  run m (e ∷ es) = run (step m e) es

  -- The quantity that `on_intent_filled` reports.
  abbrev pub whole : StrategyMachine Q F → Q
  whole m = unwrap_or (expected m.state.phase m.config.order_quantity (start_of m)) (start_of m)

  -- The positions that the reports of fills lead to can be held exactly.
  abbrev pub EventFits : StrategyMachine Q F → Event Q F → Type 0
  EventFits m (Event.fill_progress id cumulative fully) =
      NetFits m.state.phase (start_of m) cumulative
  EventFits m (Event.intent_filled id) = NetFits m.state.phase (start_of m) (whole m)
  EventFits m _ = Unit

  abbrev pub RunFits : StrategyMachine Q F → List (Event Q F) → Type 0
  RunFits m [] = Unit
  RunFits m (e ∷ es) = EventFits m e × RunFits (step m e) es

module _ {Q F : Type 0} ⦃d : Decimal Q⦄ ⦃f : Float F⦄ (lawful : IsLawful d) where
  on_intent_filled-IsValid :
      (m : StrategyMachine Q F) (id : Uuid)
      → NetFits m.state.phase (start_of m) (whole m)
      → IsValid m
      → IsValid (on_intent_filled m id).0
  unfolding on_intent_filled on_intent_fill_progress
  on_intent_filled-IsValid m id fits h =
      ground (arith, on_intent_fill_progress-IsValid lawful m id (whole m) true)

  step-IsValid :
      (m : StrategyMachine Q F) (e : Event Q F) → EventFits m e → IsValid m → IsValid (step m e)
  unfolding step
  step-IsValid m (Event.signal fresh s now_ns) fits h = on_signal-IsValid lawful m fresh s now_ns h
  step-IsValid m (Event.fill_progress id cumulative fully) fits h =
      on_intent_fill_progress-IsValid lawful m id cumulative fully fits h
  step-IsValid m (Event.intent_filled id) fits h = on_intent_filled-IsValid m id fits h
  step-IsValid m (Event.external_unknown reason) fits h =
      unfold on_external_state_unknown in ground arith
  step-IsValid m (Event.safe_hold reason) fits h = unfold enter_safe_hold in ground arith
  step-IsValid m (Event.halt_for reason) fits h = unfold halt in ground arith
  step-IsValid m (Event.restore net) fits h = unfold restore_after_reconcile in ground arith

  run-IsValid_of :
      (m : StrategyMachine Q F) (es : List (Event Q F))
      → RunFits m es
      → IsValid m
      → IsValid (run m es)
  unfolding run
  run-IsValid_of m [] fits h = h
  run-IsValid_of m (e ∷ es) fits h = run-IsValid_of (step m e) es fits.1 (step-IsValid m e fits.0 h)

  -- With lawful decimals, after any calls on a machine that `new` made, where the positions can be
  -- held exactly: a flat strategy owns nothing, a long or short one owns a position of that sign,
  -- an entry or an exit in flight has its start recorded and the position between its start and
  -- its goal, and outside those four phases and `Unknown` no intent is in flight.
  pub run-IsValid :
      (config : StrategyConfig Q F) (m : StrategyMachine Q F) (es : List (Event Q F))
      → new config ≡ ok m
      → RunFits m es
      → IsValid (run m es)
  run-IsValid config m es made fits = run-IsValid_of m es fits (new-IsValid lawful config m made)
