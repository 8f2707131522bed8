-- ===== src/Strategy/Invariant.antt =====
-- What holds of a strategy between any two calls of its methods.
use pg_tsy_core_bootstrap.Prelude.{
  ℕ, Bool, Option, none, some, ok, ◌≡◌, arith, unwrap_or, ◌+ℤ◌, ◌-ℤ◌, +ℤ_parts, -ℤ_parts,
  neg_ℤ_parts,
}
use pg_tsy_core_bootstrap.Decimal.{Decimal, IsLawful, Fits, ◌≼◌, ◌≺◌, ◌≈◌}
use pg_tsy_core_bootstrap.Float.{Float}
use pg_tsy_core_bootstrap.Types.{Signal, Uuid}
use pg_tsy_core_bootstrap.Strategy.Defs.{
  StrategyConfig, StrategyPhase, StrategyMachine, expected, net_after,
}
use pg_tsy_core_bootstrap.Strategy.Machine.{new, on_signal, submit_entry, submit_exit}
use pg_tsy_core_bootstrap.Strategy.Progress.{on_intent_fill_progress}

module _ {Q : Type 0} ⦃d : Decimal Q⦄ where
  -- What a phase says of the position, of the quantity that the intent in flight began at, and of
  -- whether there is such an intent. `order_quantity` is the size of an entry.
  abbrev pub PhaseHolds : StrategyPhase → Q → Q → Option Q → Option Uuid → Type 0
  PhaseHolds StrategyPhase.flat order_quantity net start active =
      (net ≈ d.zero) × (start ≡ none) × (active ≡ none)
  PhaseHolds StrategyPhase.long order_quantity net start active =
      (d.zero ≺ net) × (start ≡ none) × (active ≡ none)
  PhaseHolds StrategyPhase.short order_quantity net start active =
      (net ≺ d.zero) × (start ≡ none) × (active ≡ none)
  PhaseHolds StrategyPhase.entering_long order_quantity net (some start) (some id) =
      (start ≈ d.zero) × (d.zero ≼ net) × (net ≼ order_quantity)
  PhaseHolds StrategyPhase.entering_short order_quantity net (some start) (some id) =
      (start ≈ d.zero) × (net ≼ d.zero) × (d.neg order_quantity ≼ net)
  PhaseHolds StrategyPhase.exiting_long order_quantity net (some start) (some id) =
      (d.zero ≺ start) × (d.zero ≼ net) × (net ≼ start)
  PhaseHolds StrategyPhase.exiting_short order_quantity net (some start) (some id) =
      (start ≺ d.zero) × (net ≼ d.zero) × (start ≼ net)
  PhaseHolds StrategyPhase.safe_hold order_quantity net start active =
      (start ≡ none) × (active ≡ none)
  PhaseHolds StrategyPhase.halted order_quantity net start active = (start ≡ none) × (active ≡ none)
  PhaseHolds StrategyPhase.unknown order_quantity net start active = Unit
  PhaseHolds _ order_quantity net start active = ⊥

  -- The new position of an exit can be held exactly.
  abbrev pub NetFits : StrategyPhase → Q → Q → Type 0
  NetFits StrategyPhase.exiting_long start cumulative = Fits (d.units start -ℤ d.units cumulative)
  NetFits StrategyPhase.exiting_short start cumulative = Fits (d.units start +ℤ d.units cumulative)
  NetFits _ start cumulative = Unit

module _ {Q : Type 0} ⦃d : Decimal Q⦄ (lawful : IsLawful d) where
  -- A report within the expected quantity keeps the position within the intent.
  net_after-PhaseHolds :
      (phase : StrategyPhase) (order_quantity net start cumulative target : Q) (id : Uuid)
      → d.zero ≼ cumulative
      → expected phase order_quantity start ≡ some target
      → cumulative ≼ target
      → NetFits phase start cumulative
      → PhaseHolds phase order_quantity net (some start) (some id)
      → PhaseHolds phase order_quantity
          (net_after phase start cumulative net)
          (some start)
          (some id)
  net_after-PhaseHolds phase order_quantity net start cumulative target id n e h fits p = ground (
    arith,
    lawful.units_zero,
    lawful.units_abs start,
    lawful.units_neg order_quantity,
    lawful.units_neg cumulative,
    neg_ℤ_parts (d.units order_quantity),
    neg_ℤ_parts (d.units cumulative),
    lawful.units_sub start cumulative,
    lawful.units_add start cumulative,
    +ℤ_parts (d.units start) (d.units cumulative),
    -ℤ_parts (d.units start) (d.units cumulative),
  )

module _ {Q F : Type 0} ⦃d : Decimal Q⦄ where
  pub record IsValid (m : StrategyMachine Q F) : Type 0 where
    pub positive : d.zero ≺ m.config.order_quantity
    pub phase :
        PhaseHolds m.state.phase m.config.order_quantity m.state.net_quantity
          m.state.intent_start_quantity m.state.active_intent_id

  abbrev pub start_of : StrategyMachine Q F → Q
  start_of m = unwrap_or m.state.intent_start_quantity m.state.net_quantity

module _ {Q F : Type 0} ⦃d : Decimal Q⦄ ⦃f : Float F⦄ (lawful : IsLawful d) where
  pub on_signal-IsValid :
      (m : StrategyMachine Q F) (fresh : Uuid) (signal : Signal F) (now_ns : ℕ)
      → IsValid m
      → IsValid (on_signal m fresh signal now_ns).0
  unfolding on_signal submit_entry submit_exit
  on_signal-IsValid m fresh signal now_ns h = ground (
    arith,
    lawful.units_zero,
    lawful.units_neg m.config.order_quantity,
    neg_ℤ_parts (d.units m.config.order_quantity),
  )

  pub new-IsValid :
      (config : StrategyConfig Q F) (m : StrategyMachine Q F) → new config ≡ ok m → IsValid m
  unfolding new
  new-IsValid config m h = ground arith

  pub on_intent_fill_progress-IsValid :
      (m : StrategyMachine Q F) (id : Uuid) (cumulative : Q) (fully : Bool)
      → NetFits m.state.phase (start_of m) cumulative
      → IsValid m
      → IsValid (on_intent_fill_progress m id cumulative fully).0
  unfolding on_intent_fill_progress
  on_intent_fill_progress-IsValid m id cumulative fully fits h =
      let start = start_of m in
      let target = unwrap_or (expected m.state.phase m.config.order_quantity start) cumulative in
      ground (
        arith,
        net_after-PhaseHolds lawful m.state.phase m.config.order_quantity m.state.net_quantity start
            cumulative target id,
      )
