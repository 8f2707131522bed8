-- ===== src/Risk/Gate.antt =====
-- When the risk checks let a signal or an order through.
use pg_tsy_core_bootstrap.Prelude.{ℕ, ◌<◌, true, false, ◌≡◌, ◌↔◌, ◌⊎◌, arith}
use pg_tsy_core_bootstrap.Decimal.{Decimal, ◌≺◌}
use pg_tsy_core_bootstrap.Float.{Float}
use pg_tsy_core_bootstrap.Types.{Signal, OrderIntent, ExposureEffect, RiskDecision}
use pg_tsy_core_bootstrap.Risk.{RiskLimits, evaluate_signal, evaluate_order}

module _ {F : Type 0} ⦃f : Float F⦄ where
  -- The signals that the limits admit at a time.
  pub record IsAdmissible (signal : Signal F) (now_ns : ℕ) (limits : RiskLimits F) : Type 0 where
    pub alive : now_ns < signal.expires_at_ns
    pub above_zero : f.le f.zero signal.confidence ≡ true
    pub below_one : f.le signal.confidence f.one ≡ true
    pub confident : f.lt signal.confidence limits.min_confidence ≡ false
    pub bounded : f.lt limits.max_abs_signal_score (f.abs signal.score) ≡ false

  -- A signal is allowed exactly when it has not expired, its confidence lies in [0, 1] and is not
  -- below the limit, and its score is not beyond the limit.
  pub evaluate_signal_iff :
      (signal : Signal F) (now_ns : ℕ) (limits : RiskLimits F)
      → (evaluate_signal signal now_ns limits ≡ RiskDecision.allow)
        ↔ IsAdmissible signal now_ns limits
  unfolding evaluate_signal
  evaluate_signal_iff signal now_ns limits = ground arith

  -- An order is allowed exactly when its quantity is positive and it either only reduces exposure or
  -- the gate for new exposure is open.
  pub evaluate_order_iff :
      {Q : Type 0} ⦃d : Decimal Q⦄ (intent : OrderIntent Q) (limits : RiskLimits F)
      → (evaluate_order intent limits ≡ RiskDecision.allow) ↔ (
          (d.zero ≺ intent.quantity)
          × ((intent.effect ≡ ExposureEffect.reduce_only) ⊎ (limits.allow_new_exposure ≡ true)))
  unfolding evaluate_order
  evaluate_order_iff intent limits = ground arith
