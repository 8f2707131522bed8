-- ===== src/Risk.antt =====
-- rust/crates/pg-risk/src/lib.rs: the last check of signals and orders.
mod Examples
pub mod Gate
use pg_tsy_core_bootstrap.Prelude.{ℕ, Bool, not, ◌&&◌, ◌||◌, ◌==◌, if◌then◌else◌}
use pg_tsy_core_bootstrap.Decimal.{Decimal, le}
use pg_tsy_core_bootstrap.Float.{Float}
use pg_tsy_core_bootstrap.Types.{
  Signal, OrderIntent, ExposureEffect, effect_eq, RiskDecision, is_expired,
}

pub record RiskLimits (F : Type 0) : Type 0 where
  pub min_confidence : F
  pub max_abs_signal_score : F
  pub allow_new_exposure : Bool

module _ {F : Type 0} ⦃f : Float F⦄ where
  unfoldable pub evaluate_signal : Signal F → ℕ → RiskLimits F → RiskDecision
  unfolding is_expired
  evaluate_signal signal now_ns limits =
      if is_expired signal now_ns
      then RiskDecision.reject "SIGNAL_EXPIRED" "signal TTL elapsed"
      else if not (f.le f.zero signal.confidence && f.le signal.confidence f.one)
          || f.lt signal.confidence limits.min_confidence
      then RiskDecision.reject "LOW_CONFIDENCE" "confidence below limit"
      else if f.lt limits.max_abs_signal_score (f.abs signal.score)
      then RiskDecision.reject "INVALID_SCORE" "score outside configured bound"
      else RiskDecision.allow

  unfoldable pub evaluate_order :
      {Q : Type 0} ⦃d : Decimal Q⦄ → OrderIntent Q → RiskLimits F → RiskDecision
  evaluate_order ⦃d⦄ intent limits =
      if le intent.quantity d.zero
      then RiskDecision.reject "INVALID_QTY" "quantity must be positive"
      else if intent.effect == ExposureEffect.increase && not limits.allow_new_exposure
      then RiskDecision.reject "NEW_EXPOSURE_DISABLED" "live/new exposure gate is closed"
      else RiskDecision.allow
