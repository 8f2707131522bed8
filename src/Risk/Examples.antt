-- ===== src/Risk/Examples.antt =====
-- rust/crates/pg-risk/src/lib.rs: the theorems at a concrete signal and order.
use pg_tsy_core_bootstrap.Prelude.{ℤ, true, pos, ◌≡◌, ◌↔◌, ◌⊎◌}
use pg_tsy_core_bootstrap.Decimal.{◌≺◌}
use pg_tsy_core_bootstrap.Samples.{whole_numbers, hundredths, strong_signal, buy_five}
use pg_tsy_core_bootstrap.Types.{ExposureEffect, RiskDecision}
use pg_tsy_core_bootstrap.Risk.{RiskLimits, evaluate_signal, evaluate_order}
use pg_tsy_core_bootstrap.Risk.Gate.{IsAdmissible, evaluate_signal_iff, evaluate_order_iff}

abbrev limits : RiskLimits ℤ
limits = record {
  min_confidence = pos 60;
  max_abs_signal_score = pos 100;
  allow_new_exposure = true;
}

evaluate_signal_iff_example :
    (evaluate_signal strong_signal 20 limits ≡ RiskDecision.allow)
    ↔ IsAdmissible strong_signal 20 limits
evaluate_signal_iff_example = evaluate_signal_iff strong_signal 20 limits

evaluate_order_iff_example :
    (evaluate_order (buy_five 1) limits ≡ RiskDecision.allow)
    ↔ ((pos 0 ≺ pos 5) × ((ExposureEffect.increase ≡ ExposureEffect.reduce_only) ⊎ (true ≡ true)))
evaluate_order_iff_example = evaluate_order_iff (buy_five 1) limits
