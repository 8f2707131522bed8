-- ===== src/Matching/Paths.antt =====
-- The paths of `match_order`, as one principle of case analysis for its result.
use pg_tsy_core_bootstrap.Prelude.{
  ℕ, String, true, false, ◌&&◌, not, some, Result, ok, err, ◌≡◌, refl, inl, inr, arith,
  Option-cases, if_paths, ◌⊎◌, ◌==◌,
}
use pg_tsy_core_bootstrap.Decimal.{Decimal, le}
use pg_tsy_core_bootstrap.Types.{ExposureEffect, effect_eq}
use pg_tsy_core_bootstrap.Types.Advanced.{
  AdvancedOrderIntent, AdvancedOrderError, validate, error_text,
}
use pg_tsy_core_bootstrap.Matching.Match.{
  SessionPhase, TopOfBook, MatchResult, crosses, execute, after_gates, match_order, reject,
  time_gate, no_cross, reduce_only_capacity,
}

validation_cases :
    (v : Result (Unit {0}) AdvancedOrderError)
    → ((e : AdvancedOrderError) × (v ≡ err e)) ⊎ (v ≡ ok tt)
validation_cases (ok u) = inr refl
validation_cases (err e) = inl (e, refl)

module _ {Q : Type 0} ⦃d : Decimal Q⦄ where
  module _ {ℓ} (P : MatchResult Q → Type ℓ) (order : AdvancedOrderIntent Q) (top : TopOfBook Q)
      (position : Q) (rejected : (reason : String) → P (reject order reason)) where
    after_gates_paths :
        (crosses order top ≡ false → P (no_cross order.time_in_force order))
        → (crosses order top ≡ true
            → order.constraints.post_only ≡ false
            → P (execute order top position))
        → P (after_gates order top position)
    unfolding after_gates
    after_gates_paths missed met =
        if_paths P (order.constraints.post_only && crosses order top) _ _ (λ _. rejected _)
          λ takes.
            if_paths P
              (order.base.effect == ExposureEffect.reduce_only
                && le (reduce_only_capacity order position) d.zero)
              (reject order "reduce-only order would not reduce exposure") _ (λ _. rejected _)
              λ _.
                if_paths P (not (crosses order top)) _ _ (λ h. missed (ground arith))
                  λ h. met (ground arith) (ground arith)

    pub match_order_paths :
        (now_ns : ℕ) (session : SessionPhase)
        → ((r : MatchResult Q) → time_gate order.time_in_force order now_ns session ≡ some r → P r)
        → (crosses order top ≡ false → P (no_cross order.time_in_force order))
        → (validate order ≡ ok tt
            → crosses order top ≡ true
            → order.constraints.post_only ≡ false
            → P (execute order top position))
        → P (match_order order top position now_ns session)
    unfolding match_order
    match_order_paths now_ns session gated missed met = elim (validation_cases (validate order)) [
      | inl (e, bad) ↦ rw (bad, match_order) (rejected (error_text e))
      | inr good ↦ elim (Option-cases (time_gate order.time_in_force order now_ns session)) [
        | inl through ↦ rw (good, match_order) (rw through (after_gates_paths missed (met good)))
        | inr (r, early) ↦ rw (good, match_order) (rw early (gated r early))
      ]
    ]
