-- ===== src/Reconcile/Gates.antt =====
-- The gates on new exposure.
use pg_tsy_core_bootstrap.Prelude.{
  String, true, List, [], ◌∷◌, ◌≡◌, ◌≢◌, ◌↔◌, refl, All, arith, string_eq,
}
use pg_tsy_core_bootstrap.Types.{Venue, venue_eq}
use pg_tsy_core_bootstrap.Reconcile.Defs.{
  Ownership, VenuePosition, may_open_new_exposure, may_open_new_exposure_for,
}

module _ {Q : Type 0} where
  -- The gate of an asset opens exactly when no position on that asset at that venue has an unknown
  -- owner: positions elsewhere, and those of a strategy or of a person, do not count.
  pub may_open_new_exposure_for_iff :
      (positions : List (VenuePosition Q)) (venue : Venue) (asset : String)
      → (may_open_new_exposure_for positions venue asset ≡ true)
        ↔ All (λ p. p.venue ≡ venue → p.asset ≡ asset → p.ownership ≢ Ownership.unknown) positions
  unfolding may_open_new_exposure_for
  may_open_new_exposure_for_iff [] venue asset = (λ _. tt, λ _. refl)
  may_open_new_exposure_for_iff (p ∷ ps) venue asset = ground (
    arith,
    may_open_new_exposure_for_iff ps venue asset,
    string_eq.beq_iff p.asset asset,
    venue_eq.beq_iff p.venue venue,
  )

  -- What the global gate lets through, the gate of every asset lets through.
  pub may_open_of_global :
      (positions : List (VenuePosition Q)) (venue : Venue) (asset : String)
      → may_open_new_exposure positions ≡ true
      → may_open_new_exposure_for positions venue asset ≡ true
  unfolding may_open_new_exposure may_open_new_exposure_for
  may_open_of_global [] venue asset h = refl
  may_open_of_global (p ∷ ps) venue asset h = ground (arith, may_open_of_global ps venue asset)
