-- ===== src/Shadow/Reduce.antt =====
-- What a reduce-only order does to the position.
use pg_tsy_core_bootstrap.Prelude.{
  arith, int_laws, ap, ◌+◌, pos_part, neg_part, neg_ℤ, ℤ, pos, ◌≤ℤ◌, ◌+ℤ◌, String, false, Option,
  none, some, Result, ok, err, ◌≡◌, refl, ◌∙◌, ◌⊎◌, inl, inr, ==_refl, string_eq,
}
use pg_tsy_core_bootstrap.Decimal.{Decimal, IsLawful, Fits, le, is_zero}
use pg_tsy_core_bootstrap.Types.{
  Side, Uuid, OrderIntent, ExposureEffect, client_order_id, effect_eq,
}
use pg_tsy_core_bootstrap.Execution.{ExecutionError, VenueOrderSnapshot, find_by_client}
use pg_tsy_core_bootstrap.Shadow.Defs.{
  ShadowFillMode, ShadowAdapterConfig, Shadow, sign_of, same_sign,
}
use pg_tsy_core_bootstrap.Shadow.Book.{position, signed, apply_fill, guard_reduce_only}
use pg_tsy_core_bootstrap.Shadow.Adapter.{
  fill_price, place, adopt_or_place, check_intent, submit_checked, submit,
}
use pg_tsy_core_bootstrap.Shadow.Ledger.{position-apply_fill}

-- The second position is the first or nearer to flat, on the same side of it.
abbrev pub Shrinks : ℤ → ℤ → Type 0
Shrinks before after =
    ((pos 0 ≤ℤ after) × (after ≤ℤ before)) ⊎ ((before ≤ℤ after) × (after ≤ℤ pos 0))

self-Shrinks : (z : ℤ) → Shrinks z z
self-Shrinks z = ground arith

add_balance :
    (a b : ℤ)
    → pos_part (a +ℤ b) + (neg_part a + neg_part b) ≡ neg_part (a +ℤ b) + (pos_part a + pos_part b)
add_balance a b = omega int_laws

neg_balance : (a : ℤ) → pos_part (neg_ℤ a) + pos_part a ≡ neg_part (neg_ℤ a) + neg_part a
neg_balance a = omega int_laws

module _ {Q : Type 0} ⦃d : Decimal Q⦄ where
  abbrev pub net : String → Shadow Q → Q
  net asset s = (position asset s.book).net_quantity

  reduced-Shrinks :
      (current delta : Q)
      → IsLawful d
      → Fits (d.units current +ℤ d.units delta)
      → is_zero current ≡ false
      → same_sign current delta ≡ false
      → same_sign (d.add current delta) delta ≡ false
      → is_zero delta ≡ false
      → Shrinks (d.units current) (d.units (d.add current delta))
  unfolding sign_of
  reduced-Shrinks current delta lawful fits opened against within real = ground (
    arith,
    lawful.units_zero,
    add_balance (d.units current) (d.units delta),
    ap pos_part (lawful.units_add current delta fits),
    ap neg_part (lawful.units_add current delta fits),
  )

  signed-real :
      (quantity : Q) (side : Side)
      → IsLawful d
      → le quantity d.zero ≡ false
      → is_zero (signed quantity side) ≡ false
  unfolding signed
  signed-real quantity Side.buy lawful h = ground arith
  signed-real quantity Side.sell lawful h = ground (
    arith,
    lawful.units_zero,
    neg_balance (d.units quantity),
    ap pos_part (lawful.units_neg quantity),
    ap neg_part (lawful.units_neg quantity),
  )

  guard-Shrinks :
      (asset : String) (side : Side) (quantity : Q) (s : Shadow Q)
      → IsLawful d
      → Fits (d.units (net asset s) +ℤ d.units (signed quantity side))
      → guard_reduce_only asset side quantity s ≡ ok tt
      → Shrinks (d.units (net asset s)) (d.units (d.add (net asset s) (signed quantity side)))
  unfolding guard_reduce_only
  guard-Shrinks asset side quantity s lawful fits passed = ground (
    arith,
    reduced-Shrinks (net asset s) (signed quantity side) lawful fits,
    signed-real quantity side lawful,
  )

  -- The net quantity after a checked submission: as before, or with the whole order filled.
  filled_or_not :
      (mode : ShadowFillMode) (client : String) (intent : OrderIntent Q) (s : Shadow Q)
      (found : Option (VenueOrderSnapshot Q))
      → (net intent.asset (adopt_or_place mode client intent found s).1 ≡ net intent.asset s)
        ⊎ (net intent.asset (adopt_or_place mode client intent found s).1
            ≡ d.add (net intent.asset s) (signed intent.quantity intent.side))
  unfolding adopt_or_place place position apply_fill
  filled_or_not mode client intent s (some existing) = inl refl
  filled_or_not ShadowFillMode.rest client intent s none = inl refl
  filled_or_not ShadowFillMode.immediate_fill client intent s none = inr (
      position-apply_fill intent.asset intent.asset intent.side intent.quantity
        (fill_price intent.limit_price s.reference_price) s.book
      ∙ rw (==_refl intent.asset))

  submitted-Shrinks :
      (mode : ShadowFillMode) (client : String) (intent : OrderIntent Q) (s : Shadow Q)
      (checked : Result (Unit {0}) ExecutionError)
      → (checked ≡ ok tt
          → Shrinks
              (d.units (net intent.asset s))
              (d.units (d.add (net intent.asset s) (signed intent.quantity intent.side))))
      → Shrinks
          (d.units (net intent.asset s))
          (d.units (net intent.asset (submit_checked mode client intent checked s).1))
  submitted-Shrinks mode client intent s (err e) shrinks = self-Shrinks _
  submitted-Shrinks mode client intent s (ok _) shrinks =
      by_fill (filled_or_not mode client intent s (find_by_client client s.book.orders))
    where
      by_fill :
          (net intent.asset
                (adopt_or_place mode client intent (find_by_client client s.book.orders) s).1
              ≡ net intent.asset s)
            ⊎ (net intent.asset
                  (adopt_or_place mode client intent (find_by_client client s.book.orders) s).1
                ≡ d.add (net intent.asset s) (signed intent.quantity intent.side))
          → Shrinks (d.units (net intent.asset s)) (
              d.units (
                net intent.asset
                  (adopt_or_place mode client intent (find_by_client client s.book.orders) s).1))
      by_fill (inl kept) = rw kept (self-Shrinks _)
      by_fill (inr filled) = rw filled (shrinks refl)

  guard_of_check :
      (config : ShadowAdapterConfig) (intent : OrderIntent Q) (s : Shadow Q)
      → intent.effect ≡ ExposureEffect.reduce_only
      → check_intent config intent s ≡ ok tt
      → guard_reduce_only intent.asset intent.side intent.quantity s ≡ ok tt
  unfolding check_intent
  guard_of_check config intent s reduces passed =
      ground (arith, effect_eq.beq_iff intent.effect ExposureEffect.reduce_only)

  -- A reduce-only order whose exact new position can be held, accepted or refused, filled or resting:
  -- the position of its asset stays as it is or moves towards flat, and it never changes sides.
  pub submit-Shrinks :
      (simple : Uuid → String) (config : ShadowAdapterConfig) (intent : OrderIntent Q)
      (s : Shadow Q)
      → IsLawful d
      → intent.effect ≡ ExposureEffect.reduce_only
      → Fits (d.units (net intent.asset s) +ℤ d.units (signed intent.quantity intent.side))
      → Shrinks
          (d.units (net intent.asset s))
          (d.units (net intent.asset (submit simple config intent s).1))
  unfolding submit
  submit-Shrinks simple config intent s lawful reduces fits =
      submitted-Shrinks config.fill_mode (client_order_id simple intent) intent s
        (check_intent config intent s)
        λ passed.
          guard-Shrinks intent.asset intent.side intent.quantity s lawful fits
            (guard_of_check config intent s reduces passed)
