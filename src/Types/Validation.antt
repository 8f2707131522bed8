-- ===== src/Types/Validation.antt =====
-- What `AdvancedOrderIntent::validate` promises.
use pg_tsy_core_bootstrap.Prelude.{
  true, false, Option, none, some, ok, ◌≡◌, ◌≢◌, ◌↔◌, arith, is_blank,
}
use pg_tsy_core_bootstrap.Decimal.{Decimal, ◌≼◌, ◌≺◌}
use pg_tsy_core_bootstrap.Types.Defs.{ExposureEffect}
use pg_tsy_core_bootstrap.Types.Advanced.{
  TimeInForce, CompositeInstruction, AdvancedOrderIntent, validate, visible_quantity,
}

abbrev pub ExpiresLater : TimeInForce → Type 0
ExpiresLater (TimeInForce.gtd expires_at_ns) = expires_at_ns ≢ 0
ExpiresLater _ = Unit

abbrev pub IsLinked : CompositeInstruction → Type 0
IsLinked CompositeInstruction.single = Unit
IsLinked (CompositeInstruction.oco group_id) = is_blank group_id ≡ false
IsLinked (CompositeInstruction.ouo group_id) = is_blank group_id ≡ false
IsLinked (CompositeInstruction.oto parent) = is_blank parent ≡ false

module _ {Q : Type 0} ⦃d : Decimal Q⦄ where
  -- A display quantity lies strictly between zero and the whole quantity.
  abbrev pub ShowsPart : Q → Option Q → Type 0
  ShowsPart quantity none = Unit
  ShowsPart quantity (some display) = (d.zero ≺ display) × (display ≺ quantity)

  -- The well-formed orders, field by field.
  pub record IsWellFormed (o : AdvancedOrderIntent Q) : Type 0 where
    pub positive : d.zero ≺ o.base.quantity
    pub limited : o.constraints.post_only ≡ true → o.base.limit_price ≢ none
    pub iceberg : ShowsPart o.base.quantity o.constraints.iceberg_display_quantity
    pub expiry : ExpiresLater o.time_in_force
    pub linked : IsLinked o.composite
    pub effect : (o.constraints.reduce_only ≡ true) ↔ (o.base.effect ≡ ExposureEffect.reduce_only)

  -- `validate` accepts an order exactly when its quantity is positive, a post-only order has a
  -- limit price, a displayed quantity is positive and below the whole, a GTD expiry is not 0, the
  -- id of a link is not blank, and the reduce-only constraint and effect agree.
  pub validate_iff : (o : AdvancedOrderIntent Q) → (validate o ≡ ok tt) ↔ IsWellFormed o
  unfolding validate
  validate_iff o = ground arith

  -- The visible quantity of an order that `validate` accepts is positive and at most its quantity.
  pub visible_bounds :
      (o : AdvancedOrderIntent Q)
      → validate o ≡ ok tt
      → (d.zero ≺ visible_quantity o) × (visible_quantity o ≼ o.base.quantity)
  unfolding visible_quantity validate
  visible_bounds o h = ground arith
