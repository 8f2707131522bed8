-- ===== src/Types/Advanced.antt =====
-- rust/crates/pg-types/src/advanced_order.rs: orders with time in force, constraints and links.
use pg_tsy_core_bootstrap.Prelude.{
  ℕ, String, Bool, true, false, not, Option, ◌&&◌, ◌||◌, Result, ok, ◌>>◌, bail_if, is_some,
  is_some_and, unwrap_or, ◌==◌, nat_eq, is_blank,
}
use pg_tsy_core_bootstrap.Decimal.{Decimal, le, min}
use pg_tsy_core_bootstrap.Types.Defs.{OrderIntent, Side, ExposureEffect}

pub data TimeInForce : Type 0 where
  gtc ioc fok : TimeInForce
  gtd : ℕ → TimeInForce
  day at_the_open at_the_close : TimeInForce

pub record OrderConstraints (Q : Type 0) : Type 0 where
  pub post_only : Bool
  pub reduce_only : Bool
  pub iceberg_display_quantity : Option Q

pub data CompositeInstruction : Type 0 where
  single : CompositeInstruction
  oco : String → CompositeInstruction
  ouo : String → CompositeInstruction
  oto : String → CompositeInstruction

pub record AdvancedOrderIntent (Q : Type 0) : Type 0 where
  pub base : OrderIntent Q
  pub time_in_force : TimeInForce
  pub constraints : OrderConstraints Q
  pub composite : CompositeInstruction

pub data AdvancedOrderError : Type 0 where
  non_positive_quantity post_only_market invalid_iceberg invalid_gtd : AdvancedOrderError
  empty_composite_id reduce_only_mismatch : AdvancedOrderError

-- `matches!(self.time_in_force, Gtd { expires_at_ns: 0 })`.
abbrev pub gtd_at_zero : TimeInForce → Bool
gtd_at_zero (TimeInForce.gtd expires_at_ns) = expires_at_ns == 0
gtd_at_zero _ = false

-- The guards of the `match &self.composite`.
abbrev pub empty_id : CompositeInstruction → Bool
empty_id (CompositeInstruction.oco group_id) = is_blank group_id
empty_id (CompositeInstruction.ouo group_id) = is_blank group_id
empty_id (CompositeInstruction.oto parent) = is_blank parent
empty_id CompositeInstruction.single = false

abbrev pub is_reduce_only_effect : ExposureEffect → Bool
is_reduce_only_effect ExposureEffect.reduce_only = true
is_reduce_only_effect ExposureEffect.increase = false

abbrev pub bool_ne : Bool → Bool → Bool
bool_ne true b = not b
bool_ne false b = b

module _ {Q : Type 0} ⦃d : Decimal Q⦄ where
  unfoldable pub validate : AdvancedOrderIntent Q → Result (Unit {0}) AdvancedOrderError
  validate self = do
    bail_if (le self.base.quantity d.zero) AdvancedOrderError.non_positive_quantity
    bail_if (self.constraints.post_only && not (is_some self.base.limit_price))
        AdvancedOrderError.post_only_market
    bail_if
        (is_some_and self.constraints.iceberg_display_quantity
          (λ display. le display d.zero || le self.base.quantity display))
        AdvancedOrderError.invalid_iceberg
    bail_if (gtd_at_zero self.time_in_force) AdvancedOrderError.invalid_gtd
    bail_if (empty_id self.composite) AdvancedOrderError.empty_composite_id
    bail_if (bool_ne self.constraints.reduce_only (is_reduce_only_effect self.base.effect))
        AdvancedOrderError.reduce_only_mismatch
    ok tt

  unfoldable pub visible_quantity : AdvancedOrderIntent Q → Q
  visible_quantity self =
      min (unwrap_or self.constraints.iceberg_display_quantity self.base.quantity)
        self.base.quantity

-- `AdvancedOrderIntent::side`.
unfoldable pub order_side : {Q : Type 0} → AdvancedOrderIntent Q → Side
order_side self = self.base.side

-- The text of an error (`impl Display`).
unfoldable pub error_text : AdvancedOrderError → String
error_text AdvancedOrderError.non_positive_quantity = "quantity must be positive"
error_text AdvancedOrderError.post_only_market = "post-only requires a limit price"
error_text AdvancedOrderError.invalid_iceberg =
    "iceberg display quantity must be positive and smaller than total quantity"
error_text AdvancedOrderError.invalid_gtd = "GTD expiry must be non-zero"
error_text AdvancedOrderError.empty_composite_id = "composite group/id must not be empty"
error_text AdvancedOrderError.reduce_only_mismatch =
    "reduce-only constraint disagrees with base order effect"
