-- ===== src/Types/Examples.antt =====
-- rust/crates/pg-types/src: the theorems at concrete orders.
use pg_tsy_core_bootstrap.Prelude.{is_blank}
use pg_tsy_core_bootstrap.Prelude.{false, some, ok, err, ℤ, pos, ◌≡◌, ◌↔◌, refl}
use pg_tsy_core_bootstrap.Samples.{whole_numbers, advanced}
use pg_tsy_core_bootstrap.Types.Advanced.{
  TimeInForce, CompositeInstruction, AdvancedOrderIntent, AdvancedOrderError, validate,
}
use pg_tsy_core_bootstrap.Types.Validation.{IsWellFormed, validate_iff}

abbrev plain : AdvancedOrderIntent ℤ
plain = advanced 1 TimeInForce.gtc false CompositeInstruction.single

abbrev iceberg : AdvancedOrderIntent ℤ
iceberg = record plain {
  constraints = record (plain.constraints) { iceberg_display_quantity = some (pos 2) };
}

blank_group :
    validate (advanced 1 TimeInForce.ioc false (CompositeInstruction.oco " "))
    ≡ err AdvancedOrderError.empty_composite_id
unfolding validate is_blank
blank_group = refl

validate_iff_example : (validate iceberg ≡ ok tt) ↔ IsWellFormed iceberg
validate_iff_example = validate_iff iceberg
