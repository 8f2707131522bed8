-- ===== src/Samples.antt =====
-- Data for the examples: decimals and floats as integers, and an order of each kind.
use pg_tsy_core_bootstrap.Prelude.{
  ℕ, ◌*◌, ◌/◌, negsuc, ◌+◌, String, Bool, true, false, none, some, ◌==◌, nat_eq, refl, ℤ, pos, ◌+ℤ◌,
  ◌-ℤ◌, neg_ℤ, pos_part, neg_part, if◌then◌else◌,
}
use pg_tsy_core_bootstrap.Decimal.{Decimal, IsLawful, lt, le, same}
use pg_tsy_core_bootstrap.Float.{Float}
use pg_tsy_core_bootstrap.Types.{Venue, Signal, Side, ExposureEffect, Uuid, OrderIntent}
use pg_tsy_core_bootstrap.Types.Advanced.{TimeInForce, CompositeInstruction, AdvancedOrderIntent}

-- The sign and the size of a product, of a quotient.
abbrev signed_as : ℤ → ℤ → ℕ → ℤ
signed_as (pos _) (pos _) n = pos n
signed_as (negsuc _) (negsuc _) n = pos n
signed_as _ _ n = neg_ℤ (pos n)

abbrev times : ℤ → ℤ → ℤ
times a b = signed_as a b ((pos_part a + neg_part a) * (pos_part b + neg_part b))

abbrev quotient : ℤ → ℤ → ℤ
quotient a b = signed_as a b ((pos_part a + neg_part a) / (pos_part b + neg_part b))

-- Whole numbers; a quotient is rounded towards zero.
instance abbrev pub whole_numbers : Decimal ℤ
whole_numbers = record {
  units = λ z. z;
  zero = pos 0;
  add = ◌+ℤ◌;
  sub = ◌-ℤ◌;
  neg = neg_ℤ;
  abs = λ z. pos (pos_part z + neg_part z);
  one = pos 1;
  mul = times;
  div = quotient;
  checked_add = λ a b. some (a +ℤ b);
}

abbrev pub whole_numbers_lawful : IsLawful whole_numbers
whole_numbers_lawful = record {
  units_zero = refl;
  units_neg = λ a. refl;
  units_abs = λ a. refl;
  units_add = λ a b _. refl;
  units_sub = λ a b _. refl;
  units_checked_add = λ a b _. (a +ℤ b, refl, refl);
}

-- Floats as hundredths.
instance abbrev pub hundredths : Float ℤ
hundredths = record {
  zero = pos 0;
  one = pos 100;
  le = le;
  lt = lt;
  eq = same;
  neg = neg_ℤ;
  abs = λ z. pos (pos_part z + neg_part z);
  is_finite = λ z. true;
}

abbrev pub simple_text : Uuid → String
simple_text id = if id == 1 then "0001" else if id == 2 then "0002" else "0003"

abbrev pub buy_five : Uuid → OrderIntent ℤ
buy_five id = record {
  intent_id = id;
  strategy_id = "trend";
  asset = "BTCUSDT";
  venue = Venue.binance_pm;
  side = Side.buy;
  quantity = pos 5;
  limit_price = some (pos 100);
  effect = ExposureEffect.increase;
  source_signal_id = none;
}

abbrev pub advanced : Uuid → TimeInForce → Bool → CompositeInstruction → AdvancedOrderIntent ℤ
advanced id time_in_force post_only composite = record {
  base = buy_five id;
  time_in_force = time_in_force;
  constraints = record {
    post_only = post_only;
    reduce_only = false;
    iceberg_display_quantity = none;
  };
  composite = composite;
}

abbrev pub strong_signal : Signal ℤ
strong_signal = record {
  schema_version = "1";
  signal_id = "s1";
  alpha_id = "a1";
  asset = "BTCUSDT";
  venue = Venue.binance_pm;
  score = pos 80;
  confidence = pos 90;
  horizon_ms = 1000;
  created_at_ns = 10;
  expires_at_ns = 1000;
  model_version = none;
  feature_set = none;
}
