-- ===== src/Oms/Examples.antt =====
-- rust/crates/pg-oms/src/lib.rs: the theorems at concrete orders.
use pg_tsy_core_bootstrap.Prelude.{◌-ℤ◌}
use pg_tsy_core_bootstrap.Prelude.{◌+ℤ◌}
use pg_tsy_core_bootstrap.Prelude.{ℤ, some, ok, pos, ◌≡◌, inl, refl, List, [], ◌∷◌, arith}
use pg_tsy_core_bootstrap.Decimal.{◌≈◌}
use pg_tsy_core_bootstrap.Samples.{whole_numbers, whole_numbers_lawful, simple_text, buy_five}
use pg_tsy_core_bootstrap.Oms.{
  OrderState, OrderEvent, OrderRecord, from_intent, apply_fill, remaining_quantity,
}
use pg_tsy_core_bootstrap.Oms.Lifecycle.{
  Call, step, run, IsBounded, run-IsBounded, step_error_unchanged, run_of_IsFinal,
}
use pg_tsy_core_bootstrap.Oms.Fills.{
  credited, IsProgress, run-credited, apply_fill-remaining, run-IsProgress,
}

abbrev calls : List (Call ℤ)
calls =
    Call.apply_event OrderEvent.submit_requested
    ∷ Call.accept_as "v1"
    ∷ Call.fill (pos 2)
    ∷ Call.fill (pos 9)
    ∷ Call.fill (pos 3)
    ∷ []

abbrev start : OrderRecord ℤ
start = record {
  order_id = 7;
  intent_id = 1;
  client_order_id = "pg0001";
  venue_order_id = some "v1";
  venue = (buy_five 1).venue;
  asset = "BTCUSDT";
  owner_strategy_id = "trend";
  side = some (buy_five 1).side;
  effect = some (buy_five 1).effect;
  requested_quantity = pos 5;
  filled_quantity = pos 2;
  state = OrderState.partially_filled;
}

whole_run : (run calls (from_intent simple_text 7 (buy_five 1))).state ≡ OrderState.filled
unfolding run from_intent step ◌+ℤ◌
whole_run = refl

run-IsBounded_example : IsBounded (run calls (from_intent simple_text 7 (buy_five 1)))
run-IsBounded_example = run-IsBounded simple_text 7 (buy_five 1) calls (omega arith)

step_error_unchanged_example : (step (Call.fill (pos 9)) start).0 ≡ start
unfolding step ◌+ℤ◌
step_error_unchanged_example = step_error_unchanged (Call.fill (pos 9)) start refl

run_of_IsFinal_example :
    run calls (record start { state = OrderState.filled })
    ≡ record start { state = OrderState.filled }
run_of_IsFinal_example =
    run_of_IsFinal calls (record start { state = OrderState.filled }) (inl refl)

run-credited_example : (run calls start).filled_quantity ≡ credited calls start (pos 2)
run-credited_example = run-credited calls start

apply_fill-remaining_example :
    ((apply_fill (remaining_quantity start) start).1 ≡ ok tt)
    × ((apply_fill (remaining_quantity start) start).0.state ≡ OrderState.filled)
    × ((apply_fill (remaining_quantity start) start).0.filled_quantity ≈ pos 5)
unfolding ◌-ℤ◌
apply_fill-remaining_example =
    apply_fill-remaining whole_numbers_lawful start refl (omega arith)
      (5, 0, omega arith, omega arith, refl) (3, 0, omega arith, omega arith, refl)

run-IsProgress_example : IsProgress (run (Call.fill (pos 3) ∷ []) start)
unfolding ◌+ℤ◌
run-IsProgress_example =
    run-IsProgress whole_numbers_lawful (Call.fill (pos 3) ∷ []) start
      ((5, 0, omega arith, omega arith, refl), tt)
      (record { nonneg = omega arith; partial = λ _. omega arith })
