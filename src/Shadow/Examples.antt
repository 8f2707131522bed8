-- ===== src/Shadow/Examples.antt =====
-- The simulated venue at concrete orders.
use pg_tsy_core_bootstrap.Shadow.Defs.{sign_of}
use pg_tsy_core_bootstrap.Shadow.Book.{guard_reduce_only}
use pg_tsy_core_bootstrap.Prelude.{neg_ℤ}
use pg_tsy_core_bootstrap.Prelude.{get}
use pg_tsy_core_bootstrap.Prelude.{insert}
use pg_tsy_core_bootstrap.Shadow.Book.{apply_fill}
use pg_tsy_core_bootstrap.Shadow.Adapter.{place}
use pg_tsy_core_bootstrap.Prelude.{nat_text}
use pg_tsy_core_bootstrap.Shadow.Adapter.{adopt_or_place}
use pg_tsy_core_bootstrap.Shadow.Adapter.{check_intent}
use pg_tsy_core_bootstrap.Prelude.{
  ℤ, pos, arith, none, some, ok, err, [], ◌∷◌, ◌≡◌, ◌≢◌, refl, ◌+ℤ◌,
}
use pg_tsy_core_bootstrap.Decimal.{Fits}
use pg_tsy_core_bootstrap.Samples.{whole_numbers, whole_numbers_lawful, simple_text, buy_five}
use pg_tsy_core_bootstrap.Types.{client_order_id, Venue, Side, ExposureEffect, OrderIntent}
use pg_tsy_core_bootstrap.Execution.{
  VenueOrderAck, VenueOrderSnapshot, VenueOrderState, ExecutionError, find_by_client,
}
use pg_tsy_core_bootstrap.Shadow.Defs.{ShadowFillMode, ShadowAdapterConfig, Shadow, new_shadow}
use pg_tsy_core_bootstrap.Shadow.Book.{signed, position, order_by_client_id}
use pg_tsy_core_bootstrap.Shadow.Adapter.{submit}
use pg_tsy_core_bootstrap.Shadow.Ledger.{Operation, IsBooked, run, run-IsBooked}
use pg_tsy_core_bootstrap.Shadow.Reduce.{Shrinks, net, submit-Shrinks}
use pg_tsy_core_bootstrap.Shadow.Replay.{IsPlaced, submit-submit, order_by_client_id-submit}

abbrev config : ShadowAdapterConfig
config = record { venue = Venue.binance_pm; fill_mode = ShadowFillMode.immediate_fill }

abbrev sell_two : OrderIntent ℤ
sell_two = record (buy_five 2) {
  side = Side.sell;
  quantity = pos 2;
  effect = ExposureEffect.reduce_only;
}

run-IsBooked_example : IsBooked (
    run simple_text config
      (Operation.submit_intent (buy_five 1)
        ∷ Operation.observe_price (pos 90)
        ∷ Operation.submit_intent sell_two
        ∷ Operation.cancel_order
            (record { asset = "BTCUSDT"; venue_order_id = none; client_order_id = "pg0001" })
        ∷ [])
      new_shadow)
run-IsBooked_example = run-IsBooked simple_text config _

abbrev first_order : VenueOrderSnapshot ℤ
first_order = record {
  venue_order_id = "shadow-1";
  client_order_id = some "pg0001";
  asset = "BTCUSDT";
  side = Side.buy;
  requested_quantity = pos 5;
  filled_quantity = pos 5;
  limit_price = some (pos 100);
  state = VenueOrderState.filled;
}

abbrev bought : Shadow ℤ
bought = record {
  book = record {
    orders = first_order ∷ [];
    positions =
        (
          "BTCUSDT",
          record { net_quantity = pos 5; average_entry_price = some (pos 100); filled_entries = 1 },
        )
        ∷ [];
    next_order_id = 1;
  };
  reference_price = none;
}

abbrev first_ack : VenueOrderAck
first_ack = record { venue_order_id = "shadow-1"; client_order_id = "pg0001" }

accepted : submit simple_text config (buy_five 1) new_shadow ≡ (ok first_ack, bought)
unfolding submit ◌+ℤ◌ check_intent adopt_or_place find_by_client nat_text client_order_id place
    apply_fill insert position get signed
accepted = refl

Fits-three : Fits (net "BTCUSDT" bought +ℤ signed (pos 2) Side.sell)
unfolding signed ◌+ℤ◌ position get neg_ℤ
Fits-three = (3, 0, omega arith, omega arith, omega arith)

submit-Shrinks_example :
    Shrinks (net "BTCUSDT" bought) (net "BTCUSDT" (submit simple_text config sell_two bought).1)
submit-Shrinks_example =
    submit-Shrinks simple_text config sell_two bought whole_numbers_lawful refl Fits-three

submit-submit_example :
    ((submit simple_text config (buy_five 1) bought).1 ≡ bought)
    × (ExposureEffect.increase ≢ ExposureEffect.reduce_only
        → (submit simple_text config (buy_five 1) bought).0 ≡ ok first_ack)
submit-submit_example =
    submit-submit simple_text config (buy_five 1) new_shadow bought first_ack accepted

fresh_id : find_by_client "pg0001" (new_shadow {Q = ℤ}).book.orders ≡ none
unfolding find_by_client
fresh_id = refl

order_by_client_id-submit_example :
    (order : VenueOrderSnapshot ℤ) × (order_by_client_id "pg0001" bought ≡ some order)
    × IsPlaced ShadowFillMode.immediate_fill "shadow-1" "pg0001" (buy_five 1) order
unfolding client_order_id
order_by_client_id-submit_example =
    order_by_client_id-submit simple_text config (buy_five 1) new_shadow bought first_ack fresh_id
      accepted

-- A reduce-only order that filled, sent again: the position is flat by then, and the order is refused.
abbrev sell_five : OrderIntent ℤ
sell_five = record sell_two { quantity = pos 5 }

refused_again :
    (submit simple_text config sell_five (submit simple_text config sell_five bought).1).0
    ≡ err (ExecutionError.rejected "reduce-only order for BTCUSDT rejected: position is flat")
unfolding submit ◌+ℤ◌ check_intent guard_reduce_only position get sign_of signed neg_ℤ
    adopt_or_place find_by_client client_order_id place apply_fill insert
refused_again = refl
