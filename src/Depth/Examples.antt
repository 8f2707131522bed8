-- ===== src/Depth/Examples.antt =====
-- rust/crates/pg-marketdata/src/binance_depth.rs: the theorems at concrete updates.
use pg_tsy_core_bootstrap.Depth.Bridge.{invalidate}
use pg_tsy_core_bootstrap.Depth.Bridge.{update_levels}
use pg_tsy_core_bootstrap.Depth.Update.{merge}
use pg_tsy_core_bootstrap.Depth.Update.{finish}
use pg_tsy_core_bootstrap.Depth.Bridge.{parse_updates}
use pg_tsy_core_bootstrap.Depth.Update.{apply_levels}
use pg_tsy_core_bootstrap.Depth.Update.{apply}
use pg_tsy_core_bootstrap.Depth.Update.{is_malformed}
use pg_tsy_core_bootstrap.Depth.Bridge.{valid_book}
use pg_tsy_core_bootstrap.Prelude.{
  ℕ, ℤ, String, true, false, Option, some, none, pos, ◌≡◌, ◌⊎◌, inl, refl, [], ◌∷◌, ◌==◌, string_eq,
  if◌then◌else◌, ◌<◌, ◌≤◌, first_key, last_key,
}
use pg_tsy_core_bootstrap.Decimal.{lt, decimal_ord}
use pg_tsy_core_bootstrap.Samples.{whole_numbers}
use pg_tsy_core_bootstrap.Depth.Bridge.{
  BinanceDepthSnapshot, BinanceDepthDelta, DepthError, BinanceDepthBridge, new,
}
use pg_tsy_core_bootstrap.Depth.Update.{publish, push}
use pg_tsy_core_bootstrap.Depth.FailClosed.{errors_reset}
use pg_tsy_core_bootstrap.Depth.Sequence.{push-book}

abbrev read_number : String → Option ℤ
read_number text =
    if text == "98"
    then some (pos 98)
    else if text == "99"
    then some (pos 99)
    else if text == "4"
    then some (pos 4)
    else none

abbrev symbol_bridge : BinanceDepthBridge ℤ
symbol_bridge = record {
  symbol = "BTCUSDT";
  bids = (pos 98, pos 4) ∷ [];
  asks = (pos 99, pos 4) ∷ [];
  last_update_id = some 10;
  bridged = false;
  buffered = [];
}

abbrev after_update : BinanceDepthBridge ℤ
after_update = record symbol_bridge { last_update_id = some 12; bridged = true }

abbrev update : BinanceDepthDelta
update = record {
  symbol = "BTCUSDT";
  event_time_ms = 5;
  first_update_id = 9;
  final_update_id = 12;
  pu = 8;
  bids = [];
  asks = [];
}

abbrev snapshot : BinanceDepthSnapshot
snapshot = record { last_update_id = 10; bids = ("98", "4") ∷ []; asks = ("99", "4") ∷ [] }

abbrev emptied : BinanceDepthBridge ℤ
emptied = record {
  symbol = "BTCUSDT";
  bids = [];
  asks = [];
  last_update_id = none;
  bridged = false;
  buffered = [];
}

errors_reset_example : emptied ≡ new "BTCUSDT"
unfolding push new is_malformed invalidate
errors_reset_example =
    errors_reset read_number symbol_bridge emptied (record update { first_update_id = 0 }) 1
      snapshot DepthError.invalid_event (inl refl)

push-book_example :
    ((last : ℕ) × (symbol_bridge.last_update_id ≡ some last)
      × (((symbol_bridge.bridged ≡ true) × (last < 12) × (8 ≡ last))
          ⊎ ((symbol_bridge.bridged ≡ false) × (9 ≤ last) × (last ≤ 12))))
    × (after_update.last_update_id ≡ some 12)
    × (after_update.bridged ≡ true)
    × ((bid : ℤ) × (ask : ℤ) × (last_key after_update.bids ≡ some bid)
        × (first_key after_update.asks ≡ some ask)
        × (lt bid ask ≡ true))
    × (publish after_update update 1 ≡ publish after_update update 1)
unfolding push is_malformed apply apply_levels parse_updates finish valid_book last_key merge
    update_levels first_key
push-book_example =
    push-book read_number symbol_bridge after_update update 1 (publish after_update update 1) refl
