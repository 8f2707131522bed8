-- ===== src/Store/Examples.antt =====
-- The fill ledger at a concrete database.
use pg_tsy_core_bootstrap.Store.Fills.{validate}
use pg_tsy_core_bootstrap.Store.Fills.{byte_len}
use pg_tsy_core_bootstrap.Store.Fills.{valid_identifier}
use pg_tsy_core_bootstrap.Store.Fills.{invalid_commission}
use pg_tsy_core_bootstrap.Store.Fills.{invalid_identity}
use pg_tsy_core_bootstrap.Store.Fills.{valid_time}
use pg_tsy_core_bootstrap.Store.Fills.{invalid_order_identity}
use pg_tsy_core_bootstrap.Store.Fills.{belongs_to}
use pg_tsy_core_bootstrap.Store.Fills.{all_chars}
use pg_tsy_core_bootstrap.Store.Fills.{fill_beq}
use pg_tsy_core_bootstrap.Store.Ledger.{insert_for}
use pg_tsy_core_bootstrap.Store.Ledger.{insert_or_match}
use pg_tsy_core_bootstrap.Store.Ledger.{bounded_insert}
use pg_tsy_core_bootstrap.Store.Ledger.{total_fills}
use pg_tsy_core_bootstrap.Store.Ledger.{has_key}
use pg_tsy_core_bootstrap.Store.Ledger.{is_other_order}
use pg_tsy_core_bootstrap.Runtime.Config.{u64_text}
use pg_tsy_core_bootstrap.Runtime.Config.{u64_digits}
use pg_tsy_core_bootstrap.Prelude.{is_blank}
use pg_tsy_core_bootstrap.Prelude.{is_empty}
use pg_tsy_core_bootstrap.Prelude.{nat_text}
use pg_tsy_core_bootstrap.Prelude.{
  ℤ, pos, true, none, some, ok, List, [], ◌∷◌, length, ◌≡◌, refl, ◌+ℤ◌,
}
use pg_tsy_core_bootstrap.Samples.{whole_numbers}
use pg_tsy_core_bootstrap.Types.{Venue, Side, ExposureEffect}
use pg_tsy_core_bootstrap.Oms.{OrderState, OrderRecord}
use pg_tsy_core_bootstrap.Orchestrator.Defs.{RuntimeLease}
use pg_tsy_core_bootstrap.Store.Fills.{ExecutionFill, FillInsertOutcome, venue_fill_key}
use pg_tsy_core_bootstrap.Store.Ledger.{Database, holds_lease, record_fill, insert_execution_fill}
use pg_tsy_core_bootstrap.Store.Ledger.Bounds.{
  Insertion, IsBounded, insert_all, insert_all-IsBounded,
}
use pg_tsy_core_bootstrap.Store.Ledger.Replay.{insert-insert}

abbrev lease : RuntimeLease
lease = record { lease_key = "live"; holder_id = "h"; fencing_token = pos 3; ttl_seconds = pos 15 }

abbrev order : OrderRecord ℤ
order = record {
  order_id = 7;
  intent_id = 1;
  client_order_id = "pg00000000000000000000000000000001";
  venue_order_id = some "42";
  venue = Venue.binance_pm;
  asset = "BTCUSDT";
  owner_strategy_id = "trend";
  side = some Side.buy;
  effect = some ExposureEffect.increase;
  requested_quantity = pos 5;
  filled_quantity = pos 0;
  state = OrderState.opened;
}

abbrev three : ExecutionFill ℤ
three = record {
  account_scope = "pm";
  venue = Venue.binance_pm;
  symbol = "BTCUSDT";
  trade_id = pos 9;
  venue_fill_id = "t9";
  venue_order_id = "42";
  client_order_id = "pg00000000000000000000000000000001";
  side = Side.buy;
  quantity = pos 3;
  price = pos 100;
  commission = none;
  commission_asset = none;
  realized_pnl = none;
  trade_time_ms = some (pos 1);
  venue_time = none;
}

abbrev empty : Database ℤ
empty = record {
  runtime_leases =
      record {
        lease_key = "live";
        holder_id = "h";
        fencing_token = pos 3;
        lease_expires_at = pos 100;
      }
      ∷ [];
  order_records = order ∷ [];
  execution_fills = [];
  event_journal = [];
}

-- The second of two fills of three does not fit in an order of five.
abbrev calls : List (Insertion ℤ)
calls =
    record { lease = lease; now = pos 10; fill = three }
    ∷ record { lease = lease; now = pos 11; fill = record three { venue_fill_id = "t10" } }
    ∷ []

insert_all-IsBounded_example : IsBounded (insert_all calls empty)
insert_all-IsBounded_example = insert_all-IsBounded calls empty refl

one_stored : length (insert_all calls empty).execution_fills ≡ 1
unfolding insert_all insert_execution_fill ◌+ℤ◌ validate is_blank byte_len valid_identifier
    invalid_commission invalid_identity valid_time venue_fill_key invalid_order_identity u64_text
    holds_lease insert_for belongs_to insert_or_match bounded_insert total_fills record_fill
    is_empty nat_text u64_digits all_chars fill_beq has_key is_other_order
one_stored = refl

inserted :
    insert_execution_fill lease (pos 10) three empty
    ≡ (ok FillInsertOutcome.inserted, record_fill lease three empty)
unfolding insert_execution_fill ◌+ℤ◌ validate is_blank byte_len valid_identifier invalid_commission
    invalid_identity valid_time venue_fill_key invalid_order_identity u64_text holds_lease
    insert_for belongs_to insert_or_match bounded_insert total_fills
inserted = refl

still_held : holds_lease lease (pos 20) empty ≡ true
unfolding holds_lease
still_held = refl

insert-insert_example :
    insert_execution_fill lease (pos 20) three (record_fill lease three empty)
    ≡ (ok FillInsertOutcome.duplicate, record_fill lease three empty)
insert-insert_example =
    insert-insert lease (pos 10) (pos 20) three empty (record_fill lease three empty) inserted
      still_held
