-- ===== src/Orchestrator/Examples.antt =====
-- The orchestrator at a concrete store and the simulated venue.
use pg_tsy_core_bootstrap.Prelude.{Option, is_ok, get, true}
use pg_tsy_core_bootstrap.Types.{client_order_id}
use pg_tsy_core_bootstrap.Types.Keys.{venue_ord}
use pg_tsy_core_bootstrap.Execution.{find_by_client}
use pg_tsy_core_bootstrap.Shadow.Adapter.{submit, check_intent, adopt_or_place}
use pg_tsy_core_bootstrap.Orchestrator.Dispatch.Progress.{IsWorking, dispatch-Returns}
use pg_tsy_core_bootstrap.Prelude.{get}
use pg_tsy_core_bootstrap.Prelude.{insert}
use pg_tsy_core_bootstrap.Prelude.{is_empty}
use pg_tsy_core_bootstrap.Types.{client_order_id}
use pg_tsy_core_bootstrap.Prelude.{
  ℤ, pos, arith, false, none, some, ok, List, [], ◌∷◌, ◌≡◌, ◌⊎◌, refl, ◌+ℤ◌,
}
use pg_tsy_core_bootstrap.Samples.{whole_numbers, simple_text, buy_five}
use pg_tsy_core_bootstrap.Decimal.{is_zero}
use pg_tsy_core_bootstrap.Types.{Venue, Side, ExposureEffect}
use pg_tsy_core_bootstrap.Oms.{OrderState, OrderRecord}
use pg_tsy_core_bootstrap.Oms.Lifecycle.{IsBounded}
use pg_tsy_core_bootstrap.Execution.{VenueOrderState, VenueOrderSnapshot}
use pg_tsy_core_bootstrap.Reconcile.Defs.{Ownership}
use pg_tsy_core_bootstrap.Shadow.Defs.{ShadowFillMode, ShadowAdapterConfig, Shadow, new_shadow}
use pg_tsy_core_bootstrap.Shadow.Adapter.{shadow_adapter}
use pg_tsy_core_bootstrap.Orchestrator.Defs.{RuntimeStore, DurableExecution}
use pg_tsy_core_bootstrap.Orchestrator.Session.{Session}
use pg_tsy_core_bootstrap.Orchestrator.Snapshot.{apply_snapshot, validate_snapshot}
use pg_tsy_core_bootstrap.Orchestrator.Snapshot.Laws.{IsContinued, apply_snapshot-IsContinued}
use pg_tsy_core_bootstrap.Orchestrator.Ownership.{ownership_from_order_evidence, net_by_strategy}
use pg_tsy_core_bootstrap.Orchestrator.Ownership.Evidence.{Explains, ownership-Explains}
use pg_tsy_core_bootstrap.Orchestrator.Dispatch.{dispatch}
use pg_tsy_core_bootstrap.Orchestrator.Dispatch.Outcome.{Settled, dispatch-Settled}
use pg_tsy_core_bootstrap.Orchestrator.Cycle.{reconcile_once}
use pg_tsy_core_bootstrap.Orchestrator.Cycle.Reported.{Reported, reconcile_once-Reported}
use pg_tsy_core_bootstrap.Orchestrator.Traces.{Obeys}
use pg_tsy_core_bootstrap.Orchestrator.Journal.{Journaled}
use pg_tsy_core_bootstrap.Orchestrator.Journal.Histories.{Operation, run, run-Journaled}

abbrev held : OrderRecord ℤ
held = record {
  order_id = 7;
  intent_id = 1;
  client_order_id = "pg0001";
  venue_order_id = some "v1";
  venue = Venue.binance_pm;
  asset = "BTCUSDT";
  owner_strategy_id = "trend";
  side = some Side.buy;
  effect = some ExposureEffect.increase;
  requested_quantity = pos 5;
  filled_quantity = pos 2;
  state = OrderState.partially_filled;
}

-- A store that takes everything and has one order.
abbrev store : RuntimeStore ℤ (Shadow ℤ)
store = record {
  assert_lease = λ lease w. (ok tt, w);
  append_event = λ stream event_type payload token w. (ok (pos 1), w);
  save_order_record = λ order token w. (ok tt, w);
  load_orders_for_venue = λ venue w. (ok (held ∷ []), w);
  load_position_states = λ venue w. (ok [], w);
  save_position_state = λ position token w. (ok tt, w);
  save_reconcile_report = λ venue report token w. (ok 1, w);
}

abbrev config : ShadowAdapterConfig
config = record { venue = Venue.binance_pm; fill_mode = ShadowFillMode.immediate_fill }

abbrev durable : DurableExecution ℤ (Shadow ℤ)
durable = record {
  store = store;
  lease = record {
    lease_key = "live";
    holder_id = "h";
    fencing_token = pos 3;
    ttl_seconds = pos 15;
  };
  adapters = (Venue.binance_pm, shadow_adapter simple_text config) ∷ [];
}

abbrev operations : List (Operation ℤ)
operations =
    Operation.dispatch_intent 7 (buy_five 1)
    ∷ Operation.cancel held
    ∷ Operation.recover Venue.binance_pm
    ∷ Operation.reconcile Venue.binance_pm
    ∷ []

abbrev fresh : Session ℤ (Shadow ℤ)
fresh = record { world = new_shadow; calls = [] }

run-Journaled_example :
    Obeys (Journaled simple_text) (run simple_text durable operations fresh).calls
run-Journaled_example = run-Journaled simple_text durable operations new_shadow

dispatch-Settled_example : Settled "pg0001" (dispatch simple_text 7 durable (buy_five 1) fresh)
unfolding client_order_id
dispatch-Settled_example = dispatch-Settled simple_text 7 durable (buy_five 1) fresh

reconcile_once-Reported_example :
    Obeys Reported (reconcile_once durable Venue.binance_pm fresh).1.calls
reconcile_once-Reported_example = reconcile_once-Reported durable Venue.binance_pm new_shadow

abbrev seen : VenueOrderSnapshot ℤ
seen = record {
  venue_order_id = "v1";
  client_order_id = some "pg0001";
  asset = "BTCUSDT";
  side = Side.buy;
  requested_quantity = pos 5;
  filled_quantity = pos 2;
  limit_price = none;
  state = VenueOrderState.canceled;
}

held-IsBounded : IsBounded held
held-IsBounded = ground arith

seen_valid : validate_snapshot held seen ≡ ok tt
unfolding validate_snapshot is_empty
seen_valid = refl

apply_snapshot-IsContinued_example : IsContinued held (apply_snapshot held seen)
apply_snapshot-IsContinued_example = apply_snapshot-IsContinued held seen held-IsBounded seen_valid

owned_by_trend :
    ownership_from_order_evidence "BTCUSDT" (pos 2) (held ∷ []) none ≡ Ownership.strategy "trend"
unfolding ownership_from_order_evidence net_by_strategy ◌+ℤ◌ insert get
owned_by_trend = refl

ownership-Explains_example :
    (none ≡ some (Ownership.strategy "trend"))
    ⊎ ((is_zero (pos 2) ≡ false) × Explains "BTCUSDT" "trend" (pos 2) (held ∷ []))
ownership-Explains_example =
    ownership-Explains "BTCUSDT" (pos 2) (held ∷ []) none "trend" owned_by_trend

store-IsWorking : IsWorking store
store-IsWorking = record {
  leases = λ lease w. refl;
  events = λ stream event_type payload token w. refl;
  saves = λ order token w. refl;
}

placed_or_adopted :
    (w : Shadow ℤ) (found : Option (VenueOrderSnapshot ℤ))
    → is_ok (adopt_or_place ShadowFillMode.immediate_fill "pg0001" (buy_five 1) found w).0 ≡ true
unfolding adopt_or_place
placed_or_adopted w none = refl
placed_or_adopted w (some existing) = refl

shadow_accepts : (w : Shadow ℤ) → is_ok (submit simple_text config (buy_five 1) w).0 ≡ true
unfolding submit check_intent client_order_id
shadow_accepts w = placed_or_adopted w (find_by_client "pg0001" w.book.orders)

known_venue : get Venue.binance_pm durable.adapters ≡ some (shadow_adapter simple_text config)
unfolding get
known_venue = refl

dispatch-Returns_example : is_ok (dispatch simple_text 7 durable (buy_five 1) fresh).0 ≡ true
dispatch-Returns_example =
    dispatch-Returns simple_text 7 durable (buy_five 1) (shadow_adapter simple_text config) fresh
      store-IsWorking known_venue shadow_accepts
