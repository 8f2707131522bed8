-- ===== src/Composite/Examples.antt =====
-- The merge of two children's orders.
use pg_tsy_core_bootstrap.Prelude.{insert}
use pg_tsy_core_bootstrap.Prelude.{
  ℤ, pos, String, none, some, ok, [], ◌∷◌, BTreeMap, All, get, string_ord, ◌≡◌, refl,
}
use pg_tsy_core_bootstrap.Samples.{whole_numbers}
use pg_tsy_core_bootstrap.Types.{Side}
use pg_tsy_core_bootstrap.Execution.{VenueOrderSnapshot, VenueOrderState}
use pg_tsy_core_bootstrap.Composite.{order_key, agree, merge_orders}
use pg_tsy_core_bootstrap.Composite.Merge.{IsRepresented, IsFrom, merge_orders-IsRepresented}

abbrev first_order : VenueOrderSnapshot ℤ
first_order = record {
  venue_order_id = "v1";
  client_order_id = some "pg0001";
  asset = "AAPL";
  side = Side.buy;
  requested_quantity = pos 5;
  filled_quantity = pos 2;
  limit_price = none;
  state = VenueOrderState.opened;
}

abbrev second_order : VenueOrderSnapshot ℤ
second_order = record first_order { venue_order_id = "v2"; client_order_id = none }

abbrev before : BTreeMap String (VenueOrderSnapshot ℤ)
before = ("pg0001", first_order) ∷ []

abbrev after : BTreeMap String (VenueOrderSnapshot ℤ)
after = ("pg0001", first_order) ∷ ("venue:v2", second_order) ∷ []

merged : merge_orders (first_order ∷ second_order ∷ []) before ≡ ok after
unfolding merge_orders agree order_key get insert
merged = refl

merge_orders-IsRepresented_example :
    All (IsRepresented after) (first_order ∷ second_order ∷ [])
    × ((key : String) (kept : VenueOrderSnapshot ℤ)
        → get key before ≡ some kept
        → get key after ≡ some kept)
    × IsFrom (first_order ∷ second_order ∷ []) before after
merge_orders-IsRepresented_example =
    merge_orders-IsRepresented (first_order ∷ second_order ∷ []) before after merged
