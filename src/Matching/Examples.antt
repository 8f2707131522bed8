-- ===== src/Matching/Examples.antt =====
-- rust/crates/pg-execution/src/matching.rs: the theorems at concrete orders and books.
use pg_tsy_core_bootstrap.Types.{client_order_id}
use pg_tsy_core_bootstrap.Matching.Match.{execute}
use pg_tsy_core_bootstrap.Matching.Match.{crosses}
use pg_tsy_core_bootstrap.Matching.Match.{after_gates}
use pg_tsy_core_bootstrap.Types.Advanced.{validate}
use pg_tsy_core_bootstrap.Prelude.{
  ℕ, ℤ, String, Bool, true, false, some, none, pos, ◌≡◌, ◌≢◌, inr, refl, [], ◌∷◌, arith, any, get,
  ◌!=◌, ◌&&◌, string_eq,
}
use pg_tsy_core_bootstrap.Decimal.{le}
use pg_tsy_core_bootstrap.Samples.{whole_numbers, whole_numbers_lawful, simple_text, advanced}
use pg_tsy_core_bootstrap.Types.Advanced.{TimeInForce, CompositeInstruction, AdvancedOrderIntent}
use pg_tsy_core_bootstrap.Matching.Match.{SessionPhase, TopOfBook, match_order}
use pg_tsy_core_bootstrap.Matching.Fill.{Fair, match_order-Fair}
use pg_tsy_core_bootstrap.Matching.Policy.{AllOrNothing, match_order-post_only, match_order-fok}
use pg_tsy_core_bootstrap.Matching.Coordinator.{
  CompositeCoordinator, no_orders, names_of, register, on_fill,
}
use pg_tsy_core_bootstrap.Matching.Links.{
  is_cancel, is_activation, has_name, on_fill_oco, on_fill_oto, register_oco_pair,
}

abbrev book : TopOfBook ℤ
book = record { bid_price = pos 98; bid_quantity = pos 4; ask_price = pos 99; ask_quantity = pos 3 }

abbrev order : TimeInForce → Bool → AdvancedOrderIntent ℤ
order time_in_force post_only = advanced 1 time_in_force post_only CompositeInstruction.single

three_of_five :
    (match_order (order TimeInForce.ioc false) book (pos 0) 50 SessionPhase.continuous).fill_price
    ≡ some (pos 99)
unfolding match_order validate after_gates crosses execute
three_of_five = refl

match_order-Fair_example :
    let r = match_order (order TimeInForce.ioc false) book (pos 0) 50 SessionPhase.continuous in
    Fair (order TimeInForce.ioc false) book (pos 0) r r.fill_price
match_order-Fair_example =
    match_order-Fair (order TimeInForce.ioc false) book (pos 0) 50 SessionPhase.continuous

match_order-post_only_example :
    let r = match_order (order TimeInForce.gtc true) book (pos 0) 50 SessionPhase.continuous in
    (r.fill_price ≡ none) × (r.filled_quantity ≡ pos 0)
match_order-post_only_example =
    match_order-post_only (order TimeInForce.gtc true) book (pos 0) 50 SessionPhase.continuous refl

match_order-fok_example :
    AllOrNothing
      (order TimeInForce.fok false)
      (match_order (order TimeInForce.fok false) book (pos 0) 50 SessionPhase.continuous)
match_order-fok_example =
    match_order-fok (order TimeInForce.fok false) book (pos 0) 50 SessionPhase.continuous
      whole_numbers_lawful refl

abbrev grouped : CompositeInstruction → CompositeCoordinator ℤ
grouped instruction = record {
  groups = ("g", ("pg0001", tt) ∷ ("pg0002", tt) ∷ []) ∷ [];
  instruction_by_client = ("pg0001", instruction) ∷ ("pg0002", instruction) ∷ [];
  quantity_by_client = ("pg0001", pos 5) ∷ ("pg0002", pos 5) ∷ [];
  children_by_parent = ("pg0001", ("pg0003", tt) ∷ []) ∷ [];
}

on_fill_oco_example :
    any (is_cancel "pg0002") (on_fill (grouped (CompositeInstruction.oco "g")) "pg0001" (pos 1)) ≡ (
      ◌!=◌ {T = String} "pg0002" "pg0001"
      && has_name "pg0002" (names_of "g" (grouped (CompositeInstruction.oco "g")).groups))
unfolding get
on_fill_oco_example =
    on_fill_oco (grouped (CompositeInstruction.oco "g")) "pg0001" "g" (pos 1) "pg0002" refl

on_fill_oto_example :
    any (is_activation "pg0003") (on_fill (grouped CompositeInstruction.single) "pg0001" (pos 5))
    ≡ (le (pos 5) (pos 5)
        && has_name "pg0003"
            (names_of "pg0001" (grouped CompositeInstruction.single).children_by_parent))
unfolding get
on_fill_oto_example =
    on_fill_oto (grouped CompositeInstruction.single) "pg0001" "pg0009" (pos 5) "pg0003" (inr refl)

abbrev leg : ℕ → AdvancedOrderIntent ℤ
leg id = advanced id TimeInForce.gtc false (CompositeInstruction.oco "g")

other_leg : ◌≢◌ {A = String} "pg0001" "pg0002"
other_leg = ground (arith, string_eq.beq_iff "pg0001" "pg0002")

register_oco_pair_example :
    let co = register simple_text (leg 2) (register simple_text (leg 1) no_orders) in
    (any (is_cancel "pg0002") (on_fill co "pg0001" (pos 1)) ≡ true)
    × (any (is_cancel "pg0001") (on_fill co "pg0002" (pos 1)) ≡ true)
unfolding client_order_id
register_oco_pair_example =
    register_oco_pair simple_text (leg 1) (leg 2) "g" no_orders (pos 1) other_leg refl refl
