-- ===== src/Shadow/Book.antt =====
-- `ShadowBook`, and the methods that look at it or change it beside the adapter's interface.
use Prim.Native.String.{◌++◌ as str_append}
use pg_tsy_core_bootstrap.Prelude.{
  ℕ, String, Bool, false, not, ◌&&◌, Option, none, some, Result, ok, err, List, [], ◌∷◌, ◌++◌, get,
  insert, remove, unwrap_or, filter, length, if◌then◌else◌, ◌==◌, option_eq, string_eq, string_ord,
  nat_text,
}
use pg_tsy_core_bootstrap.Decimal.{Decimal, lt, le, is_zero}
use pg_tsy_core_bootstrap.Types.{Side}
use pg_tsy_core_bootstrap.Execution.{ExecutionError, VenueOrderSnapshot, VenueOrderState}
use pg_tsy_core_bootstrap.Shadow.Defs.{
  ShadowPosition, ShadowBook, Shadow, u32_max, u64_max, saturating_suc, is_working, same_sign,
  no_position,
}

module _ {Q : Type 0} where
  -- Whether an order has this client id.
  abbrev pub has_client_id : String → VenueOrderSnapshot Q → Bool
  has_client_id client_order_id order = order.client_order_id == some client_order_id

  -- The latest element with the property: `iter().rev().find(..)`.
  abbrev pub find_last :
      (VenueOrderSnapshot Q → Bool) → List (VenueOrderSnapshot Q) → Option (VenueOrderSnapshot Q)
  find_last p [] = none
  find_last p (order ∷ orders) = elim (find_last p orders) [
    | some later ↦ some later
    | none ↦ if p order then some order else none
  ]

  unfoldable pub order_by_client_id : String → Shadow Q → Option (VenueOrderSnapshot Q)
  order_by_client_id client_order_id self =
      find_last (has_client_id client_order_id) self.book.orders

  unfoldable pub is_client_order_live : String → Shadow Q → Bool
  unfolding order_by_client_id
  is_client_order_live client_order_id self = elim (order_by_client_id client_order_id self) [
    | none ↦ false
    | some order ↦ is_working order.state
  ]

  abbrev pub resting : List (VenueOrderSnapshot Q) → List (VenueOrderSnapshot Q)
  resting = filter (λ (order : VenueOrderSnapshot Q). is_working order.state)

  unfoldable pub resting_order_count : Shadow Q → ℕ
  resting_order_count self = length (resting self.book.orders)

module _ {Q : Type 0} ⦃d : Decimal Q⦄ where
  -- `ShadowBook::position`, which the adapter's `position` calls.
  unfoldable pub position : String → ShadowBook Q → ShadowPosition Q
  position asset self = unwrap_or (get asset self.positions) no_position

  unfoldable pub signed : Q → Side → Q
  signed quantity Side.buy = quantity
  signed quantity Side.sell = d.neg quantity

  -- The `match (previous.is_zero(), price)`.
  abbrev pub next_average : Option Q → Q → Q → Q → Option Q → Option Q
  next_average average previous delta resulting none =
      if not (is_zero previous) && not (is_zero resulting) && not (same_sign previous resulting)
      then none
      else average
  next_average average previous delta resulting (some price) =
      if is_zero previous
      then some price
      else if same_sign previous delta
      then some (
          d.div
            (d.add (d.mul (d.abs previous) (unwrap_or average price)) (d.mul (d.abs delta) price))
            (d.abs resulting))
      else if not (is_zero resulting) && not (same_sign previous resulting)
      then some price
      else average

  -- The position after a fill.
  abbrev pub filled_position : ShadowPosition Q → Q → Q → ShadowPosition Q
  filled_position position delta price =
      let resulting = d.add position.net_quantity delta in
      record {
        net_quantity = resulting;
        average_entry_price =
            if is_zero resulting
            then none
            else next_average position.average_entry_price position.net_quantity delta resulting
                (if is_zero price then none else some price);
        filled_entries = saturating_suc u32_max position.filled_entries;
      }

  unfoldable pub apply_fill : String → Side → Q → Q → ShadowBook Q → ShadowBook Q
  apply_fill asset side quantity price self = record self {
    positions =
        insert asset (filled_position (position asset self) (signed quantity side) price)
          self.positions;
  }

  unfoldable pub set_reference_price : Q → Shadow Q → Shadow Q
  set_reference_price price self =
      if lt d.zero price then record self { reference_price = some price } else self

  unfoldable pub inject_unmatched_position_for_test : String → Q → Shadow Q → Shadow Q
  inject_unmatched_position_for_test asset quantity self =
      if is_zero quantity
      then record self { book = record self.book { positions = remove asset self.book.positions } }
      else record self {
        book = record self.book {
          positions =
              insert asset
                (record { net_quantity = quantity; average_entry_price = none; filled_entries = 0 })
                self.book.positions;
        };
      }

  unfoldable pub inject_unmatched_order_for_test : String → Q → Shadow Q → Shadow Q
  inject_unmatched_order_for_test asset quantity self =
      let next_order_id = saturating_suc u64_max self.book.next_order_id in
      let injected : VenueOrderSnapshot Q = record {
        venue_order_id = str_append "fault-" (nat_text next_order_id);
        client_order_id = some "fault-unowned-client";
        asset = asset;
        side = Side.buy;
        requested_quantity = d.abs quantity;
        filled_quantity = d.zero;
        limit_price = some d.one;
        state = VenueOrderState.opened;
      } in
      record self {
        book = record self.book {
          next_order_id = next_order_id;
          orders = self.book.orders ++ injected ∷ [];
        };
      }

  abbrev sum : Q → List (VenueOrderSnapshot Q) → Q
  sum total [] = total
  sum total (order ∷ orders) = sum (d.add total order.filled_quantity) orders

  unfoldable pub filled_quantity : String → Shadow Q → Q
  filled_quantity client_order_id self =
      sum d.zero (filter (has_client_id client_order_id) self.book.orders)

  unfoldable pub guard_reduce_only : String → Side → Q → Shadow Q → Result (Unit {0}) ExecutionError
  guard_reduce_only asset side quantity self =
      let current = (position asset self.book).net_quantity in
      let delta = signed quantity side in
      let refuse : String → Result (Unit {0}) ExecutionError = λ reason.
        err (
          ExecutionError.rejected
            (str_append "reduce-only order for " (str_append asset reason))) in
      if le quantity d.zero
      then err (ExecutionError.rejected "reduce-only quantity must be positive")
      else if is_zero current
      then refuse " rejected: position is flat"
      else if same_sign current delta
      then refuse " rejected: would increase exposure"
      else if same_sign (d.add current delta) delta
      then refuse " rejected: would cross through flat"
      else ok tt
