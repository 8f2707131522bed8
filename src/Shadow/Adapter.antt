-- ===== src/Shadow/Adapter.antt =====
-- `impl ExecutionAdapter for ShadowExecutionAdapter`.
use Prim.Native.String.{◌++◌ as str_append}
use pg_tsy_core_bootstrap.Prelude.{
  ℕ, String, Bool, not, ◌||◌, Option, none, some, Result, ok, err, List, [], ◌∷◌, ◌++◌, unwrap_or,
  filter, map, if◌then◌else◌, ◌==◌, option_eq, string_eq, nat_text,
}
use pg_tsy_core_bootstrap.Decimal.{Decimal, le, is_zero}
use pg_tsy_core_bootstrap.Types.{
  Uuid, OrderIntent, ExposureEffect, venue_name, venue_eq, effect_eq, client_order_id,
}
use pg_tsy_core_bootstrap.Execution.{
  ExecutionError, ExecutionAdapter, VenueOrderAck, VenueOrderSnapshot, VenueOrderState,
  VenuePositionSnapshot, OrderLocator, find_by_client,
}
use pg_tsy_core_bootstrap.Shadow.Defs.{
  ShadowFillMode, ShadowAdapterConfig, ShadowPosition, ShadowBook, Shadow, mode_eq, u64_max,
  saturating_suc, is_working, venue_state_name,
}
use pg_tsy_core_bootstrap.Shadow.Book.{guard_reduce_only, apply_fill, order_by_client_id, resting}

module _ {Q : Type 0} ⦃d : Decimal Q⦄ where
  -- The order that a new intent puts in the book.
  abbrev pub new_order : ShadowFillMode → String → String → OrderIntent Q → VenueOrderSnapshot Q
  new_order fill_mode venue_order_id client_order_id intent =
      let fills_immediately = fill_mode == ShadowFillMode.immediate_fill in
      record {
        venue_order_id = venue_order_id;
        client_order_id = some client_order_id;
        asset = intent.asset;
        side = intent.side;
        requested_quantity = intent.quantity;
        filled_quantity = if fills_immediately then intent.quantity else d.zero;
        limit_price = intent.limit_price;
        state = if fills_immediately then VenueOrderState.filled else VenueOrderState.opened;
      }

  -- `limit_price.or(reference_price).unwrap_or(ZERO)`.
  abbrev pub fill_price : Option Q → Option Q → Q
  fill_price (some price) reference_price = price
  fill_price none reference_price = unwrap_or reference_price d.zero

  abbrev pub add_order : VenueOrderSnapshot Q → ℕ → ShadowBook Q → ShadowBook Q
  add_order order next_order_id book = record book {
    orders = book.orders ++ order ∷ [];
    next_order_id = next_order_id;
  }

  -- The book after a new order.
  unfoldable pub place : ShadowFillMode → String → String → OrderIntent Q → Shadow Q → Shadow Q
  place fill_mode venue_order_id client_order_id intent self =
      let order = new_order fill_mode venue_order_id client_order_id intent in
      let book = add_order order (saturating_suc u64_max self.book.next_order_id) self.book in
      record self {
        book =
            if fill_mode == ShadowFillMode.immediate_fill
            then apply_fill intent.asset intent.side intent.quantity
                (fill_price intent.limit_price self.reference_price) book
            else book;
      }

  abbrev pub shadow_order_id : Shadow Q → String
  shadow_order_id self =
      str_append "shadow-" (nat_text (saturating_suc u64_max self.book.next_order_id))

  -- From the search for an order of the same client id on.
  unfoldable pub adopt_or_place :
      ShadowFillMode
      → String
      → OrderIntent Q
      → Option (VenueOrderSnapshot Q)
      → Shadow Q
      → Result VenueOrderAck ExecutionError × Shadow Q
  adopt_or_place fill_mode client_order_id intent (some existing) self = (
    ok (record { venue_order_id = existing.venue_order_id; client_order_id = client_order_id }),
    self,
  )
  adopt_or_place fill_mode client_order_id intent none self = (
    ok (record { venue_order_id = shadow_order_id self; client_order_id = client_order_id }),
    place fill_mode (shadow_order_id self) client_order_id intent self,
  )

  -- The tests before it.
  unfoldable pub check_intent :
      ShadowAdapterConfig → OrderIntent Q → Shadow Q → Result (Unit {0}) ExecutionError
  check_intent config intent self =
      if not (intent.venue == config.venue)
      then err (
          ExecutionError.unsupported (
            str_append "shadow adapter for " (
              str_append (venue_name config.venue)
                (str_append " received an intent for " (venue_name intent.venue)))))
      else if le intent.quantity d.zero
      then err (ExecutionError.rejected "order quantity must be positive")
      else if intent.effect == ExposureEffect.reduce_only
      then guard_reduce_only intent.asset intent.side intent.quantity self
      else ok tt

  abbrev pub submit_checked :
      ShadowFillMode
      → String
      → OrderIntent Q
      → Result (Unit {0}) ExecutionError
      → Shadow Q
      → Result VenueOrderAck ExecutionError × Shadow Q
  submit_checked fill_mode client_order_id intent (err e) self = (err e, self)
  submit_checked fill_mode client_order_id intent (ok _) self =
      adopt_or_place fill_mode client_order_id intent
        (find_by_client client_order_id self.book.orders) self

  unfoldable pub submit :
      (Uuid → String)
      → ShadowAdapterConfig
      → OrderIntent Q
      → Shadow Q
      → Result VenueOrderAck ExecutionError × Shadow Q
  submit simple config intent self =
      submit_checked config.fill_mode (client_order_id simple intent) intent
        (check_intent config intent self) self

module _ {Q : Type 0} where
  -- Whether an order is the one that a cancel means.
  abbrev pub is_located : OrderLocator → VenueOrderSnapshot Q → Bool
  is_located order candidate =
      candidate.client_order_id == some order.client_order_id
      || order.venue_order_id == some candidate.venue_order_id

  -- The result of a cancel on the order that it found, and the order afterwards.
  abbrev pub cancel_found :
      OrderLocator → VenueOrderSnapshot Q → Result (Unit {0}) ExecutionError × VenueOrderSnapshot Q
  cancel_found order existing =
      if is_working existing.state
      then (ok tt, record existing { state = VenueOrderState.canceled })
      else (
        err (
            ExecutionError.rejected (
              str_append "shadow order " (
                str_append order.client_order_id
                  (str_append " is already " (venue_state_name existing.state))))),
        existing,
      )

  -- The search with `iter_mut().find(..)` and what is done at the order found.
  abbrev pub cancel_in :
      OrderLocator
      → List (VenueOrderSnapshot Q)
      → Result (Unit {0}) ExecutionError × List (VenueOrderSnapshot Q)
  cancel_in order [] =
      (err (ExecutionError.rejected (str_append "unknown shadow order " order.client_order_id)), [])
  cancel_in order (candidate ∷ orders) =
      let (later, rest) = cancel_in order orders in
      let (result, changed) = cancel_found order candidate in
      if is_located order candidate then (result, changed ∷ orders) else (later, candidate ∷ rest)

  unfoldable pub cancel : OrderLocator → Shadow Q → Result (Unit {0}) ExecutionError × Shadow Q
  cancel order self =
      let (result, orders) = cancel_in order self.book.orders in
      (result, record self { book = record self.book { orders = orders } })

  unfoldable pub open_orders : Shadow Q → List (VenueOrderSnapshot Q)
  open_orders self = resting self.book.orders

module _ {Q : Type 0} ⦃d : Decimal Q⦄ where
  unfoldable pub positions : Shadow Q → List (VenuePositionSnapshot Q)
  positions self =
      map
        (λ (entry : String × ShadowPosition Q). record {
          asset = entry.0;
          quantity = entry.1.net_quantity;
        })
        (filter (λ (entry : String × ShadowPosition Q). not (is_zero entry.1.net_quantity))
          self.book.positions)

  -- The adapter as the orchestrator sees it, with the interface's defaults for fills and accounts.
  abbrev pub shadow_adapter : (Uuid → String) → ShadowAdapterConfig → ExecutionAdapter Q (Shadow Q)
  shadow_adapter simple config = record {
    submit = submit simple config;
    cancel = cancel;
    open_orders = λ self. (ok (open_orders self), self);
    positions = λ self. (ok (positions self), self);
    fills = λ self.
        (err (ExecutionError.unsupported "fill history is not implemented by this adapter"), self);
    account_snapshot = λ self. (
      err (ExecutionError.unsupported "account snapshot is not implemented by this adapter"),
      self,
    );
    find_order_by_client_id =
        λ client_order_id self. (ok (order_by_client_id client_order_id self), self);
  }
