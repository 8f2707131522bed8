-- ===== src/Shadow/Ledger.antt =====
-- The book's positions as the sum of its filled orders, in every history of the simulated venue.
use pg_tsy_core_bootstrap.Prelude.{
  arith, String, true, false, ◌&&◌, Option, none, some, Result, ok, err, List, [], ◌∷◌, ◌++◌, ◌≡◌,
  refl, sym, ap, ◌∙◌, ◌==◌, string_eq, string_ord, same_key_eq, get, insert, get-insert,
  if◌then◌else◌, Bool-cases, eq_of_==, ◌⊎◌, inl, inr,
}
use pg_tsy_core_bootstrap.Decimal.{Decimal}
use pg_tsy_core_bootstrap.Types.{Side, Uuid, OrderIntent, client_order_id}
use pg_tsy_core_bootstrap.Execution.{
  ExecutionError, VenueOrderSnapshot, VenueOrderState, venue_state_eq, OrderLocator, find_by_client,
}
use pg_tsy_core_bootstrap.Shadow.Defs.{
  ShadowFillMode, ShadowAdapterConfig, ShadowPosition, ShadowBook, Shadow, new_shadow,
}
use pg_tsy_core_bootstrap.Shadow.Book.{
  position, signed, apply_fill, set_reference_price, filled_position,
}
use pg_tsy_core_bootstrap.Shadow.Adapter.{
  new_order, fill_price, place, shadow_order_id, adopt_or_place, check_intent, submit_checked,
  submit, cancel, cancel_in, cancel_found,
}

-- A call that changes the venue.
pub data Operation (Q : Type 0) : Type 0 where
  submit_intent : OrderIntent Q → Operation Q
  cancel_order : OrderLocator → Operation Q
  observe_price : Q → Operation Q

module _ {Q : Type 0} ⦃d : Decimal Q⦄ where
  unfoldable pub step : (Uuid → String) → ShadowAdapterConfig → Operation Q → Shadow Q → Shadow Q
  step simple config (Operation.submit_intent intent) s = (submit simple config intent s).1
  step simple config (Operation.cancel_order order) s = (cancel order s).1
  step simple config (Operation.observe_price price) s = set_reference_price price s

  unfoldable pub run :
      (Uuid → String) → ShadowAdapterConfig → List (Operation Q) → Shadow Q → Shadow Q
  run simple config [] s = s
  run simple config (operation ∷ operations) s =
      run simple config operations (step simple config operation s)

  -- What an order adds to the position of an asset.
  abbrev booked_order : String → Q → VenueOrderSnapshot Q → Q
  booked_order asset total order =
      if order.state == VenueOrderState.filled && order.asset == asset
      then d.add total (signed order.filled_quantity order.side)
      else total

  -- The signed sum of the filled orders of an asset, the oldest first.
  unfoldable pub booked : String → Q → List (VenueOrderSnapshot Q) → Q
  booked asset total [] = total
  booked asset total (order ∷ orders) = booked asset (booked_order asset total order) orders

  abbrev pub IsBooked : Shadow Q → Type 0
  IsBooked s =
      (asset : String) → (position asset s.book).net_quantity ≡ booked asset d.zero s.book.orders

  booked-append :
      (asset : String) (total : Q) (orders : List (VenueOrderSnapshot Q))
      (order : VenueOrderSnapshot Q)
      → booked asset total (orders ++ order ∷ [])
        ≡ booked_order asset (booked asset total orders) order
  unfolding booked
  booked-append asset total [] order = refl
  booked-append asset total (first ∷ orders) order =
      booked-append asset (booked_order asset total first) orders order

  booked_order-cancel_found :
      (asset : String) (order : OrderLocator) (total : Q) (candidate : VenueOrderSnapshot Q)
      → booked_order asset total (cancel_found order candidate).1
        ≡ booked_order asset total candidate
  booked_order-cancel_found asset order total candidate = ground arith

  booked-cancel_in :
      (asset : String) (order : OrderLocator) (total : Q) (orders : List (VenueOrderSnapshot Q))
      → booked asset total (cancel_in order orders).1 ≡ booked asset total orders
  unfolding booked
  booked-cancel_in asset order total [] = refl
  booked-cancel_in asset order total (candidate ∷ orders) = ground (
    arith,
    booked-cancel_in asset order (booked_order asset total candidate) orders,
    booked_order-cancel_found asset order total candidate,
  )

  position-insert :
      (asset other : String) (p : ShadowPosition Q) (book : ShadowBook Q)
      → position other (record book { positions = insert asset p book.positions })
        ≡ (if asset == other then p else position other book)
  unfolding position
  position-insert asset other p book =
      ground (arith, get-insert asset other p book.positions, same_key_eq asset other)

  pub position-apply_fill :
      (asset other : String) (side : Side) (quantity price : Q) (book : ShadowBook Q)
      → (position other (apply_fill asset side quantity price book)).net_quantity ≡ (
          if asset == other
          then d.add (position other book).net_quantity (signed quantity side)
          else (position other book).net_quantity)
  unfolding apply_fill
  position-apply_fill asset other side quantity price book =
      ap (λ (p : ShadowPosition Q). p.net_quantity)
        (position-insert asset other
          (filled_position (position asset book) (signed quantity side) price) book)
      ∙ chosen asset other (Bool-cases (asset == other))
    where
      chosen :
          (asset other : String)
          → ((asset == other) ≡ true) ⊎ ((asset == other) ≡ false)
          → (if asset == other
              then filled_position (position asset book) (signed quantity side) price
              else position other book).net_quantity
            ≡ (if asset == other
                then d.add (position other book).net_quantity (signed quantity side)
                else (position other book).net_quantity)
      chosen asset other (inl h) = rw h (
          ap (λ a. d.add (position a book).net_quantity (signed quantity side))
            (eq_of_== asset other h))
      chosen asset other (inr h) = rw h

  place-IsBooked :
      (mode : ShadowFillMode) (id client : String) (intent : OrderIntent Q) (s : Shadow Q)
      → IsBooked s
      → IsBooked (place mode id client intent s)
  unfolding place apply_fill position
  place-IsBooked ShadowFillMode.rest id client intent s h asset =
      h asset
      ∙ sym (
          booked-append asset d.zero s.book.orders (new_order ShadowFillMode.rest id client intent))
  place-IsBooked ShadowFillMode.immediate_fill id client intent s h asset = ground (
    arith,
    h asset,
    position-apply_fill intent.asset asset intent.side intent.quantity
        (fill_price intent.limit_price s.reference_price) s.book,
    booked-append asset d.zero s.book.orders
        (new_order ShadowFillMode.immediate_fill id client intent),
  )

  checked-IsBooked :
      (mode : ShadowFillMode) (client : String) (intent : OrderIntent Q) (s : Shadow Q)
      (checked : Result (Unit {0}) ExecutionError) (found : Option (VenueOrderSnapshot Q))
      → find_by_client client s.book.orders ≡ found
      → IsBooked s
      → IsBooked (submit_checked mode client intent checked s).1
  unfolding adopt_or_place
  checked-IsBooked mode client intent s (err e) found searched h = h
  checked-IsBooked mode client intent s (ok _) none searched h =
      rw searched (place-IsBooked mode (shadow_order_id s) client intent s h)
  checked-IsBooked mode client intent s (ok _) (some existing) searched h = rw searched h

  cancel-IsBooked : (order : OrderLocator) (s : Shadow Q) → IsBooked s → IsBooked (cancel order s).1
  unfolding cancel position
  cancel-IsBooked order s h asset =
      h asset ∙ sym (booked-cancel_in asset order d.zero s.book.orders)

  price-IsBooked : (price : Q) (s : Shadow Q) → IsBooked s → IsBooked (set_reference_price price s)
  unfolding set_reference_price
  price-IsBooked price s h asset = ground (arith, h asset)

  step-IsBooked :
      (simple : Uuid → String) (config : ShadowAdapterConfig) (operation : Operation Q)
      (s : Shadow Q)
      → IsBooked s
      → IsBooked (step simple config operation s)
  unfolding step submit
  step-IsBooked simple config (Operation.submit_intent intent) s h =
      checked-IsBooked config.fill_mode (client_order_id simple intent) intent s
        (check_intent config intent s) _ refl h
  step-IsBooked simple config (Operation.cancel_order order) s h = cancel-IsBooked order s h
  step-IsBooked simple config (Operation.observe_price price) s h = price-IsBooked price s h

  run-IsBooked_of :
      (simple : Uuid → String) (config : ShadowAdapterConfig) (operations : List (Operation Q))
      (s : Shadow Q)
      → IsBooked s
      → IsBooked (run simple config operations s)
  unfolding run
  run-IsBooked_of simple config [] s h = h
  run-IsBooked_of simple config (operation ∷ operations) s h =
      run-IsBooked_of simple config operations (step simple config operation s)
        (step-IsBooked simple config operation s h)

  new-IsBooked : IsBooked new_shadow
  unfolding position booked get
  new-IsBooked asset = refl

  -- Whatever is submitted, canceled and observed on a new simulated venue, in any order, accepted or
  -- refused: the position of every asset is the signed sum of the filled orders of that asset in the
  -- book, the oldest first.
  pub run-IsBooked :
      (simple : Uuid → String) (config : ShadowAdapterConfig) (operations : List (Operation Q))
      → IsBooked (run simple config operations new_shadow)
  run-IsBooked simple config operations =
      run-IsBooked_of simple config operations new_shadow new-IsBooked
