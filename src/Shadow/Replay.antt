-- ===== src/Shadow/Replay.antt =====
-- A submission that is repeated, and the search for an order that was submitted.
use pg_tsy_core_bootstrap.Prelude.{
  arith, String, true, Option, none, some, Result, ok, err, List, [], ◌∷◌, ◌++◌, ◌≡◌, ◌≢◌, refl, ap,
  ==_refl, option_eq, string_eq,
}
use pg_tsy_core_bootstrap.Decimal.{Decimal}
use pg_tsy_core_bootstrap.Types.{Uuid, OrderIntent, ExposureEffect, client_order_id, effect_eq}
use pg_tsy_core_bootstrap.Execution.{
  ExecutionError, VenueOrderAck, VenueOrderSnapshot, VenueOrderState, find_by_client,
}
use pg_tsy_core_bootstrap.Shadow.Defs.{ShadowFillMode, ShadowAdapterConfig, Shadow}
use pg_tsy_core_bootstrap.Shadow.Book.{apply_fill, find_last, has_client_id, order_by_client_id}
use pg_tsy_core_bootstrap.Shadow.Adapter.{
  new_order, place, shadow_order_id, adopt_or_place, check_intent, submit_checked, submit,
}

module _ {Q : Type 0} where
  find_by_client-append :
      (client : String) (orders : List (VenueOrderSnapshot Q)) (order : VenueOrderSnapshot Q)
      → find_by_client client orders ≡ none
      → order.client_order_id ≡ some client
      → find_by_client client (orders ++ order ∷ []) ≡ some order
  unfolding find_by_client
  find_by_client-append client [] order missing named =
      ground (arith, (option_eq ⦃e = string_eq⦄).beq_iff order.client_order_id (some client))
  find_by_client-append client (first ∷ orders) order missing named =
      ground (arith, find_by_client-append client orders order)

module _ {Q : Type 0} ⦃d : Decimal Q⦄ where
  pub place-orders :
      (mode : ShadowFillMode) (id client : String) (intent : OrderIntent Q) (s : Shadow Q)
      → (place mode id client intent s).book.orders
        ≡ s.book.orders ++ new_order mode id client intent ∷ []
  unfolding place apply_fill
  place-orders ShadowFillMode.rest id client intent s = refl
  place-orders ShadowFillMode.immediate_fill id client intent s = refl

  adopt_again :
      (mode : ShadowFillMode) (client : String) (intent : OrderIntent Q) (s : Shadow Q)
      (ack : VenueOrderAck) (s1 : Shadow Q) (found : Option (VenueOrderSnapshot Q))
      → find_by_client client s.book.orders ≡ found
      → adopt_or_place mode client intent found s ≡ (ok ack, s1)
      → adopt_or_place mode client intent (find_by_client client s1.book.orders) s1 ≡ (ok ack, s1)
  unfolding adopt_or_place
  adopt_again mode client intent s ack s1 (some existing) searched placed =
      ground (arith, searched, placed)
  adopt_again mode client intent s ack s1 none searched placed = ground (
    arith,
    placed,
    place-orders mode (shadow_order_id s) client intent s,
    find_by_client-append client s.book.orders (new_order mode (shadow_order_id s) client intent)
        searched refl,
  )

  check_again :
      (config : ShadowAdapterConfig) (intent : OrderIntent Q) (s s1 : Shadow Q)
      → intent.effect ≢ ExposureEffect.reduce_only
      → check_intent config intent s ≡ check_intent config intent s1
  unfolding check_intent
  check_again config intent s s1 h =
      ground (arith, effect_eq.beq_iff intent.effect ExposureEffect.reduce_only)

  checked_again :
      (mode : ShadowFillMode) (client : String) (intent : OrderIntent Q) (s s1 : Shadow Q)
      (ack : VenueOrderAck) (first second : Result (Unit {0}) ExecutionError)
      → submit_checked mode client intent first s ≡ (ok ack, s1)
      → ((submit_checked mode client intent second s1).1 ≡ s1)
        × (first ≡ second → (submit_checked mode client intent second s1).0 ≡ ok ack)
  checked_again mode client intent s s1 ack (err e) second submitted = ground (arith, submitted)
  checked_again mode client intent s s1 ack (ok _) (err e) submitted =
      (refl, λ same. ground (arith, same))
  checked_again mode client intent s s1 ack (ok _) (ok _) submitted =
      let again =
        adopt_again mode client intent s ack s1 (find_by_client client s.book.orders) refl
          submitted in
      (ap (λ x. x.1) again, λ _. ap (λ x. x.0) again)

  -- A submission that was accepted, repeated: the state does not change, so that no second order and no second fill comes
  -- of it, and unless the intent is reduce-only, the answer is the same acknowledgement.
  pub submit-submit :
      (simple : Uuid → String) (config : ShadowAdapterConfig) (intent : OrderIntent Q)
      (s s1 : Shadow Q) (ack : VenueOrderAck)
      → submit simple config intent s ≡ (ok ack, s1)
      → ((submit simple config intent s1).1 ≡ s1)
        × (intent.effect ≢ ExposureEffect.reduce_only → (submit simple config intent s1).0 ≡ ok ack)
  unfolding submit
  submit-submit simple config intent s s1 ack submitted =
      let (unchanged, same_answer) =
        checked_again config.fill_mode (client_order_id simple intent) intent s s1 ack
          (check_intent config intent s) (check_intent config intent s1) submitted in
      (unchanged, λ opens. same_answer (check_again config intent s s1 opens))

module _ {Q : Type 0} where
  find_last-append :
      (client : String) (orders : List (VenueOrderSnapshot Q)) (order : VenueOrderSnapshot Q)
      → has_client_id client order ≡ true
      → find_last (has_client_id client) (orders ++ order ∷ []) ≡ some order
  find_last-append client [] order named = rw named
  find_last-append client (first ∷ orders) order named =
      rw (find_last-append client orders order named)

module _ {Q : Type 0} ⦃d : Decimal Q⦄ where
  placed-found :
      (mode : ShadowFillMode) (client : String) (intent : OrderIntent Q) (s s1 : Shadow Q)
      (ack : VenueOrderAck) (checked : Result (Unit {0}) ExecutionError)
      → find_by_client client s.book.orders ≡ none
      → submit_checked mode client intent checked s ≡ (ok ack, s1)
      → order_by_client_id client s1 ≡ some (new_order mode ack.venue_order_id client intent)
  unfolding adopt_or_place order_by_client_id
  placed-found mode client intent s s1 ack (err e) fresh submitted = ground (arith, submitted)
  placed-found mode client intent s s1 ack (ok _) fresh submitted = ground (
    arith,
    fresh,
    submitted,
    place-orders mode (shadow_order_id s) client intent s,
    find_last-append client s.book.orders (new_order mode (shadow_order_id s) client intent)
        (==_refl (some client)),
  )

  submitted-found :
      (simple : Uuid → String) (config : ShadowAdapterConfig) (intent : OrderIntent Q)
      (s s1 : Shadow Q) (ack : VenueOrderAck)
      → find_by_client (client_order_id simple intent) s.book.orders ≡ none
      → submit simple config intent s ≡ (ok ack, s1)
      → order_by_client_id (client_order_id simple intent) s1
        ≡ some
            (new_order config.fill_mode ack.venue_order_id (client_order_id simple intent) intent)
  unfolding submit
  submitted-found simple config intent s s1 ack fresh submitted =
      placed-found config.fill_mode (client_order_id simple intent) intent s s1 ack
        (check_intent config intent s) fresh submitted

  -- What the book says of an order that was placed for an intent.
  pub record IsPlaced (mode : ShadowFillMode) (venue_order_id client : String)
      (intent : OrderIntent Q) (order : VenueOrderSnapshot Q) : Type 0 where
    pub acknowledged : order.venue_order_id ≡ venue_order_id
    pub named : order.client_order_id ≡ some client
    pub same_asset : order.asset ≡ intent.asset
    pub same_side : order.side ≡ intent.side
    pub same_quantity : order.requested_quantity ≡ intent.quantity
    pub same_limit : order.limit_price ≡ intent.limit_price
    pub rests :
        mode ≡ ShadowFillMode.rest
        → (order.state ≡ VenueOrderState.opened) × (order.filled_quantity ≡ d.zero)
    pub fills :
        mode ≡ ShadowFillMode.immediate_fill
        → (order.state ≡ VenueOrderState.filled) × (order.filled_quantity ≡ intent.quantity)

  new_order-IsPlaced :
      (mode : ShadowFillMode) (id client : String) (intent : OrderIntent Q)
      → IsPlaced mode id client intent (new_order mode id client intent)
  new_order-IsPlaced mode id client intent = record {
    acknowledged = refl;
    named = refl;
    same_asset = refl;
    same_side = refl;
    same_quantity = refl;
    same_limit = refl;
    rests = λ rests. (rw rests, rw rests);
    fills = λ fills. (rw fills, rw fills);
  }

  -- A submission that is accepted, of a client id that the book did not have: the search by that
  -- client id then finds an order with the venue order id of the acknowledgement, that client id, and
  -- the asset, side, quantity and limit price of the intent. In the mode that rests it is open with
  -- no fill; in the mode that fills at once it is filled with the whole quantity.
  pub order_by_client_id-submit :
      (simple : Uuid → String) (config : ShadowAdapterConfig) (intent : OrderIntent Q)
      (s s1 : Shadow Q) (ack : VenueOrderAck)
      → find_by_client (client_order_id simple intent) s.book.orders ≡ none
      → submit simple config intent s ≡ (ok ack, s1)
      → (order : VenueOrderSnapshot Q) × (order_by_client_id (client_order_id simple intent) s1
          ≡ some order)
        × IsPlaced config.fill_mode ack.venue_order_id (client_order_id simple intent) intent order
  order_by_client_id-submit simple config intent s s1 ack fresh submitted =
      let client = client_order_id simple intent in
      (
        new_order config.fill_mode ack.venue_order_id client intent,
        submitted-found simple config intent s s1 ack fresh submitted,
        new_order-IsPlaced config.fill_mode ack.venue_order_id client intent,
      )
