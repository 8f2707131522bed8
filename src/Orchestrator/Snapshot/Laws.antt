-- ===== src/Orchestrator/Snapshot/Laws.antt =====
-- What a snapshot that passes `validate_snapshot` may do to a record.
use pg_tsy_core_bootstrap.Prelude.{
  String, Bool, true, false, not, ◌&&◌, Option, none, some, Result, ok, bail_if, ◌>>◌, ◌≡◌, ◌≢◌,
  ◌⊎◌, inl, refl, arith, string_eq, option_eq, is_some_and, ◌==◌, ◌!=◌,
}
use pg_tsy_core_bootstrap.Decimal.{Decimal, ◌≈◌, same}
use pg_tsy_core_bootstrap.Oms.{OrderState, OrderRecord, is_terminal_state, state_eq}
use pg_tsy_core_bootstrap.Oms.Lifecycle.{IsBounded}
use pg_tsy_core_bootstrap.Execution.{VenueOrderState, VenueOrderSnapshot, venue_state_eq}
use pg_tsy_core_bootstrap.Orchestrator.Snapshot.{
  same_terminal, contract_conflict, fill_conflict, partial_conflict, unsubmitted_conflict,
  validate_snapshot, apply_snapshot,
}

same_id :
    (known : Option String) (id : String)
    → is_some_and known (λ k. k != id) ≡ false
    → (known ≡ none) ⊎ (some id ≡ known)
same_id none id h = inl refl
same_id (some k) id h = ground (arith, string_eq.beq_iff k id)

eight_guards :
    (a b c e f g h i : Bool) (x y z u v w s t : String)
    → ◌≡◌ {A = Result (Unit {0}) String}
        (bail_if a x
          >> (bail_if b y
              >> (bail_if c z
                  >> (bail_if e u
                      >> (bail_if f v
                          >> (bail_if g w >> (bail_if h s >> (bail_if i t >> ok tt))))))))
        (ok tt)
    → (c ≡ false) × (b ≡ false) × (e ≡ false) × (f ≡ false) × (g ≡ false)
eight_guards a b c e f g h i x y z u v w s t p = ground arith

module _ {Q : Type 0} ⦃d : Decimal Q⦄ where
  -- What a valid snapshot leaves of a record, which may gain a venue id and change its state.
  pub record IsContinued (old new : OrderRecord Q) : Type 0 where
    pub bounded : IsBounded new
    pub same_fills : new.filled_quantity ≈ old.filled_quantity
    pub same_end : is_terminal_state old.state ≡ true → new.state ≡ old.state
    pub never_filled : old.state ≢ OrderState.filled → new.state ≢ OrderState.filled
    pub known : new.state ≢ OrderState.unknown
    pub same_identity : (old.venue_order_id ≡ none) ⊎ (new.venue_order_id ≡ old.venue_order_id)

  -- The guards that the law rests on.
  valid_guards :
      (r : OrderRecord Q) (snapshot : VenueOrderSnapshot Q)
      → validate_snapshot r snapshot ≡ ok tt
      → (fill_conflict r snapshot ≡ false)
        × (contract_conflict r snapshot ≡ false)
        × ((snapshot.state == VenueOrderState.unknown) ≡ false)
        × (is_terminal_state r.state && not (same_terminal r.state snapshot.state) ≡ false)
        × (snapshot.state == VenueOrderState.filled
              && not (same snapshot.filled_quantity r.requested_quantity)
            ≡ false)
  unfolding validate_snapshot
  valid_guards r snapshot h =
      eight_guards _ _ _ _ _ _ (partial_conflict r snapshot) (unsubmitted_conflict r snapshot) _ _ _
        _ _ _ "partial fill status contradicts cumulative quantity"
        "unsubmitted local order found remotely" h

  module _ (r : OrderRecord Q) (snapshot : VenueOrderSnapshot Q) (h : IsBounded r)
      (fills : fill_conflict r snapshot ≡ false)
      (whole : snapshot.state == VenueOrderState.filled
          && not (same snapshot.filled_quantity r.requested_quantity)
        ≡ false)
      (ended : is_terminal_state r.state && not (same_terminal r.state snapshot.state)
        ≡ false) where
    apply_snapshot-IsBounded : IsBounded (apply_snapshot r snapshot)
    unfolding apply_snapshot
    apply_snapshot-IsBounded = ground arith

    snapshot_never_filled :
        r.state ≢ OrderState.filled → (apply_snapshot r snapshot).state ≢ OrderState.filled
    unfolding apply_snapshot
    snapshot_never_filled = ground arith

  -- For a record within its bounds (`IsBounded`: the cumulative fill is at most the requested
  -- quantity, and the record is `Filled` exactly when they are equal), a snapshot that passes
  -- `validate_snapshot` keeps the bounds of the record, its cumulative fill, its state where that is
  -- terminal and its venue id where it has one, and moves no such record to `Filled` or `Unknown`.
  pub apply_snapshot-IsContinued :
      (r : OrderRecord Q) (snapshot : VenueOrderSnapshot Q)
      → IsBounded r
      → validate_snapshot r snapshot ≡ ok tt
      → IsContinued r (apply_snapshot r snapshot)
  unfolding apply_snapshot
  apply_snapshot-IsContinued r snapshot h valid =
      let (fills, contract, unknown, ended, whole) = valid_guards r snapshot valid in
      record {
        bounded = apply_snapshot-IsBounded r snapshot h fills whole ended;
        same_fills = ground arith;
        same_end = ground arith;
        never_filled = snapshot_never_filled r snapshot h fills whole ended;
        known = ground arith;
        same_identity = ground (arith, same_id r.venue_order_id snapshot.venue_order_id);
      }
