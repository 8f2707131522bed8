-- ===== src/Store/Ledger/Replay.antt =====
-- A fill that is sent again.
use pg_tsy_core_bootstrap.Prelude.{
  arith, ℤ, Bool, true, Option, none, some, Result, ok, err, List, [], ◌∷◌, ◌++◌, ◌≡◌, refl,
  string_eq, ==_refl,
}
use pg_tsy_core_bootstrap.Decimal.{Decimal, same, cmp_q_refl}
use pg_tsy_core_bootstrap.Types.{venue_eq, side_eq}
use pg_tsy_core_bootstrap.Oms.{OrderRecord}
use pg_tsy_core_bootstrap.Orchestrator.Defs.{RuntimeLease}
use pg_tsy_core_bootstrap.Store.Fills.{
  ExecutionFill, FillInsertOutcome, FillLedgerError, validate, belongs_to, fill_beq, venue_fill_key,
  same_int, same_option, same_int_option,
}
use pg_tsy_core_bootstrap.Store.Ledger.{
  Database, FillRow, select, of_client, has_key, fill_row, record_fill, bounded_insert,
  insert_or_match, insert_for, insert_valid, insert_execution_fill, holds_lease,
}

same_int_refl : (a : ℤ) → same_int a a ≡ true
same_int_refl a = ground arith

same_int_option_refl : (a : Option ℤ) → same_int_option a a ≡ true
same_int_option_refl none = refl
same_int_option_refl (some a) = same_int_refl a

module _ {Q : Type 0} ⦃d : Decimal Q⦄ where
  same_refl : (a : Q) → same a a ≡ true
  same_refl a = ground (arith, cmp_q_refl a)

  same_option_refl : (a : Option Q) → same_option a a ≡ true
  same_option_refl none = refl
  same_option_refl (some a) = ground (arith, cmp_q_refl a)

  fill_beq_refl : (fill : ExecutionFill Q) → fill_beq fill fill ≡ true
  unfolding fill_beq
  fill_beq_refl fill = rw (
    ==_refl fill.account_scope,
    ==_refl fill.venue,
    ==_refl fill.symbol,
    same_int_refl fill.trade_id,
    ==_refl fill.venue_fill_id,
    ==_refl fill.venue_order_id,
    ==_refl fill.client_order_id,
    ==_refl fill.side,
    same_refl fill.quantity,
    same_refl fill.price,
    same_option_refl fill.commission,
    ==_refl fill.commission_asset,
    same_option_refl fill.realized_pnl,
    same_int_option_refl fill.trade_time_ms,
    ==_refl fill.venue_time,
  )

  has_key-fill_row :
      (lease : RuntimeLease) (fill : ExecutionFill Q) → has_key fill (fill_row lease fill) ≡ true
  unfolding has_key
  has_key-fill_row lease fill = rw (
    ==_refl fill.account_scope,
    ==_refl fill.venue,
    ==_refl fill.symbol,
    ==_refl (venue_fill_key fill),
  )

module _ {ℓ} {A : Type ℓ} where
  select-append :
      (p : A → Bool) (rows : List A) (row : A)
      → select p rows ≡ none
      → p row ≡ true
      → select p (rows ++ row ∷ []) ≡ some row
  select-append p [] row missing found = rw found
  select-append p (first ∷ rows) row missing found = ground (arith, select-append p rows row)

module _ {Q : Type 0} ⦃d : Decimal Q⦄ where
  -- What an insertion that adds a row has found.
  abbrev Placed : RuntimeLease → ExecutionFill Q → Database Q → Database Q → Type 0
  Placed lease fill db db1 =
      (order : OrderRecord Q) × (select (of_client fill.client_order_id) db.order_records
        ≡ some order)
      × (belongs_to fill order ≡ true)
      × (select (has_key fill) db.execution_fills ≡ none)
      × (db1 ≡ record_fill lease fill db)

  insert_or_match-Placed :
      (lease : RuntimeLease) (fill : ExecutionFill Q) (order : OrderRecord Q) (db db1 : Database Q)
      (previous : Option (FillRow Q))
      → select (has_key fill) db.execution_fills ≡ previous
      → insert_or_match lease fill order previous db ≡ (ok FillInsertOutcome.inserted, db1)
      → (select (has_key fill) db.execution_fills ≡ none) × (db1 ≡ record_fill lease fill db)
  unfolding insert_or_match bounded_insert
  insert_or_match-Placed lease fill order db db1 none searched added =
      (searched, ground (arith, added))
  insert_or_match-Placed lease fill order db db1 (some previous) searched added =
      ground (arith, added)

  insert_for-Placed :
      (lease : RuntimeLease) (fill : ExecutionFill Q) (db db1 : Database Q)
      (found : Option (OrderRecord Q))
      → select (of_client fill.client_order_id) db.order_records ≡ found
      → insert_for lease fill found db ≡ (ok FillInsertOutcome.inserted, db1)
      → Placed lease fill db db1
  unfolding insert_for
  insert_for-Placed lease fill db db1 none owned added = ground (arith, added)
  insert_for-Placed lease fill db db1 (some order) owned added =
      let rows = select (has_key fill) db.execution_fills in
      let (belongs, matched) : (belongs_to fill order ≡ true)
          × (insert_or_match lease fill order rows db ≡ (ok FillInsertOutcome.inserted, db1)) =
        ground (arith, added) in
      let (missing, grown) = insert_or_match-Placed lease fill order db db1 rows refl matched in
      (order, owned, belongs, missing, grown)

  insert-Placed :
      (lease : RuntimeLease) (now : ℤ) (fill : ExecutionFill Q) (db db1 : Database Q)
      → insert_execution_fill lease now fill db ≡ (ok FillInsertOutcome.inserted, db1)
      → (validate fill ≡ ok tt) × Placed lease fill db db1
  unfolding insert_execution_fill
  insert-Placed lease now fill db db1 added = by_check (validate fill) added
    where
      by_check :
          (checked : Result (Unit {0}) FillLedgerError)
          → insert_valid lease now fill checked db ≡ (ok FillInsertOutcome.inserted, db1)
          → (checked ≡ ok tt) × Placed lease fill db db1
      by_check (err e) added = ground (arith, added)
      by_check (ok _) added =
          (refl, insert_for-Placed lease fill db db1 _ refl (ground (arith, added)))

  insert-record_fill :
      (lease : RuntimeLease) (later : ℤ) (fill : ExecutionFill Q) (order : OrderRecord Q)
      (db : Database Q)
      → validate fill ≡ ok tt
      → holds_lease lease later db ≡ true
      → select (of_client fill.client_order_id) db.order_records ≡ some order
      → belongs_to fill order ≡ true
      → select (has_key fill) db.execution_fills ≡ none
      → insert_execution_fill lease later fill (record_fill lease fill db)
        ≡ (ok FillInsertOutcome.duplicate, record_fill lease fill db)
  unfolding insert_execution_fill insert_for insert_or_match record_fill holds_lease
  insert-record_fill lease later fill order db valid held owned belongs missing = rw (
    valid,
    held,
    owned,
    belongs,
    select-append (has_key fill) db.execution_fills (fill_row lease fill) missing
        (has_key-fill_row lease fill),
    fill_beq_refl fill,
  )

  -- A fill that was inserted, sent again at once under a lease that still stands: it is reported as a
  -- duplicate and the database does not change.
  pub insert-insert :
      (lease : RuntimeLease) (now later : ℤ) (fill : ExecutionFill Q) (db db1 : Database Q)
      → insert_execution_fill lease now fill db ≡ (ok FillInsertOutcome.inserted, db1)
      → holds_lease lease later db ≡ true
      → insert_execution_fill lease later fill db1 ≡ (ok FillInsertOutcome.duplicate, db1)
  insert-insert lease now later fill db db1 added held =
      let (valid, (order, owned, belongs, missing, grown)) =
        insert-Placed lease now fill db db1 added in
      rw grown (insert-record_fill lease later fill order db valid held owned belongs missing)
