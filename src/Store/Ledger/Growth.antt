-- ===== src/Store/Ledger/Growth.antt =====
-- What an insertion adds to the ledger, and the sums that follow.
use pg_tsy_core_bootstrap.Prelude.{
  arith, ℤ, String, Option, none, some, Result, ok, err, List, [], ◌∷◌, ◌++◌, any, ◌≡◌, refl, ◌⊎◌,
  inl, inr, ◌==◌, string_eq, if◌then◌else◌, if_paths, not,
}
use pg_tsy_core_bootstrap.Decimal.{Decimal, ◌≼◌, lt}
use pg_tsy_core_bootstrap.Oms.{OrderRecord}
use pg_tsy_core_bootstrap.Orchestrator.Defs.{RuntimeLease}
use pg_tsy_core_bootstrap.Store.Fills.{
  ExecutionFill, FillInsertOutcome, FillLedgerError, validate, belongs_to, fill_beq,
}
use pg_tsy_core_bootstrap.Store.Ledger.{
  Database, FillRow, Outcome, select, of_client, has_key, total_fills, with_fill, record_fill,
  bounded_insert, insert_or_match, insert_for, insert_valid, insert_execution_fill, recorded,
  holds_lease,
}

module _ {Q : Type 0} ⦃d : Decimal Q⦄ where
  pub recorded-append :
      (client : String) (rows : List (FillRow Q)) (row : FillRow Q) (start total : Q)
      → recorded client rows start ≡ some total
      → recorded client (rows ++ row ∷ []) start ≡ (
          if row.client_order_id == client
          then d.checked_add total row.fill_data.quantity
          else some total)
  unfolding recorded
  recorded-append client [] row start total sums = ground (arith, sums)
  recorded-append client (first ∷ rows) row start total sums =
      grind (arith, sums, λ (next : Q). recorded-append client rows row next total)

  -- Where the loop of the insertion ends with a sum, it is the recorded one.
  pub recorded_of_total :
      (fill : ExecutionFill Q) (rows : List (FillRow Q)) (start total : Q)
      → total_fills fill rows start ≡ some total
      → recorded fill.client_order_id rows start ≡ some total
  unfolding recorded total_fills
  recorded_of_total fill [] start total sums = sums
  recorded_of_total fill (first ∷ rows) start total sums =
      grind (arith, sums, λ (next : Q). recorded_of_total fill rows next total)

  -- The database after an insertion: as before, or with a fill that the order of its client id, which
  -- the database has, can still take.
  abbrev pub Grown : RuntimeLease → ExecutionFill Q → Database Q → Database Q → Type 0
  Grown lease fill db db' =
      (db' ≡ db)
      ⊎ ((order : OrderRecord Q) × (sum : Q) × (select (of_client fill.client_order_id)
              db.order_records
            ≡ some order)
          × (with_fill (total_fills fill db.execution_fills d.zero) fill ≡ some sum)
          × (sum ≼ order.requested_quantity)
          × (db' ≡ record_fill lease fill db))

  bounded_insert-Grown :
      (lease : RuntimeLease) (fill : ExecutionFill Q) (order : OrderRecord Q) (db : Database Q)
      (sums : Option Q)
      → select (of_client fill.client_order_id) db.order_records ≡ some order
      → with_fill (total_fills fill db.execution_fills d.zero) fill ≡ sums
      → Grown lease fill db (bounded_insert lease fill order sums db).1
  unfolding bounded_insert
  bounded_insert-Grown lease fill order db none owned made = inl refl
  bounded_insert-Grown lease fill order db (some sum) owned made =
      if_paths (λ (o : Outcome Q). Grown lease fill db o.1) (lt order.requested_quantity sum)
        (err FillLedgerError.conflict, db) _ (λ _. inl refl)
        λ within.
          if_paths (λ (o : Outcome Q). Grown lease fill db o.1)
            (any (has_key fill) db.execution_fills) (err FillLedgerError.conflict, db)
            (ok FillInsertOutcome.inserted, record_fill lease fill db) (λ _. inl refl)
            λ _. inr (order, sum, owned, made, ground arith, refl)

  insert_or_match-Grown :
      (lease : RuntimeLease) (fill : ExecutionFill Q) (order : OrderRecord Q) (db : Database Q)
      (same : Option (FillRow Q))
      → select (of_client fill.client_order_id) db.order_records ≡ some order
      → Grown lease fill db (insert_or_match lease fill order same db).1
  unfolding insert_or_match
  insert_or_match-Grown lease fill order db none owned =
      bounded_insert-Grown lease fill order db _ owned refl
  insert_or_match-Grown lease fill order db (some previous) owned = inl (
      if_paths (λ (o : Outcome Q). o.1 ≡ db) (fill_beq previous.fill_data fill)
        (ok FillInsertOutcome.duplicate, db) (err FillLedgerError.conflict, db) (λ _. refl)
        (λ _. refl))

  insert_for-Grown :
      (lease : RuntimeLease) (fill : ExecutionFill Q) (db : Database Q)
      (found : Option (OrderRecord Q))
      → select (of_client fill.client_order_id) db.order_records ≡ found
      → Grown lease fill db (insert_for lease fill found db).1
  unfolding insert_for
  insert_for-Grown lease fill db none owned = inl refl
  insert_for-Grown lease fill db (some order) owned =
      if_paths (λ (o : Outcome Q). Grown lease fill db o.1) (not (belongs_to fill order))
        (err FillLedgerError.conflict, db) _ (λ _. inl refl)
        λ _. insert_or_match-Grown lease fill order db _ owned

  pub insert-Grown :
      (lease : RuntimeLease) (now : ℤ) (fill : ExecutionFill Q) (db : Database Q)
      → Grown lease fill db (insert_execution_fill lease now fill db).1
  unfolding insert_execution_fill
  insert-Grown lease now fill db = by_check (validate fill)
    where
      by_check :
          (checked : Result (Unit {0}) FillLedgerError)
          → Grown lease fill db (insert_valid lease now fill checked db).1
      by_check (err e) = inl refl
      by_check (ok _) =
          if_paths (λ (o : Outcome Q). Grown lease fill db o.1) (not (holds_lease lease now db))
            (err FillLedgerError.fencing_lost, db) _ (λ _. inl refl)
            λ _. insert_for-Grown lease fill db _ refl
