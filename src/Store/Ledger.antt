-- ===== src/Store/Ledger.antt =====
-- `insert_execution_fill` and `recorded_fill_quantity`, as transactions on the tables. A transaction
-- that ends in an error is rolled back. The rows of a client id are read in the order of their
-- insertion. A failure of the connection and stored JSON that does not decode are not modelled.
pub mod Growth
pub mod Bounds
pub mod Replay
use Prim.Native.String.{◌++◌ as str_append}
use pg_tsy_core_bootstrap.Prelude.{
  ℤ, String, Bool, true, false, not, ◌&&◌, ◌||◌, Option, none, some, Result, ok, err, List, [], ◌∷◌,
  ◌++◌, any, ◌==◌, string_eq, if◌then◌else◌, compare_ℤ, is_eq, Ordering,
}
use pg_tsy_core_bootstrap.Decimal.{Decimal, le, lt}
use pg_tsy_core_bootstrap.Types.{Venue, Side, venue_eq, side_eq}
use pg_tsy_core_bootstrap.Oms.{OrderRecord}
use pg_tsy_core_bootstrap.Orchestrator.Defs.{RuntimeLease}
use pg_tsy_core_bootstrap.Store.Fills.{
  ExecutionFill, FillInsertOutcome, FillLedgerError, venue_fill_key, validate, belongs_to, fill_beq,
}

-- A row of `runtime_leases`.
pub record LeaseRow : Type 0 where
  pub lease_key : String
  pub holder_id : String
  pub fencing_token : ℤ
  pub lease_expires_at : ℤ

-- A row of `execution_fills`, whose primary key is the first four columns.
pub record FillRow (Q : Type 0) : Type 0 where
  pub account_scope : String
  pub venue : Venue
  pub symbol : String
  pub venue_fill_id : String
  pub trade_id : ℤ
  pub client_order_id : String
  pub fill_data : ExecutionFill Q
  pub fencing_token : ℤ

-- A row of `event_journal`, with the fill of its payload.
pub record EventRow (Q : Type 0) : Type 0 where
  pub stream_id : String
  pub event_type : String
  pub fill : ExecutionFill Q
  pub fencing_token : ℤ

pub record Database (Q : Type 0) : Type 0 where
  pub runtime_leases : List LeaseRow
  pub order_records : List (OrderRecord Q)
  pub execution_fills : List (FillRow Q)
  pub event_journal : List (EventRow Q)

-- The first row with the property, as `fetch_optional` gives the row of a unique key.
abbrev pub select {ℓ} : {A : Type ℓ} → (A → Bool) → List A → Option A
select p [] = none
select p (row ∷ rows) = if p row then some row else select p rows

abbrev is_gt : Ordering → Bool
is_gt Ordering.gt = true
is_gt _ = false

-- The condition of the lease query; `now` is what `now()` returns.
abbrev pub is_held : RuntimeLease → ℤ → LeaseRow → Bool
is_held lease now row =
    row.lease_key == lease.lease_key
    && row.holder_id == lease.holder_id
    && is_eq (compare_ℤ row.fencing_token lease.fencing_token)
    && is_gt (compare_ℤ row.lease_expires_at now)

abbrev pub Outcome : Type 0 → Type 0
Outcome Q = Result FillInsertOutcome FillLedgerError × Database Q

module _ {Q : Type 0} where
  unfoldable pub holds_lease : RuntimeLease → ℤ → Database Q → Bool
  holds_lease lease now db = any (is_held lease now) db.runtime_leases

  abbrev pub of_client : String → OrderRecord Q → Bool
  of_client client_order_id order = order.client_order_id == client_order_id

  -- Whether a row has the primary key of a fill.
  unfoldable pub has_key : ExecutionFill Q → FillRow Q → Bool
  has_key fill row =
      row.account_scope == fill.account_scope
      && row.venue == fill.venue
      && row.symbol == fill.symbol
      && row.venue_fill_id == venue_fill_key fill

  -- The comparison of an earlier fill of the order.
  unfoldable pub is_other_order : ExecutionFill Q → ExecutionFill Q → Bool
  is_other_order fill old =
      not (old.account_scope == fill.account_scope)
      || not (old.venue == fill.venue)
      || not (old.symbol == fill.symbol)
      || not (old.venue_order_id == fill.venue_order_id)
      || not (old.side == fill.side)

module _ {Q : Type 0} ⦃d : Decimal Q⦄ where
  -- One earlier fill of the order.
  abbrev pub added : ExecutionFill Q → ExecutionFill Q → Q → Option Q
  added fill old total = if is_other_order fill old then none else d.checked_add total old.quantity

  -- The loop over the earlier fills of the order; `none` is `Conflict`.
  unfoldable pub total_fills : ExecutionFill Q → List (FillRow Q) → Q → Option Q
  total_fills fill [] total = some total
  total_fills fill (row ∷ rows) total = elim (row.client_order_id == fill.client_order_id) [
    | false ↦ total_fills fill rows total
    | true ↦ elim (added fill row.fill_data total) [
      | none ↦ none
      | some sum ↦ total_fills fill rows sum
    ]
  ]

  abbrev pub fill_row : RuntimeLease → ExecutionFill Q → FillRow Q
  fill_row lease fill = record {
    account_scope = fill.account_scope;
    venue = fill.venue;
    symbol = fill.symbol;
    venue_fill_id = venue_fill_key fill;
    trade_id = fill.trade_id;
    client_order_id = fill.client_order_id;
    fill_data = fill;
    fencing_token = lease.fencing_token;
  }

  -- The two inserts.
  unfoldable pub record_fill : RuntimeLease → ExecutionFill Q → Database Q → Database Q
  record_fill lease fill db = record db {
    execution_fills = db.execution_fills ++ fill_row lease fill ∷ [];
    event_journal =
        db.event_journal
        ++ record {
          stream_id = str_append "order:" fill.client_order_id;
          event_type = "order.fill.recorded";
          fill = fill;
          fencing_token = lease.fencing_token;
        }
          ∷ [];
  }

  -- From the bound on the sum on.
  unfoldable pub bounded_insert :
      RuntimeLease → ExecutionFill Q → OrderRecord Q → Option Q → Database Q → Outcome Q
  bounded_insert lease fill order none db = (err FillLedgerError.conflict, db)
  bounded_insert lease fill order (some total) db =
      if lt order.requested_quantity total
      then (err FillLedgerError.conflict, db)
      else if any (has_key fill) db.execution_fills
      then (err FillLedgerError.conflict, db)
      else (ok FillInsertOutcome.inserted, record_fill lease fill db)

  -- `checked_add` of the new fill to the sum of the earlier ones.
  abbrev pub with_fill : Option Q → ExecutionFill Q → Option Q
  with_fill none fill = none
  with_fill (some total) fill = d.checked_add total fill.quantity

  -- From the search for the same trade on.
  unfoldable pub insert_or_match :
      RuntimeLease → ExecutionFill Q → OrderRecord Q → Option (FillRow Q) → Database Q → Outcome Q
  insert_or_match lease fill order (some previous) db =
      if fill_beq previous.fill_data fill
      then (ok FillInsertOutcome.duplicate, db)
      else (err FillLedgerError.conflict, db)
  insert_or_match lease fill order none db =
      bounded_insert lease fill order (with_fill (total_fills fill db.execution_fills d.zero) fill)
        db

  -- From the search for the order on.
  unfoldable pub insert_for :
      RuntimeLease → ExecutionFill Q → Option (OrderRecord Q) → Database Q → Outcome Q
  insert_for lease fill none db = (err FillLedgerError.unowned, db)
  insert_for lease fill (some order) db =
      if not (belongs_to fill order)
      then (err FillLedgerError.conflict, db)
      else insert_or_match lease fill order (select (has_key fill) db.execution_fills) db

  abbrev pub insert_valid :
      RuntimeLease
      → ℤ
      → ExecutionFill Q
      → Result (Unit {0}) FillLedgerError
      → Database Q
      → Outcome Q
  insert_valid lease now fill (err e) db = (err e, db)
  insert_valid lease now fill (ok _) db =
      if not (holds_lease lease now db)
      then (err FillLedgerError.fencing_lost, db)
      else insert_for lease fill (select (of_client fill.client_order_id) db.order_records) db

  unfoldable pub insert_execution_fill : RuntimeLease → ℤ → ExecutionFill Q → Database Q → Outcome Q
  insert_execution_fill lease now fill db = insert_valid lease now fill (validate fill) db

  -- The sum of the stored fills of a client id; `none` is `Conflict`.
  unfoldable pub recorded : String → List (FillRow Q) → Q → Option Q
  recorded client_order_id [] quantity = some quantity
  recorded client_order_id (row ∷ rows) quantity = elim (row.client_order_id == client_order_id) [
    | false ↦ recorded client_order_id rows quantity
    | true ↦ elim (d.checked_add quantity row.fill_data.quantity) [
      | none ↦ none
      | some sum ↦ recorded client_order_id rows sum
    ]
  ]

  unfoldable pub recorded_fill_quantity :
      RuntimeLease → ℤ → String → Database Q → Result Q FillLedgerError
  recorded_fill_quantity lease now client_order_id db =
      if not (holds_lease lease now db)
      then err FillLedgerError.fencing_lost
      else elim (recorded client_order_id db.execution_fills d.zero) [
        | none ↦ err FillLedgerError.conflict
        | some quantity ↦ ok quantity
      ]
