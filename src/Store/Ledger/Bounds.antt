-- ===== src/Store/Ledger/Bounds.antt =====
-- The stored fills of an order never exceed what it asked for.
use mathlib.Core.Path.{subst}
use pg_tsy_core_bootstrap.Prelude.{
  arith, ℤ, String, true, false, Option, none, some, List, [], ◌∷◌, ◌≡◌, refl, ◌∙◌, ◌⊎◌, inl, inr,
  ◌==◌, string_eq, ==_refl, Bool-cases, eq_of_==,
}
use pg_tsy_core_bootstrap.Decimal.{Decimal, ◌≼◌}
use pg_tsy_core_bootstrap.Oms.{OrderRecord}
use pg_tsy_core_bootstrap.Orchestrator.Defs.{RuntimeLease}
use pg_tsy_core_bootstrap.Store.Fills.{ExecutionFill}
use pg_tsy_core_bootstrap.Store.Ledger.{
  Database, select, of_client, total_fills, with_fill, fill_row, record_fill, insert_execution_fill,
  recorded,
}
use pg_tsy_core_bootstrap.Store.Ledger.Growth.{
  Grown, insert-Grown, recorded-append, recorded_of_total,
}

module _ {Q : Type 0} ⦃d : Decimal Q⦄ where
  -- The stored fills of a client id sum, exactly in order, to at most the quantity of its order.
  abbrev pub IsWithin : Database Q → String → OrderRecord Q → Type 0
  IsWithin db client order =
      (recorded client db.execution_fills d.zero ≡ some d.zero)
      ⊎ ((total : Q) × (recorded client db.execution_fills d.zero ≡ some total)
          × (total ≼ order.requested_quantity))

  -- Every order of the database.
  abbrev pub IsBounded : Database Q → Type 0
  IsBounded db =
      (client : String) (order : OrderRecord Q)
      → select (of_client client) db.order_records ≡ some order
      → IsWithin db client order

  earlier_sum :
      (fill : ExecutionFill Q) (sums : Option Q) (sum : Q)
      → with_fill sums fill ≡ some sum
      → (total : Q) × (sums ≡ some total) × (d.checked_add total fill.quantity ≡ some sum)
  earlier_sum fill none sum made = ground (arith, made)
  earlier_sum fill (some total) sum made = (total, refl, made)

  own-IsWithin :
      (lease : RuntimeLease) (fill : ExecutionFill Q) (order : OrderRecord Q) (sum : Q)
      (db : Database Q)
      → with_fill (total_fills fill db.execution_fills d.zero) fill ≡ some sum
      → sum ≼ order.requested_quantity
      → IsWithin (record_fill lease fill db) fill.client_order_id order
  unfolding record_fill
  own-IsWithin lease fill order sum db made bound =
      let (total, earlier, last) =
        earlier_sum fill (total_fills fill db.execution_fills d.zero) sum made in
      let sums = recorded_of_total fill db.execution_fills d.zero total earlier in
      inr (
        sum,
        recorded-append fill.client_order_id db.execution_fills (fill_row lease fill) d.zero total
              sums
            ∙ rw (==_refl fill.client_order_id) last,
        bound,
      )

  other-IsWithin :
      (lease : RuntimeLease) (fill : ExecutionFill Q) (db : Database Q) (client : String)
      (order : OrderRecord Q)
      → (fill.client_order_id == client) ≡ false
      → IsWithin db client order
      → IsWithin (record_fill lease fill db) client order
  unfolding record_fill
  other-IsWithin lease fill db client order differs (inl nothing) = inl (
      recorded-append client db.execution_fills (fill_row lease fill) d.zero d.zero nothing
      ∙ rw differs)
  other-IsWithin lease fill db client order differs (inr (total, sums, bound)) = inr (
    total,
    recorded-append client db.execution_fills (fill_row lease fill) d.zero total sums ∙ rw differs,
    bound,
  )

  insert-IsBounded :
      (lease : RuntimeLease) (now : ℤ) (fill : ExecutionFill Q) (db : Database Q)
      → IsBounded db
      → IsBounded (insert_execution_fill lease now fill db).1
  unfolding record_fill
  insert-IsBounded lease now fill db bounded = by_growth (insert-Grown lease now fill db)
    where
      by_client :
          (order : OrderRecord Q) (sum : Q)
          → select (of_client fill.client_order_id) db.order_records ≡ some order
          → with_fill (total_fills fill db.execution_fills d.zero) fill ≡ some sum
          → sum ≼ order.requested_quantity
          → (client : String) (other : OrderRecord Q)
          → select (of_client client) db.order_records ≡ some other
          → ((fill.client_order_id == client) ≡ true) ⊎ ((fill.client_order_id == client) ≡ false)
          → IsWithin (record_fill lease fill db) client other
      by_client order sum owned made bound client other listed (inr differs) =
          other-IsWithin lease fill db client other differs (bounded client other listed)
      by_client order sum owned made bound client other listed (inl same) =
          subst
            (λ c.
              select (of_client c) db.order_records ≡ some other
              → IsWithin (record_fill lease fill db) c other)
            (eq_of_== fill.client_order_id client same)
            (λ owned_by_other.
              own-IsWithin lease fill other sum db made
                (ground (arith, bound, owned, owned_by_other)))
            listed

      by_growth :
          Grown lease fill db (insert_execution_fill lease now fill db).1
          → IsBounded (insert_execution_fill lease now fill db).1
      by_growth (inl kept) = rw kept bounded
      by_growth (inr (order, sum, owned, made, bound, grown)) = rw grown λ client other listed.
          by_client order sum owned made bound client other listed
            (Bool-cases (fill.client_order_id == client))

-- A call of `insert_execution_fill`: under which lease, when, of which fill.
pub record Insertion (Q : Type 0) : Type 0 where
  pub lease : RuntimeLease
  pub now : ℤ
  pub fill : ExecutionFill Q

module _ {Q : Type 0} ⦃d : Decimal Q⦄ where
  unfoldable pub insert_all : List (Insertion Q) → Database Q → Database Q
  insert_all [] db = db
  insert_all (call ∷ insertions) db =
      insert_all insertions (insert_execution_fill call.lease call.now call.fill db).1

  insert_all-IsBounded_of :
      (insertions : List (Insertion Q)) (db : Database Q)
      → IsBounded db
      → IsBounded (insert_all insertions db)
  unfolding insert_all
  insert_all-IsBounded_of [] db bounded = bounded
  insert_all-IsBounded_of (call ∷ insertions) db bounded =
      insert_all-IsBounded_of insertions (insert_execution_fill call.lease call.now call.fill db).1
        (insert-IsBounded call.lease call.now call.fill db bounded)

  -- Whatever fills are sent to the ledger, under any leases, valid or not, repeated or not, beginning
  -- with no stored fill: the stored fills of a client id that has an order sum, without an overflow,
  -- to zero or to at most the quantity that the order asked for.
  pub insert_all-IsBounded :
      (insertions : List (Insertion Q)) (db : Database Q)
      → db.execution_fills ≡ []
      → IsBounded (insert_all insertions db)
  unfolding recorded
  insert_all-IsBounded insertions db empty =
      insert_all-IsBounded_of insertions db λ client order listed. inl (ground (arith, empty))
