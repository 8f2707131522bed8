-- ===== src/Reconcile/Issues.antt =====
-- The issues that two books should give rise to, by one function for each item, without a report.
use pg_tsy_core_bootstrap.Prelude.{
  String, Bool, true, false, not, ◌&&◌, Option, none, some, List, [], ◌∷◌, ◌++◌, ◌==◌, ◌!=◌,
  string_eq, option_eq, if◌then◌else◌, any, is_some_and,
}
use pg_tsy_core_bootstrap.Decimal.{Decimal, same, is_zero}
use pg_tsy_core_bootstrap.Types.{Venue, venue_eq}
use pg_tsy_core_bootstrap.Oms.{OrderRecord}
use pg_tsy_core_bootstrap.Execution.{VenueOrderSnapshot}
use pg_tsy_core_bootstrap.Reconcile.Defs.{is_unowned, VenuePosition, position_key, ReconcileIssue}
use pg_tsy_core_bootstrap.Reconcile.Compare.{local_key, contract_differs, is_unresolved, is_live}

abbrev pub concat_map {ℓ κ} : {A : Type ℓ} {B : Type κ} → (A → List B) → List A → List B
concat_map f [] = []
concat_map f (x ∷ xs) = f x ++ concat_map f xs

-- One item where a test holds.
abbrev pub when {ℓ} : {A : Type ℓ} → Bool → A → List A
when true a = a ∷ []
when false a = []

abbrev pub later {ℓ} : {A : Type ℓ} → Option A → Option A → Option A
later none earlier = earlier
later (some last) earlier = some last

module _ {Q : Type 0} where
  -- The last order of a list with a client id.
  unfoldable pub last_with_client :
      String → List (VenueOrderSnapshot Q) → Option (VenueOrderSnapshot Q)
  last_with_client k [] = none
  last_with_client k (o ∷ os) =
      later (last_with_client k os) (if o.client_order_id == some k then some o else none)

  -- Is there a local order at the venue with the client id?
  abbrev pub has_local : Venue → List (OrderRecord Q) → String → Bool
  has_local venue locals k = any (λ l. l.venue == venue && l.client_order_id == k) locals

  abbrev pub remote_issues :
      Venue → List (OrderRecord Q) → VenueOrderSnapshot Q → List (ReconcileIssue Q)
  remote_issues venue locals remote =
      when (not (is_some_and remote.client_order_id (has_local venue locals))) (
        ReconcileIssue.venue_order_missing_locally (record { venue = venue; asset = remote.asset })
          remote.client_order_id remote.venue_order_id)

module _ {Q : Type 0} where
  abbrev pub fills_issue : OrderRecord Q → VenueOrderSnapshot Q → ReconcileIssue Q
  fills_issue local remote =
      ReconcileIssue.filled_quantity_mismatch (local_key local) local.client_order_id
        local.filled_quantity remote.filled_quantity

  abbrev pub state_issue : OrderRecord Q → ReconcileIssue Q
  state_issue local = ReconcileIssue.unresolved_order_state (local_key local) local.client_order_id

  abbrev pub contract_issue : OrderRecord Q → VenueOrderSnapshot Q → ReconcileIssue Q
  contract_issue local remote =
      ReconcileIssue.order_contract_mismatch (local_key local) local.client_order_id remote.asset

  -- The issue that names the asset of the venue's order.
  abbrev pub foreign_issue : Venue → OrderRecord Q → VenueOrderSnapshot Q → ReconcileIssue Q
  foreign_issue venue local remote =
      ReconcileIssue.order_contract_mismatch (record { venue = venue; asset = remote.asset })
        local.client_order_id remote.asset

module _ {Q : Type 0} ⦃d : Decimal Q⦄ where
  abbrev pub position_issues : Venue → VenuePosition Q → List (ReconcileIssue Q)
  position_issues venue p =
      when (p.venue == venue && (is_unowned p.ownership && not (is_zero p.quantity)))
        (ReconcileIssue.unknown_position_ownership (position_key p) p.quantity)

  abbrev pub matched_issues :
      Venue → OrderRecord Q → Option (VenueOrderSnapshot Q) → List (ReconcileIssue Q)
  matched_issues venue local none =
      ReconcileIssue.local_order_missing_at_venue (local_key local) local.client_order_id
        local.state
      ∷ []
  matched_issues venue local (some remote) =
      when (not (same remote.filled_quantity local.filled_quantity)) (fills_issue local remote)
      ++ (when (is_unresolved local remote) (state_issue local)
          ++ (when (contract_differs local remote) (contract_issue local remote)
              ++ when (contract_differs local remote && remote.asset != local.asset)
                  (foreign_issue venue local remote)))

  abbrev pub local_issues :
      Venue → List (VenueOrderSnapshot Q) → OrderRecord Q → List (ReconcileIssue Q)
  local_issues venue remotes local =
      if is_live venue local
      then matched_issues venue local (last_with_client local.client_order_id remotes)
      else []

  abbrev pub all_issues :
      Venue
      → List (OrderRecord Q)
      → List (VenueOrderSnapshot Q)
      → List (VenuePosition Q)
      → List (ReconcileIssue Q)
  all_issues venue locals remotes positions =
      concat_map (position_issues venue) positions
      ++ (concat_map (local_issues venue remotes) locals
          ++ concat_map (remote_issues venue locals) remotes)
