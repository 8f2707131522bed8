-- ===== src/Reconcile/Agreement.antt =====
-- When a report is clean.
use pg_tsy_core_bootstrap.Prelude.{
  String, Bool, true, false, not, ◌&&◌, Option, none, some, List, [], ◌∷◌, ◌++◌, ◌!=◌, string_eq,
  option_eq, is_empty, All, is_some_and, ◌≡◌, ◌≢◌, ◌↔◌, ◌⊎◌, refl, arith, Bool-cases, inl, inr,
}
use pg_tsy_core_bootstrap.Decimal.{Decimal, same, is_zero, ◌≈◌}
use pg_tsy_core_bootstrap.Types.{Venue, venue_eq, asset_key_eq, side_eq}
use pg_tsy_core_bootstrap.Oms.{OrderRecord, OrderState, state_eq}
use pg_tsy_core_bootstrap.Execution.{VenueOrderSnapshot, VenueOrderState}
use pg_tsy_core_bootstrap.Reconcile.Defs.{Ownership, VenuePosition, clean, is_nil}
use pg_tsy_core_bootstrap.Reconcile.Compare.{is_live, is_unresolved, contract_differs, reconcile}
use pg_tsy_core_bootstrap.Reconcile.Issues.{
  fills_issue, state_issue, contract_issue, foreign_issue, concat_map, when, last_with_client,
  has_local, remote_issues, position_issues, matched_issues, local_issues, all_issues,
}
use pg_tsy_core_bootstrap.Reconcile.Report.{reconcile-issues}

when_nil {ℓ} :
    {A : Type ℓ} (a b c e : Bool) (i j k l : A)
    → (when a i ++ (when b j ++ (when c k ++ when e l)) ≡ [])
      ↔ ((a ≡ false) × (b ≡ false) × (c ≡ false) × (e ≡ false))
when_nil a b c e i j k l = ground arith

same_id_iff :
    (local : Option String) (remote : String)
    → (is_some_and local (λ id. id != remote) ≡ false) ↔ ((local ≡ none) ⊎ (local ≡ some remote))
same_id_iff none remote = ground arith
same_id_iff (some id) remote = ground (arith, string_eq.beq_iff id remote)

module _ {Q : Type 0} ⦃d : Decimal Q⦄ where
  -- A local order and the venue's report of it agree.
  pub record Agrees (local : OrderRecord Q) (remote : VenueOrderSnapshot Q) : Type 0 where
    pub fills : remote.filled_quantity ≈ local.filled_quantity
    pub sizes : remote.requested_quantity ≈ local.requested_quantity
    pub assets : remote.asset ≡ local.asset
    pub sides : local.side ≡ some remote.side
    pub local_known : local.state ≢ OrderState.unknown
    pub remote_known : remote.state ≢ VenueOrderState.unknown
    pub identified : is_empty remote.venue_order_id ≡ false
    pub same_identity :
        (local.venue_order_id ≡ none) ⊎ (local.venue_order_id ≡ some remote.venue_order_id)

  contract_iff :
      (local : OrderRecord Q) (remote : VenueOrderSnapshot Q)
      → (contract_differs local remote ≡ false) ↔ (
          (remote.asset ≡ local.asset)
          × (local.side ≡ some remote.side)
          × (remote.requested_quantity ≈ local.requested_quantity)
          × ((local.venue_order_id ≡ none) ⊎ (local.venue_order_id ≡ some remote.venue_order_id))
          × (is_empty remote.venue_order_id ≡ false))
  unfolding contract_differs
  contract_iff local remote = ground (
    arith,
    string_eq.beq_iff remote.asset local.asset,
    same_id_iff local.venue_order_id remote.venue_order_id,
  )

  pub matched_issues_iff :
      (venue : Venue) (local : OrderRecord Q) (remote : VenueOrderSnapshot Q)
      → (matched_issues venue local (some remote) ≡ []) ↔ Agrees local remote
  unfolding is_unresolved
  matched_issues_iff venue local remote = ground (
    arith,
    contract_iff local remote,
    when_nil (not (same remote.filled_quantity local.filled_quantity)) (is_unresolved local remote)
        (contract_differs local remote)
        (contract_differs local remote && remote.asset != local.asset) (fills_issue local remote)
        (state_issue local) (contract_issue local remote) (foreign_issue venue local remote),
  )

  abbrev pub MatchedBy : OrderRecord Q → Option (VenueOrderSnapshot Q) → Type 0
  MatchedBy local none = ⊥
  MatchedBy local (some remote) = Agrees local remote

  -- The books agree: each live local order of the venue with the last venue order that has its
  -- client id, each venue order with a local one, and no open position has an unknown owner.
  pub record IsReconciled (venue : Venue) (locals : List (OrderRecord Q))
      (remotes : List (VenueOrderSnapshot Q)) (positions : List (VenuePosition Q)) : Type 0 where
    pub owned :
        All
          (λ p. p.venue ≡ venue → p.ownership ≡ Ownership.unknown → is_zero p.quantity ≡ true)
          positions
    pub matched :
        All
          (λ local.
            is_live venue local ≡ true
            → MatchedBy local (last_with_client local.client_order_id remotes))
          locals
    pub accounted :
        All (λ remote. is_some_and remote.client_order_id (has_local venue locals) ≡ true) remotes

append_nil_iff {ℓ} : {A : Type ℓ} (xs ys : List A) → (xs ++ ys ≡ []) ↔ ((xs ≡ []) × (ys ≡ []))
append_nil_iff [] ys = ground arith
append_nil_iff (x ∷ xs) ys = ground arith

-- A concatenation is empty where each part is.
concat_map_nil {ℓ κ μ} :
    {A : Type ℓ} {B : Type κ} (f : A → List B) (P : A → Type μ)
    → ((x : A) → (f x ≡ []) ↔ P x)
    → (xs : List A) → (concat_map f xs ≡ []) ↔ All P xs
concat_map_nil f P each [] = (λ _. tt, λ _. refl)
concat_map_nil f P each (x ∷ xs) =
    let (split, join) = append_nil_iff (f x) (concat_map f xs) in
    let (rest, back) = concat_map_nil f P each xs in
    (λ h. ((each x).0 (split h).0, rest (split h).1), λ h. join ((each x).1 h.0, back h.1))

unless_nil {ℓ} : {A : Type ℓ} (b : Bool) (a : A) → (when (not b) a ≡ []) ↔ (b ≡ true)
unless_nil true a = ground arith
unless_nil false a = ground arith

is_nil_iff {ℓ} : {A : Type ℓ} (xs : List A) → (is_nil xs ≡ true) ↔ (xs ≡ [])
is_nil_iff [] = ground arith
is_nil_iff (x ∷ xs) = ground arith

module _ {Q : Type 0} ⦃d : Decimal Q⦄ where
  position_issues_iff :
      (venue : Venue) (p : VenuePosition Q)
      → (position_issues venue p ≡ [])
        ↔ (p.venue ≡ venue → p.ownership ≡ Ownership.unknown → is_zero p.quantity ≡ true)
  position_issues_iff venue p = ground (arith, venue_eq.beq_iff p.venue venue)

  pub MatchedBy-iff :
      (venue : Venue) (local : OrderRecord Q) (o : Option (VenueOrderSnapshot Q))
      → (matched_issues venue local o ≡ []) ↔ MatchedBy local o
  MatchedBy-iff venue local none = ground arith
  MatchedBy-iff venue local (some remote) = matched_issues_iff venue local remote

  local_issues_iff :
      (venue : Venue) (remotes : List (VenueOrderSnapshot Q)) (local : OrderRecord Q)
      → (local_issues venue remotes local ≡ []) ↔ (
          is_live venue local ≡ true
          → MatchedBy local (last_with_client local.client_order_id remotes))
  local_issues_iff venue remotes local =
      let o = last_with_client local.client_order_id remotes in
      let (only, back) = MatchedBy-iff venue local o in
      elim (Bool-cases (is_live venue local)) [
        | inl live ↦ (λ h _. only (rw live at h), λ h. rw live (back (h live)))
        | inr dead ↦ (λ _ live. cc, λ _. rw dead refl)
      ]

  remote_issues_iff :
      (venue : Venue) (locals : List (OrderRecord Q)) (remote : VenueOrderSnapshot Q)
      → (remote_issues venue locals remote ≡ [])
        ↔ (is_some_and remote.client_order_id (has_local venue locals) ≡ true)
  remote_issues_iff venue locals remote = unless_nil _ _

  -- The report of `reconcile` is clean exactly when each live local order of the venue agrees with
  -- the last venue order that has its client id (fills, size, asset, side, identity, and neither is
  -- in an unknown state), each venue order has a local order of the venue with its client id, and no
  -- open position at the venue has an unknown owner.
  pub reconcile-clean_iff :
      (venue : Venue) (locals : List (OrderRecord Q)) (remotes : List (VenueOrderSnapshot Q))
      (positions : List (VenuePosition Q))
      → (clean (reconcile venue locals remotes positions) ≡ true)
        ↔ IsReconciled venue locals remotes positions
  unfolding clean
  reconcile-clean_iff venue locals remotes positions =
      let made = (reconcile-issues venue locals remotes positions venue "").0 in
      let first = concat_map (position_issues venue) positions in
      let second = concat_map (local_issues venue remotes) locals in
      let third = concat_map (remote_issues venue locals) remotes in
      let all_nil = is_nil_iff (all_issues venue locals remotes positions) in
      let split = append_nil_iff first (second ++ third) in
      let split' = append_nil_iff second third in
      let owned = concat_map_nil _ _ (position_issues_iff venue) positions in
      let matched = concat_map_nil _ _ (local_issues_iff venue remotes) locals in
      let accounted = concat_map_nil _ _ (remote_issues_iff venue locals) remotes in
      rw made (
        λ h.
            let none_made = all_nil.0 h in
            let later_nil = split'.0 (split.0 none_made).1 in
            record {
              owned = owned.0 (split.0 none_made).0;
              matched = matched.0 later_nil.0;
              accounted = accounted.0 later_nil.1;
            },
        λ h.
            all_nil.1
              (split.1 (owned.1 h.owned, split'.1 (matched.1 h.matched, accounted.1 h.accounted))),
      )
