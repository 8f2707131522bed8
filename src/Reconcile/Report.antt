-- ===== src/Reconcile/Report.antt =====
-- The report of `reconcile` is made of the issues that the books should give rise to.
use pg_tsy_core_bootstrap.Prelude.{
  String, Bool, true, false, not, ◌||◌, Option, none, some, List, [], ◌∷◌, ◌++◌, ◌==◌, string_eq,
  string_ord, option_eq, if◌then◌else◌, any, is_some, is_some_and, BTreeMap, get, insert,
  get-insert, ◌≡◌, refl, arith, sym, ◌∙◌, ap,
}
use mathlib.Core.List.{append_assoc, append-nil}
use pg_tsy_core_bootstrap.Decimal.{Decimal}
use pg_tsy_core_bootstrap.Types.{Venue, venue_eq, asset_key_eq}
use pg_tsy_core_bootstrap.Types.Keys.{asset_key_ord, same_key_eq}
use pg_tsy_core_bootstrap.Oms.{OrderRecord}
use pg_tsy_core_bootstrap.Execution.{VenueOrderSnapshot}
use pg_tsy_core_bootstrap.Reconcile.Defs.{
  asset_key, VenuePosition, ReconcileIssue, issue_key, ReconcileReport, no_issues, push_issue,
  blocks,
}
use pg_tsy_core_bootstrap.Reconcile.Compare.{
  venue_by_client, local_by_client, add_by_client, is_known, check_remote, check_positions,
  report_contract, compare_orders, check_local, check_locals, is_live, reconcile,
}
use pg_tsy_core_bootstrap.Reconcile.Issues.{
  concat_map, when, later, last_with_client, has_local, remote_issues, position_issues,
  matched_issues, local_issues, all_issues,
}

module _ {Q : Type 0} where
  pub push_all : List (ReconcileIssue Q) → ReconcileReport Q → ReconcileReport Q
  push_all [] r = r
  push_all (i ∷ is) r = push_all is (push_issue r i)

  push_all-append :
      (xs ys : List (ReconcileIssue Q)) (r : ReconcileReport Q)
      → push_all (xs ++ ys) r ≡ push_all ys (push_all xs r)
  unfolding push_all
  push_all-append [] ys r = refl
  push_all-append (x ∷ xs) ys r = push_all-append xs ys (push_issue r x)

  pub issues-push_all :
      (is : List (ReconcileIssue Q)) (r : ReconcileReport Q)
      → (push_all is r).issues ≡ r.issues ++ is
  unfolding push_all push_issue
  issues-push_all [] r = sym (append-nil r.issues)
  issues-push_all (i ∷ is) r =
      issues-push_all is (push_issue r i) ∙ append_assoc r.issues (i ∷ []) is

  blocks-push_issue :
      (r : ReconcileReport Q) (i : ReconcileIssue Q) (venue : Venue) (asset : String)
      → blocks (push_issue r i) venue asset
        ≡ (asset_key venue asset == issue_key i || blocks r venue asset)
  unfolding push_issue blocks
  blocks-push_issue r i venue asset = ground (
    arith,
    get-insert (issue_key i) (asset_key venue asset) tt r.safe_hold_assets,
    same_key_eq (asset_key venue asset) (issue_key i),
  )

  pub blocks-push_all :
      (is : List (ReconcileIssue Q)) (r : ReconcileReport Q) (venue : Venue) (asset : String)
      → blocks (push_all is r) venue asset
        ≡ (any (λ i. asset_key venue asset == issue_key i) is || blocks r venue asset)
  unfolding push_all
  blocks-push_all [] r venue asset = refl
  blocks-push_all (i ∷ is) r venue asset =
      ground
        (arith, blocks-push_all is (push_issue r i) venue asset, blocks-push_issue r i venue asset)

  push_when :
      (b : Bool) (i : ReconcileIssue Q) (r : ReconcileReport Q)
      → (if b then push_issue r i else r) ≡ push_all (when b i) r
  unfolding push_all
  push_when true i r = refl
  push_when false i r = refl

  push_unless :
      (b : Bool) (i : ReconcileIssue Q) (r : ReconcileReport Q)
      → (if b then r else push_issue r i) ≡ push_all (when (not b) i) r
  unfolding push_all
  push_unless true i r = refl
  push_unless false i r = refl

  get-add_by_client :
      (k : String) (o : VenueOrderSnapshot Q) (client : Option String)
      (index : BTreeMap String (VenueOrderSnapshot Q))
      → get k (add_by_client client o index)
        ≡ later (if client == some k then some o else none) (get k index)
  get-add_by_client k o none index = refl
  get-add_by_client k o (some client) index =
      ground
        (arith, get-insert client k o index, string_eq.beq_iff k client, string_eq.beq_iff client k)

  get-venue_by_client :
      (k : String) (os : List (VenueOrderSnapshot Q))
      (index : BTreeMap String (VenueOrderSnapshot Q))
      → get k (venue_by_client os index) ≡ later (last_with_client k os) (get k index)
  unfolding venue_by_client last_with_client
  get-venue_by_client k [] index = refl
  get-venue_by_client k (o ∷ os) index = ground (
    arith,
    get-venue_by_client k os (add_by_client o.client_order_id o index),
    get-add_by_client k o o.client_order_id index,
  )

  get-local_by_client :
      (venue : Venue) (k : String) (ls : List (OrderRecord Q))
      (index : BTreeMap String (OrderRecord Q))
      → is_some (get k (local_by_client venue ls index))
        ≡ (has_local venue ls k || is_some (get k index))
  unfolding local_by_client
  get-local_by_client venue k [] index = refl
  get-local_by_client venue k (l ∷ ls) index = ground (
    arith,
    get-local_by_client venue k ls index,
    get-local_by_client venue k ls (insert l.client_order_id l index),
    get-insert l.client_order_id k l index,
    string_eq.beq_iff k l.client_order_id,
    string_eq.beq_iff l.client_order_id k,
  )

  known_client :
      (venue : Venue) (locals : List (OrderRecord Q)) (client : Option String)
      → is_some_and client (λ k. is_some (get k (local_by_client venue locals [])))
        ≡ is_some_and client (has_local venue locals)
  unfolding get
  known_client venue locals none = refl
  known_client venue locals (some k) = ground (arith, get-local_by_client venue k locals [])

  is_known_lem :
      (venue : Venue) (locals : List (OrderRecord Q)) (remote : VenueOrderSnapshot Q)
      → is_known (local_by_client venue locals []) remote
        ≡ is_some_and remote.client_order_id (has_local venue locals)
  unfolding is_known get
  is_known_lem venue locals remote = known_client venue locals remote.client_order_id

  check_remote_lem :
      (venue : Venue) (locals : List (OrderRecord Q)) (remotes : List (VenueOrderSnapshot Q))
      (r : ReconcileReport Q)
      → check_remote venue (local_by_client venue locals []) remotes r
        ≡ push_all (concat_map (remote_issues venue locals) remotes) r
  unfolding check_remote
  check_remote_lem venue locals [] r = unfold push_all in refl
  check_remote_lem venue locals (remote ∷ remotes) r =
      rw
        (push_all-append (remote_issues venue locals remote)
          (concat_map (remote_issues venue locals) remotes) r)
        (check_remote_lem venue locals remotes _
          ∙ ap (push_all (concat_map (remote_issues venue locals) remotes))
              (rw (is_known_lem venue locals remote) (push_unless _ _ r)))

held_by_none :
    (Q : Type 0) (venue : Venue) (asset : String) (b : Bool)
    → (b || blocks {Q = Q} no_issues venue asset) ≡ b
unfolding blocks get
held_by_none Q venue asset b = ground arith

module _ {Q : Type 0} ⦃d : Decimal Q⦄ where
  check_positions_lem :
      (venue : Venue) (ps : List (VenuePosition Q)) (r : ReconcileReport Q)
      → check_positions venue ps r ≡ push_all (concat_map (position_issues venue) ps) r
  unfolding check_positions
  check_positions_lem venue [] r = unfold push_all in refl
  check_positions_lem venue (p ∷ ps) r =
      rw (push_all-append (position_issues venue p) (concat_map (position_issues venue) ps) r) (
        check_positions_lem venue ps _
        ∙ ap (push_all (concat_map (position_issues venue) ps)) (push_when _ _ r))

  check_local_lem :
      (venue : Venue) (local : OrderRecord Q) (o : Option (VenueOrderSnapshot Q))
      (r : ReconcileReport Q)
      → check_local venue local o r ≡ push_all (matched_issues venue local o) r
  unfolding compare_orders report_contract push_all
  check_local_lem venue local none r = refl
  check_local_lem venue local (some remote) r = ground arith

  live_issues :
      (venue : Venue) (remotes : List (VenueOrderSnapshot Q)) (local : OrderRecord Q)
      (r : ReconcileReport Q)
      → (if is_live venue local
          then check_local venue local (get local.client_order_id (venue_by_client remotes [])) r
          else r)
        ≡ push_all (local_issues venue remotes local) r
  unfolding push_all get
  live_issues venue remotes local r = ground (
    arith,
    check_local_lem venue local (last_with_client local.client_order_id remotes) r,
    get-venue_by_client local.client_order_id remotes [],
  )

  check_locals_lem :
      (venue : Venue) (remotes : List (VenueOrderSnapshot Q)) (locals : List (OrderRecord Q))
      (r : ReconcileReport Q)
      → check_locals venue (venue_by_client remotes []) locals r
        ≡ push_all (concat_map (local_issues venue remotes) locals) r
  unfolding check_locals
  check_locals_lem venue remotes [] r = unfold push_all in refl
  check_locals_lem venue remotes (local ∷ locals) r =
      rw
        (push_all-append (local_issues venue remotes local)
          (concat_map (local_issues venue remotes) locals) r)
        (check_locals_lem venue remotes locals _
          ∙ ap (push_all (concat_map (local_issues venue remotes) locals))
              (live_issues venue remotes local r))

  pub reconcile_lem :
      (venue : Venue) (locals : List (OrderRecord Q)) (remotes : List (VenueOrderSnapshot Q))
      (positions : List (VenuePosition Q))
      → reconcile venue locals remotes positions
        ≡ push_all (all_issues venue locals remotes positions) no_issues
  unfolding reconcile
  reconcile_lem venue locals remotes positions =
      let first = concat_map (position_issues venue) positions in
      let second = concat_map (local_issues venue remotes) locals in
      let third = concat_map (remote_issues venue locals) remotes in
      let before = check_positions venue positions no_issues in
      let between = check_locals venue (venue_by_client remotes []) locals before in
      check_remote_lem venue locals remotes between
      ∙ ap (push_all third) (check_locals_lem venue remotes locals before)
      ∙ ap (λ r. push_all third (push_all second r)) (check_positions_lem venue positions no_issues)
      ∙ sym (push_all-append second third (push_all first no_issues))
      ∙ sym (push_all-append first (second ++ third) no_issues)

  -- The report lists exactly the issues of the positions, then those of the live local orders, each
  -- against the last venue order with its client id, then the venue orders that no local order of
  -- the venue accounts for; and an asset is held exactly when one of these issues names it.
  pub reconcile-issues :
      (venue : Venue) (locals : List (OrderRecord Q)) (remotes : List (VenueOrderSnapshot Q))
      (positions : List (VenuePosition Q)) (at : Venue) (asset : String)
      → let report = reconcile venue locals remotes positions in
        let expected = all_issues venue locals remotes positions in
        (report.issues ≡ expected)
        × (blocks report at asset ≡ any (λ i. asset_key at asset == issue_key i) expected)
  reconcile-issues venue locals remotes positions at asset =
      let expected = all_issues venue locals remotes positions in
      let made = reconcile_lem venue locals remotes positions in
      (
        ap (λ r. r.issues) made ∙ issues-push_all expected no_issues,
        ap (λ r. blocks r at asset) made
            ∙ blocks-push_all expected no_issues at asset
            ∙ held_by_none Q at asset (any (λ i. asset_key at asset == issue_key i) expected),
      )
