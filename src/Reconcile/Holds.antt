-- ===== src/Reconcile/Holds.antt =====
-- What a disagreement blocks.
use pg_tsy_core_bootstrap.Prelude.{
  Bool, true, false, not, ◌&&◌, Option, none, some, List, [], ◌∷◌, ◌++◌, ◌==◌, ◌!=◌, string_eq,
  option_eq, any, any-append, ◌≡◌, arith, Bool-cases, inl, inr,
}
use pg_tsy_core_bootstrap.Decimal.{Decimal, same}
use pg_tsy_core_bootstrap.Types.{Venue, venue_eq, asset_key_eq, side_eq}
use pg_tsy_core_bootstrap.Oms.{OrderRecord, state_eq}
use pg_tsy_core_bootstrap.Execution.{VenueOrderSnapshot}
use pg_tsy_core_bootstrap.Reconcile.Defs.{
  asset_key, VenuePosition, ReconcileIssue, issue_key, blocks,
}
use pg_tsy_core_bootstrap.Reconcile.Compare.{
  is_live, is_unresolved, contract_differs, reconcile, local_key,
}
use pg_tsy_core_bootstrap.Reconcile.Issues.{
  fills_issue, state_issue, contract_issue, foreign_issue, concat_map, when, last_with_client,
  remote_issues, position_issues, matched_issues, local_issues,
}
use pg_tsy_core_bootstrap.Reconcile.Report.{reconcile-issues}
use pg_tsy_core_bootstrap.Reconcile.Agreement.{MatchedBy, matched_issues_iff}

-- Where a test holds of the first three items, it misses the list only if the list is empty.
when_miss {ℓ} :
    {A : Type ℓ} (p : A → Bool) (a b c e : Bool) (i j k l : A)
    → p i ≡ true
    → p j ≡ true
    → p k ≡ true
    → any p (when a i ++ (when b j ++ (when c k ++ when (c && e) l))) ≡ false
    → when a i ++ (when b j ++ (when c k ++ when (c && e) l)) ≡ []
when_miss p a b c e i j k l hi hj hk miss = ground arith

-- A hit in the items of one element is a hit in the whole.
any-concat_map {ℓ κ} :
    {A : Type ℓ} {B : Type κ} (p : B → Bool) (f : A → List B) (before after : List A) (x : A)
    → any p (f x) ≡ true
    → any p (concat_map f (before ++ x ∷ after)) ≡ true
any-concat_map p f [] after x h = ground (arith, any-append p (f x) (concat_map f after))
any-concat_map p f (y ∷ before) after x h = ground (
  arith,
  any-append p (f y) (concat_map f (before ++ x ∷ after)),
  any-concat_map p f before after x h,
)

module _ {Q : Type 0} ⦃d : Decimal Q⦄ where
  live_key :
      (venue : Venue) (local : OrderRecord Q)
      → is_live venue local ≡ true
      → (asset_key venue local.asset == local_key local) ≡ true
  unfolding is_live
  live_key venue local h = ground (arith, string_eq.beq_iff local.asset local.asset)

  matched_hit :
      (venue : Venue) (local : OrderRecord Q) (o : Option (VenueOrderSnapshot Q))
      → (asset_key venue local.asset == local_key local) ≡ true
      → ¬ MatchedBy local o
      → any (λ i. asset_key venue local.asset == issue_key i) (matched_issues venue local o) ≡ true
  matched_hit venue local none named odd = ground arith
  matched_hit venue local (some remote) named odd =
      let issues = matched_issues venue local (some remote) in
      elim (Bool-cases (any (λ i. asset_key venue local.asset == issue_key i) issues)) [
        | inl hit ↦ hit
        | inr miss ↦ absurd (
            odd (
              (matched_issues_iff venue local remote).0 (
                when_miss (λ i. asset_key venue local.asset == issue_key i)
                  (not (same remote.filled_quantity local.filled_quantity))
                  (is_unresolved local remote) (contract_differs local remote)
                  (remote.asset != local.asset) (fills_issue local remote) (state_issue local)
                  (contract_issue local remote) (foreign_issue venue local remote) named named named
                  miss)))
      ]

  -- A live local order that no agreeing venue order stands for blocks its asset at the venue, among
  -- whatever other orders and positions.
  pub reconcile-blocks_local :
      (venue : Venue) (before after : List (OrderRecord Q)) (local : OrderRecord Q)
      (remotes : List (VenueOrderSnapshot Q)) (positions : List (VenuePosition Q))
      → is_live venue local ≡ true
      → ¬ MatchedBy local (last_with_client local.client_order_id remotes)
      → blocks (reconcile venue (before ++ local ∷ after) remotes positions) venue local.asset
        ≡ true
  reconcile-blocks_local venue before after local remotes positions live odd =
      let p : ReconcileIssue Q → Bool = λ i. asset_key venue local.asset == issue_key i in
      let locals = before ++ local ∷ after in
      let o = last_with_client local.client_order_id remotes in
      let first = concat_map (position_issues venue) positions in
      let second = concat_map (local_issues venue remotes) locals in
      let third = concat_map (remote_issues venue locals) remotes in
      let hit = matched_hit venue local o (live_key venue local live) odd in
      let here : any p (local_issues venue remotes local) ≡ true = rw live hit in
      ground (
        arith,
        (reconcile-issues venue locals remotes positions venue local.asset).1,
        any-append p first (second ++ third),
        any-append p second third,
        any-concat_map p (local_issues venue remotes) before after local here,
      )
