-- ===== src/Reconcile/Defs.antt =====
-- The positions, the gates on them, the issues and the report.
use pg_tsy_core_bootstrap.Prelude.{
  String, Bool, true, false, not, ◌&&◌, Option, List, [], ◌∷◌, ◌++◌, ◌==◌, string_eq, option_eq,
  string_ord, BTreeMap, get, insert, is_some, any,
}
use pg_tsy_core_bootstrap.Types.{Venue, venue_eq, AssetKey, side_eq}
use pg_tsy_core_bootstrap.Types.Keys.{asset_key_ord}
use pg_tsy_core_bootstrap.Oms.{OrderState, state_eq}

pub data Ownership : Type 0 where
  strategy : String → Ownership
  manual unknown : Ownership

abbrev pub is_unowned : Ownership → Bool
is_unowned Ownership.unknown = true
is_unowned _ = false

pub record VenuePosition (Q : Type 0) : Type 0 where
  pub venue : Venue
  pub asset : String
  pub quantity : Q
  pub ownership : Ownership

-- `AssetKey::new`.
abbrev pub asset_key : Venue → String → AssetKey
asset_key venue asset = record { venue = venue; asset = asset }

unfoldable pub position_key : {Q : Type 0} → VenuePosition Q → AssetKey
position_key p = record { venue = p.venue; asset = p.asset }

unfoldable pub may_open_new_exposure : {Q : Type 0} → List (VenuePosition Q) → Bool
may_open_new_exposure positions = not (any (λ p. is_unowned p.ownership) positions)

unfoldable pub may_open_new_exposure_for :
    {Q : Type 0} → List (VenuePosition Q) → Venue → String → Bool
may_open_new_exposure_for positions venue asset =
    not (any (λ p. (p.venue == venue && p.asset == asset) && is_unowned p.ownership) positions)

pub data ReconcileIssue (Q : Type 0) : Type 0 where
  unknown_position_ownership : AssetKey → Q → ReconcileIssue Q
  local_order_missing_at_venue : AssetKey → String → OrderState → ReconcileIssue Q
  venue_order_missing_locally : AssetKey → Option String → String → ReconcileIssue Q
  filled_quantity_mismatch : AssetKey → String → Q → Q → ReconcileIssue Q
  unresolved_order_state : AssetKey → String → ReconcileIssue Q
  order_contract_mismatch : AssetKey → String → String → ReconcileIssue Q

-- `ReconcileIssue::key`.
abbrev pub issue_key : {Q : Type 0} → ReconcileIssue Q → AssetKey
issue_key (ReconcileIssue.unknown_position_ownership key _) = key
issue_key (ReconcileIssue.local_order_missing_at_venue key _ _) = key
issue_key (ReconcileIssue.venue_order_missing_locally key _ _) = key
issue_key (ReconcileIssue.filled_quantity_mismatch key _ _ _) = key
issue_key (ReconcileIssue.unresolved_order_state key _) = key
issue_key (ReconcileIssue.order_contract_mismatch key _ _) = key

pub record ReconcileReport (Q : Type 0) : Type 0 where
  pub issues : List (ReconcileIssue Q)
  pub safe_hold_assets : BTreeMap AssetKey (Unit {0})

abbrev pub is_nil {ℓ} : {A : Type ℓ} → List A → Bool
is_nil [] = true
is_nil (_ ∷ _) = false

module _ {Q : Type 0} where
  abbrev pub no_issues : ReconcileReport Q
  no_issues = record { issues = []; safe_hold_assets = [] }

  unfoldable pub clean : ReconcileReport Q → Bool
  clean report = is_nil report.issues

  unfoldable pub blocks : ReconcileReport Q → Venue → String → Bool
  blocks report venue asset =
      is_some (get (record { venue = venue; asset = asset }) report.safe_hold_assets)

  unfoldable pub push_issue : ReconcileReport Q → ReconcileIssue Q → ReconcileReport Q
  push_issue report issue = record {
    issues = report.issues ++ issue ∷ [];
    safe_hold_assets = insert (issue_key issue) tt report.safe_hold_assets;
  }
