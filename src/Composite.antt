-- ===== src/Composite.antt =====
-- rust/crates/pg-execution/src/composite.rs: the adapter that routes by instrument. The map of
-- instruments is a value; the lock around it, which a panic may poison, is not modelled.
pub mod Merge
mod Examples
use Prim.Native.String.{◌++◌ as str_append}
use pg_tsy_core_bootstrap.Prelude.{
  ℕ, String, Bool, true, false, not, ◌&&◌, ◌||◌, Option, none, some, Result, ok, err, List, [], ◌∷◌,
  BTreeMap, Ord, Ordering, ◌≡◌, arith, get, insert, remove, length, map, ◌==◌, string_eq, option_eq,
  string_ord, if◌then◌else◌,
}
use pg_tsy_core_bootstrap.Decimal.{Decimal, same}
use pg_tsy_core_bootstrap.Types.{Venue, venue_name, venue_eq, OrderIntent}
use pg_tsy_core_bootstrap.Execution.{
  ExecutionAdapter, ExecutionError, OrderLocator, VenueOrderAck, VenueOrderSnapshot,
  VenuePositionSnapshot, AccountSnapshot, venue_state_eq,
}

pub record CompositeExecutionAdapter (Q W : Type 0) : Type 0 where
  pub venue : Option Venue
  pub per_asset : BTreeMap String (ExecutionAdapter Q W)

-- `{:?}` of the venue.
abbrev venue_text : Option Venue → String
venue_text none = "None"
venue_text (some venue) = str_append "Some(" (str_append (venue_name venue) ")")

abbrev conflict : String → ExecutionError
conflict key = ExecutionError.unknown (str_append "conflicting composite order snapshots for " key)

abbrev no_child : ExecutionError
no_child = ExecutionError.unsupported "composite has no instrument adapters"

module _ {Q : Type 0} where
  unfoldable pub order_key : VenueOrderSnapshot Q → String
  order_key order = elim order.client_order_id [
    | some client_order_id ↦ client_order_id
    | none ↦ str_append "venue:" order.venue_order_id
  ]

module _ {Q : Type 0} ⦃d : Decimal Q⦄ where
  -- Whether two snapshots of one order agree.
  unfoldable pub agree : VenueOrderSnapshot Q → VenueOrderSnapshot Q → Bool
  agree existing order =
      existing.asset == order.asset
      && same existing.requested_quantity order.requested_quantity
      && same existing.filled_quantity order.filled_quantity
      && existing.state == order.state

  -- The inner loop of `open_orders`, over the orders of one child.
  unfoldable pub merge_orders :
      List (VenueOrderSnapshot Q)
      → BTreeMap String (VenueOrderSnapshot Q)
      → Result (BTreeMap String (VenueOrderSnapshot Q)) ExecutionError
  merge_orders [] unique = ok unique
  merge_orders (order ∷ orders) unique = elim (get (order_key order) unique) [
    | some existing ↦ elim (agree existing order) [
      | true ↦ merge_orders orders unique
      | false ↦ err (conflict (order_key order))
    ]
    | none ↦ merge_orders orders (insert (order_key order) order unique)
  ]

module _ {Q W : Type 0} where
  unfoldable pub new : Venue → CompositeExecutionAdapter Q W
  new venue = record { venue = some venue; per_asset = [] }

  unfoldable pub register_instrument :
      String → ExecutionAdapter Q W → CompositeExecutionAdapter Q W → CompositeExecutionAdapter Q W
  register_instrument asset adapter self = record self {
    per_asset = insert asset adapter self.per_asset;
  }

  unfoldable pub remove_instrument :
      String
      → CompositeExecutionAdapter Q W
      → Option (ExecutionAdapter Q W) × CompositeExecutionAdapter Q W
  remove_instrument asset self =
      (get asset self.per_asset, record self { per_asset = remove asset self.per_asset })

  unfoldable pub assets : CompositeExecutionAdapter Q W → List String
  assets self = map (λ (e : String × ExecutionAdapter Q W). e.0) self.per_asset

  unfoldable pub for_asset :
      String → CompositeExecutionAdapter Q W → Result (ExecutionAdapter Q W) ExecutionError
  for_asset asset self = elim (get asset self.per_asset) [
    | some adapter ↦ ok adapter
    | none ↦ err (
        ExecutionError.unsupported (
          str_append "no execution adapter is registered for asset "
            (str_append asset (str_append " on venue " (venue_text self.venue)))))
  ]

  abbrev pub children : CompositeExecutionAdapter Q W → List (ExecutionAdapter Q W)
  children self = map (λ (e : String × ExecutionAdapter Q W). e.1) self.per_asset

  abbrev submit_with :
      OrderIntent Q
      → Result (ExecutionAdapter Q W) ExecutionError
      → W
      → Result VenueOrderAck ExecutionError × W
  submit_with intent (err e) w = (err e, w)
  submit_with intent (ok adapter) w = adapter.submit intent w

  unfoldable pub submit :
      CompositeExecutionAdapter Q W → OrderIntent Q → W → Result VenueOrderAck ExecutionError × W
  submit self intent w = elim self.venue [
    | none ↦ submit_with intent (for_asset intent.asset self) w
    | some venue ↦
        if not (intent.venue == venue)
        then (
          err (
              ExecutionError.unsupported (
                str_append "composite adapter for " (
                  str_append (venue_name venue)
                    (str_append " received an intent for " (venue_name intent.venue))))),
          w,
        )
        else submit_with intent (for_asset intent.asset self) w
  ]

  abbrev cancel_with :
      OrderLocator
      → Result (ExecutionAdapter Q W) ExecutionError
      → W
      → Result (Unit {0}) ExecutionError × W
  cancel_with order (err e) w = (err e, w)
  cancel_with order (ok adapter) w = adapter.cancel order w

  unfoldable pub cancel :
      CompositeExecutionAdapter Q W → OrderLocator → W → Result (Unit {0}) ExecutionError × W
  cancel self order w = cancel_with order (for_asset order.asset self) w

  abbrev positions_of :
      List (ExecutionAdapter Q W) → W → Result (List (VenuePositionSnapshot Q)) ExecutionError × W
  positions_of [] w = (err no_child, w)
  positions_of (adapter ∷ _) w = adapter.positions w

  unfoldable pub positions :
      CompositeExecutionAdapter Q W → W → Result (List (VenuePositionSnapshot Q)) ExecutionError × W
  positions self w = positions_of (children self) w

  abbrev account_of :
      List (ExecutionAdapter Q W) → W → Result (AccountSnapshot Q) ExecutionError × W
  account_of [] w = (err no_child, w)
  account_of (adapter ∷ _) w = adapter.account_snapshot w

  unfoldable pub account_snapshot :
      CompositeExecutionAdapter Q W → W → Result (AccountSnapshot Q) ExecutionError × W
  account_snapshot self w = account_of (children self) w

  -- The first child that fails or that has the order ends the search.
  unfoldable pub find_in :
      String
      → List (ExecutionAdapter Q W)
      → W
      → Result (Option (VenueOrderSnapshot Q)) ExecutionError × W
  find_in client_order_id [] w = (ok none, w)
  find_in client_order_id (adapter ∷ adapters) w =
      let (found, next) = adapter.find_order_by_client_id client_order_id w in
      elim found [
        | err e ↦ (err e, next)
        | ok result ↦ elim result [
          | some order ↦ (ok (some order), next)
          | none ↦ find_in client_order_id adapters next
        ]
      ]

  unfoldable pub find_order_by_client_id :
      CompositeExecutionAdapter Q W
      → String
      → W
      → Result (Option (VenueOrderSnapshot Q)) ExecutionError × W
  find_order_by_client_id self client_order_id w = find_in client_order_id (children self) w

module _ {Q W : Type 0} ⦃d : Decimal Q⦄ where
  -- The outer loop of `open_orders`.
  unfoldable pub merge_children :
      List (ExecutionAdapter Q W)
      → BTreeMap String (VenueOrderSnapshot Q)
      → W
      → Result (BTreeMap String (VenueOrderSnapshot Q)) ExecutionError × W
  merge_children [] unique w = (ok unique, w)
  merge_children (adapter ∷ adapters) unique w =
      let (listed, next) = adapter.open_orders w in
      elim listed [
        | err e ↦ (err e, next)
        | ok orders ↦ elim (merge_orders orders unique) [
          | err e ↦ (err e, next)
          | ok merged ↦ merge_children adapters merged next
        ]
      ]

  unfoldable pub open_orders :
      CompositeExecutionAdapter Q W → W → Result (List (VenueOrderSnapshot Q)) ExecutionError × W
  open_orders self w =
      let (merged, next) = merge_children (children self) [] w in
      (
        elim merged [
          | err e ↦ err e
          | ok unique ↦ ok (map (λ (e : String × VenueOrderSnapshot Q). e.1) unique)
        ],
        next,
      )
