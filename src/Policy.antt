-- ===== src/Policy.antt =====
-- rust/crates/pg-strategy/src/policy: the rule graph of a strategy. `f64` is a type `F`; what turns a
-- decimal and a count into it is the record `Conversions`.
pub mod Decisions
pub mod Validation
mod Examples
use Prim.Native.String.{◌++◌ as str_append}
use pg_tsy_core_bootstrap.Prelude.{
  ℕ, String, Bool, true, false, not, ◌&&◌, ◌||◌, Option, none, some, Result, ok, err, List, [], ◌∷◌,
  ◌++◌, BTreeMap, get, insert, Option-cases, all, any, map, ◌==◌, string_eq, string_ord,
  if◌then◌else◌, is_blank,
}
use pg_tsy_core_bootstrap.Float.{Float}
use pg_tsy_core_bootstrap.Types.{AssetKey, Side}

pub record Conversions (Q F : Type 0) : Type 0 where
  pub to_f64 : Q → Option F
  pub count_as_f64 : ℕ → F

abbrev pub FeatureFrame : Type 0 → Type 0
FeatureFrame F = BTreeMap String F

pub data ComparisonOp : Type 0 where
  gt gte lt lte : ComparisonOp

pub record Predicate (F : Type 0) : Type 0 where
  pub feature : String
  pub op : ComparisonOp
  pub value : F

-- `All` and `Any`, which are the names of list functions here.
pub data MatchMode : Type 0 where
  every some_of : MatchMode

pub record RuleEvaluation : Type 0 where
  pub matched : Bool
  pub missing_features : List String

pub record PositionView (Q F : Type 0) : Type 0 where
  pub net_quantity : Q
  pub average_entry_price : Option Q
  pub filled_entries : ℕ
  pub unrealized_return : Option F
  pub peak_return : Option F

pub record StrategyContext (Q F : Type 0) : Type 0 where
  pub instrument : AssetKey
  pub features : FeatureFrame F
  pub position : PositionView Q F
  pub now_ns : ℕ

pub record DeclarativeFilter (F : Type 0) : Type 0 where
  pub id : String
  pub mode : MatchMode
  pub predicates : List (Predicate F)

pub record DeclarativeEntryRule (F : Type 0) : Type 0 where
  pub id : String
  pub side : Side
  pub mode : MatchMode
  pub predicates : List (Predicate F)

pub record DeclarativeExitRule (F : Type 0) : Type 0 where
  pub id : String
  pub mode : MatchMode
  pub predicates : List (Predicate F)

pub record PolicyDefinition (F : Type 0) : Type 0 where
  pub filters : List (DeclarativeFilter F)
  pub entries : List (DeclarativeEntryRule F)
  pub exits : List (DeclarativeExitRule F)

pub data EntryPolicyDecision : Type 0 where
  no_match : EntryPolicyDecision
  blocked : String → List String → EntryPolicyDecision
  matched : String → Side → EntryPolicyDecision

pub data ExitPolicyDecision : Type 0 where
  no_match : ExitPolicyDecision
  matched : String → ExitPolicyDecision

abbrev pub by_mode : MatchMode → List Bool → Bool
by_mode MatchMode.every results = all (λ value. value) results
by_mode MatchMode.some_of results = any (λ value. value) results

abbrev pub is_nil : List String → Bool
is_nil [] = true
is_nil (_ ∷ _) = false

module _ {F : Type 0} ⦃f : Float F⦄ where
  -- `FeatureFrame::insert`.
  unfoldable pub insert_feature : String → F → FeatureFrame F → FeatureFrame F
  insert_feature name value self = if f.is_finite value then insert name value self else self

  abbrev pub compare_f64 : ComparisonOp → F → F → Bool
  compare_f64 ComparisonOp.gt actual value = f.lt value actual
  compare_f64 ComparisonOp.gte actual value = f.le value actual
  compare_f64 ComparisonOp.lt actual value = f.lt actual value
  compare_f64 ComparisonOp.lte actual value = f.le actual value

module _ {Q F : Type 0} ⦃c : Conversions Q F⦄ where
  abbrev price_as_f64 : Option Q → Option F
  price_as_f64 none = none
  price_as_f64 (some value) = c.to_f64 value

  -- The match on the name of a feature that the frame lacks.
  unfoldable pub position_value : PositionView Q F → String → Option F
  position_value position name =
      if name == "net_quantity" || name == "position.net_quantity"
      then c.to_f64 position.net_quantity
      else if name == "average_entry_price" || name == "position.average_entry_price"
      then price_as_f64 position.average_entry_price
      else if name == "filled_entries" || name == "position.filled_entries"
      then some (c.count_as_f64 position.filled_entries)
      else if name == "unrealized_return" || name == "position.unrealized_return"
      then position.unrealized_return
      else if name == "peak_return" || name == "position.peak_return"
      then position.peak_return
      else none

  unfoldable pub feature_value : StrategyContext Q F → String → Option F
  feature_value self name = elim (get name self.features) [
    | some value ↦ some value
    | none ↦ position_value self.position name
  ]

module _ {Q F : Type 0} ⦃c : Conversions Q F⦄ ⦃f : Float F⦄ where
  -- `Predicate::evaluate`.
  unfoldable pub evaluate : StrategyContext Q F → Predicate F → Option Bool
  evaluate context self = elim (feature_value context self.feature) [
    | none ↦ none
    | some actual ↦ some (compare_f64 self.op actual self.value)
  ]

  -- The loop: the results, and the features that are missing.
  unfoldable pub evaluate_each : StrategyContext Q F → List (Predicate F) → List Bool × List String
  evaluate_each context [] = ([], [])
  evaluate_each context (predicate ∷ predicates) =
      let (results, missing_features) = evaluate_each context predicates in
      elim (evaluate context predicate) [
        | some value ↦ (value ∷ results, missing_features)
        | none ↦ (results, predicate.feature ∷ missing_features)
      ]

  unfoldable pub evaluate_predicates :
      StrategyContext Q F → MatchMode → List (Predicate F) → RuleEvaluation
  evaluate_predicates context mode [] = record { matched = false; missing_features = [] }
  evaluate_predicates context mode (predicate ∷ predicates) =
      let (results, missing_features) = evaluate_each context (predicate ∷ predicates) in
      record {
        matched = is_nil missing_features && by_mode mode results;
        missing_features = missing_features;
      }

  -- The loop over the entries, after the filters.
  unfoldable pub first_entry :
      StrategyContext Q F → List (DeclarativeEntryRule F) → EntryPolicyDecision
  first_entry context [] = EntryPolicyDecision.no_match
  first_entry context (rule ∷ rules) =
      let rest = first_entry context rules in
      if (evaluate_predicates context rule.mode rule.predicates).matched
      then EntryPolicyDecision.matched rule.id rule.side
      else rest

  -- The loop over the filters.
  unfoldable pub filtered :
      StrategyContext Q F
      → List (DeclarativeFilter F)
      → List (DeclarativeEntryRule F)
      → EntryPolicyDecision
  filtered context [] entries = first_entry context entries
  filtered context (filter ∷ filters) entries =
      let rest = filtered context filters entries in
      let result = evaluate_predicates context filter.mode filter.predicates in
      if not result.matched
      then EntryPolicyDecision.blocked filter.id result.missing_features
      else rest

  unfoldable pub evaluate_entry : PolicyDefinition F → StrategyContext Q F → EntryPolicyDecision
  evaluate_entry self context = filtered context self.filters self.entries

  unfoldable pub first_exit :
      StrategyContext Q F → List (DeclarativeExitRule F) → ExitPolicyDecision
  first_exit context [] = ExitPolicyDecision.no_match
  first_exit context (rule ∷ rules) =
      let rest = first_exit context rules in
      if (evaluate_predicates context rule.mode rule.predicates).matched
      then ExitPolicyDecision.matched rule.id
      else rest

  unfoldable pub evaluate_exit : PolicyDefinition F → StrategyContext Q F → ExitPolicyDecision
  evaluate_exit self context = first_exit context self.exits
