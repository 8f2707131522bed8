-- ===== src/Policy/Decisions.antt =====
-- What the decisions of a rule graph rest on.
use pg_tsy_core_bootstrap.Prelude.{
  arith, String, Bool, true, false, not, ◌&&◌, Option, none, some, List, [], ◌∷◌, all, any, ◌≡◌,
  refl, ◌==◌, ==_refl, string_eq, string_ord, sym, ◌∙◌, if_paths, not-false, get, if◌then◌else◌,
}
use pg_tsy_core_bootstrap.Float.{Float}
use pg_tsy_core_bootstrap.Types.{side_eq}
use pg_tsy_core_bootstrap.Policy.{
  Conversions, ComparisonOp, Predicate, PositionView, MatchMode, StrategyContext, DeclarativeFilter,
  DeclarativeEntryRule, PolicyDefinition, EntryPolicyDecision, position_value, feature_value,
  evaluate, evaluate_each, evaluate_predicates, first_entry, filtered, evaluate_entry, is_nil,
}

not-true : (b : Bool) → not b ≡ true → b ≡ false
not-true b h = ground arith

abbrev pub is_cons {ℓ} : {A : Type ℓ} → List A → Bool
is_cons [] = false
is_cons (_ ∷ _) = true

-- The value under a name in a list of named values.
abbrev pub value_of : {F : Type 0} → String → List (String × Option F) → Option F
value_of name [] = none
value_of name ((other, value) ∷ rest) = if name == other then value else value_of name rest

abbrev pub has_value : {F : Type 0} → Option F → Bool
has_value none = false
has_value (some _) = true

module _ {F : Type 0} ⦃f : Float F⦄ where
  -- The comparisons of a value with a threshold: above, not below, below, not above.
  abbrev pub meets : ComparisonOp → F → Option F → Bool
  meets _ threshold none = false
  meets ComparisonOp.gt threshold (some value) = f.lt threshold value
  meets ComparisonOp.gte threshold (some value) = f.le threshold value
  meets ComparisonOp.lt threshold (some value) = f.lt value threshold
  meets ComparisonOp.lte threshold (some value) = f.le value threshold

module _ {Q F : Type 0} ⦃c : Conversions Q F⦄ where
  abbrev pub average_price : PositionView Q F → Option F
  average_price position = elim position.average_entry_price [
    | some price ↦ c.to_f64 price
    | none ↦ none
  ]

  -- The names by which a rule may refer to the position, with their values.
  abbrev pub position_names : PositionView Q F → List (String × Option F)
  position_names position =
      ("net_quantity", c.to_f64 position.net_quantity)
      ∷ ("position.net_quantity", c.to_f64 position.net_quantity)
      ∷ ("average_entry_price", average_price position)
      ∷ ("position.average_entry_price", average_price position)
      ∷ ("filled_entries", some (c.count_as_f64 position.filled_entries))
      ∷ ("position.filled_entries", some (c.count_as_f64 position.filled_entries))
      ∷ ("unrealized_return", position.unrealized_return)
      ∷ ("position.unrealized_return", position.unrealized_return)
      ∷ ("peak_return", position.peak_return)
      ∷ ("position.peak_return", position.peak_return)
      ∷ []

  -- What a feature is worth: its value in the frame, else that of the position under this name.
  abbrev pub worth : StrategyContext Q F → String → Option F
  worth context name = elim (get name context.features) [
    | some value ↦ some value
    | none ↦ value_of name (position_names context.position)
  ]

  position_value-value_of :
      (position : PositionView Q F) (name : String)
      → position_value position name ≡ value_of name (position_names position)
  unfolding position_value
  position_value-value_of position name = ground arith

  feature_value-worth :
      (context : StrategyContext Q F) (name : String)
      → feature_value context name ≡ worth context name
  unfolding feature_value
  feature_value-worth context name = ground (arith, position_value-value_of context.position name)

module _ {Q F : Type 0} ⦃c : Conversions Q F⦄ ⦃f : Float F⦄ where
  -- Whether the feature of a predicate has a value, and whether that value meets the threshold.
  abbrev pub is_known : StrategyContext Q F → Predicate F → Bool
  is_known context p = has_value (worth context p.feature)

  abbrev pub is_met : StrategyContext Q F → Predicate F → Bool
  is_met context p = meets p.op p.value (worth context p.feature)

  -- A rule holds: it has predicates, every feature they name has a value, and all of them, or with
  -- the other mode at least one, are met.
  abbrev pub rule_holds : StrategyContext Q F → MatchMode → List (Predicate F) → Bool
  rule_holds context MatchMode.every predicates =
      is_cons predicates && all (is_known context) predicates && all (is_met context) predicates
  rule_holds context MatchMode.some_of predicates =
      is_cons predicates && all (is_known context) predicates && any (is_met context) predicates

  -- What the code's evaluation of a predicate is, in these words.
  evaluate-is_met :
      (context : StrategyContext Q F) (p : Predicate F)
      → evaluate context p ≡ (if is_known context p then some (is_met context p) else none)
  unfolding evaluate
  evaluate-is_met context p = ground (arith, feature_value-worth context p.feature)

  each_known :
      (context : StrategyContext Q F) (predicates : List (Predicate F))
      → is_nil (evaluate_each context predicates).1 ≡ all (is_known context) predicates
  unfolding evaluate_each
  each_known context [] = refl
  each_known context (p ∷ predicates) =
      ground (arith, evaluate-is_met context p, each_known context predicates)

  each_every :
      (context : StrategyContext Q F) (predicates : List (Predicate F))
      → (is_nil (evaluate_each context predicates).1
          && all (λ value. value) (evaluate_each context predicates).0)
        ≡ (all (is_known context) predicates && all (is_met context) predicates)
  unfolding evaluate_each
  each_every context [] = refl
  each_every context (p ∷ predicates) =
      ground (arith, evaluate-is_met context p, each_every context predicates)

  each_some :
      (context : StrategyContext Q F) (predicates : List (Predicate F))
      → (is_nil (evaluate_each context predicates).1
          && any (λ value. value) (evaluate_each context predicates).0)
        ≡ (all (is_known context) predicates && any (is_met context) predicates)
  unfolding evaluate_each
  each_some context [] = refl
  each_some context (p ∷ predicates) = ground (
    arith,
    evaluate-is_met context p,
    each_known context predicates,
    each_some context predicates,
  )

  -- The evaluation of a rule is a match exactly when the rule has predicates, every feature that they
  -- name has a value, which is that of the frame or else that of the position under this name, and
  -- these values meet all the thresholds of the predicates, or in the other mode at least one of
  -- them. So a missing feature and an empty rule never match.
  pub evaluate_predicates-holds :
      (context : StrategyContext Q F) (mode : MatchMode) (predicates : List (Predicate F))
      → (evaluate_predicates context mode predicates).matched ≡ rule_holds context mode predicates
  unfolding evaluate_predicates
  evaluate_predicates-holds context MatchMode.every [] = refl
  evaluate_predicates-holds context MatchMode.some_of [] = refl
  evaluate_predicates-holds context MatchMode.every (p ∷ predicates) =
      each_every context (p ∷ predicates)
  evaluate_predicates-holds context MatchMode.some_of (p ∷ predicates) =
      each_some context (p ∷ predicates)

module _ {Q F : Type 0} ⦃c : Conversions Q F⦄ ⦃f : Float F⦄ (context : StrategyContext Q F) where
  abbrev pub filter_holds : DeclarativeFilter F → Bool
  filter_holds filter = rule_holds context filter.mode filter.predicates

  abbrev pub entry_holds : DeclarativeEntryRule F → Bool
  entry_holds rule = rule_holds context rule.mode rule.predicates

  -- What a decision on an entry says of the filters and of the entry rules.
  abbrev pub Justified :
      List (DeclarativeFilter F) → List (DeclarativeEntryRule F) → EntryPolicyDecision → Type 0
  Justified filters entries EntryPolicyDecision.no_match =
      (all filter_holds filters ≡ true) × (any entry_holds entries ≡ false)
  Justified filters entries (EntryPolicyDecision.blocked id missing) =
      any (λ filter. not (filter_holds filter) && filter.id == id) filters ≡ true
  Justified filters entries (EntryPolicyDecision.matched id side) =
      (all filter_holds filters ≡ true)
      × (any (λ rule. entry_holds rule && rule.id == id && rule.side == side) entries ≡ true)

  -- A rule that does not hold changes no decision, nor does a filter that holds.
  after_entry :
      (rule : DeclarativeEntryRule F) (rules : List (DeclarativeEntryRule F))
      (decision : EntryPolicyDecision)
      → entry_holds rule ≡ false
      → Justified [] rules decision
      → Justified [] (rule ∷ rules) decision
  after_entry rule rules EntryPolicyDecision.no_match fails h = (refl, rw fails h.1)
  after_entry rule rules (EntryPolicyDecision.blocked id missing) fails h = h
  after_entry rule rules (EntryPolicyDecision.matched id side) fails h = (refl, rw fails h.1)

  after_filter :
      (filter : DeclarativeFilter F) (filters : List (DeclarativeFilter F))
      (entries : List (DeclarativeEntryRule F)) (decision : EntryPolicyDecision)
      → filter_holds filter ≡ true
      → Justified filters entries decision
      → Justified (filter ∷ filters) entries decision
  after_filter filter filters entries EntryPolicyDecision.no_match passes h = (rw passes h.0, h.1)
  after_filter filter filters entries (EntryPolicyDecision.blocked id missing) passes h =
      rw passes h
  after_filter filter filters entries (EntryPolicyDecision.matched id side) passes h =
      (rw passes h.0, h.1)

  first_entry-Justified :
      (entries : List (DeclarativeEntryRule F)) → Justified [] entries (first_entry context entries)
  unfolding first_entry
  first_entry-Justified [] = (refl, refl)
  first_entry-Justified (rule ∷ rules) =
      let result = evaluate_predicates context rule.mode rule.predicates in
      let known = evaluate_predicates-holds context rule.mode rule.predicates in
      if_paths (Justified [] (rule ∷ rules)) result.matched
        (EntryPolicyDecision.matched rule.id rule.side) (first_entry context rules)
        (λ matches. (refl, rw (sym known ∙ matches, ==_refl rule.id, ==_refl rule.side)))
        λ fails.
          after_entry rule rules (first_entry context rules) (sym known ∙ fails)
            (first_entry-Justified rules)

  filtered-Justified :
      (filters : List (DeclarativeFilter F)) (entries : List (DeclarativeEntryRule F))
      → Justified filters entries (filtered context filters entries)
  unfolding filtered
  filtered-Justified [] entries = first_entry-Justified entries
  filtered-Justified (filter ∷ filters) entries =
      let result = evaluate_predicates context filter.mode filter.predicates in
      let known = evaluate_predicates-holds context filter.mode filter.predicates in
      if_paths (Justified (filter ∷ filters) entries) (not result.matched)
        (EntryPolicyDecision.blocked filter.id result.missing_features)
        (filtered context filters entries)
        (λ fails. rw (sym known ∙ not-true result.matched fails, ==_refl filter.id))
        λ passes.
          after_filter filter filters entries (filtered context filters entries)
            (sym known ∙ not-false result.matched passes) (filtered-Justified filters entries)

  -- A match means that every filter holds and that an entry rule of that id and side holds; no match,
  -- that every filter and no entry rule holds; a block, that a filter of that id does not hold. To
  -- hold is to have predicates, a value for every feature that they name, from the frame or else from
  -- the position, and to have all thresholds, or in the other mode at least one, met by these values.
  pub evaluate_entry-Justified :
      (self : PolicyDefinition F)
      → Justified self.filters self.entries (evaluate_entry self context)
  unfolding evaluate_entry
  evaluate_entry-Justified self = filtered-Justified self.filters self.entries
