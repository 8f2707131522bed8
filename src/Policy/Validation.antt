-- ===== src/Policy/Validation.antt =====
-- rust/crates/pg-strategy/src/policy/graph.rs: the validation of a definition and the features it needs.
use Prim.Native.String.{◌++◌ as str_append}
use pg_tsy_core_bootstrap.Prelude.{
  String, Bool, true, false, not, ◌||◌, Option, none, some, Result, ok, ◌>>◌, bail_if, List, [],
  ◌∷◌, ◌++◌, map, BTreeMap, get, insert, string_ord, is_blank, ◌≡◌, arith, same_key_eq, get-insert,
  ◌==◌, string_eq, any,
}
use pg_tsy_core_bootstrap.Float.{Float}
use pg_tsy_core_bootstrap.Policy.{
  Predicate, PolicyDefinition, DeclarativeFilter, DeclarativeEntryRule, DeclarativeExitRule,
}

-- What the loop sees of a rule: its kind, its id and its predicates.
pub record RuleView (F : Type 0) : Type 0 where
  pub kind : String
  pub id : String
  pub predicates : List (Predicate F)

abbrev pub is_present : Option (Unit {0}) → Bool
is_present none = false
is_present (some _) = true

module _ {F : Type 0} where
  -- The three chained iterators.
  abbrev pub rule_views : PolicyDefinition F → List (RuleView F)
  rule_views self =
      map
        (λ (rule : DeclarativeFilter F). record {
          kind = "filter";
          id = rule.id;
          predicates = rule.predicates;
        })
        self.filters
      ++ (map
            (λ (rule : DeclarativeEntryRule F). record {
              kind = "entry";
              id = rule.id;
              predicates = rule.predicates;
            })
            self.entries
          ++ map
              (λ (rule : DeclarativeExitRule F). record {
                kind = "exit";
                id = rule.id;
                predicates = rule.predicates;
              })
              self.exits)

  abbrev has_none : List (Predicate F) → Bool
  has_none [] = true
  has_none (_ ∷ _) = false

  -- The features of a list of predicates, added to a set.
  unfoldable pub add_features :
      List (Predicate F) → BTreeMap String (Unit {0}) → BTreeMap String (Unit {0})
  add_features [] features = features
  add_features (predicate ∷ predicates) features =
      add_features predicates (insert predicate.feature tt features)

  unfoldable pub features_of :
      List (RuleView F) → BTreeMap String (Unit {0}) → BTreeMap String (Unit {0})
  features_of [] features = features
  features_of (rule ∷ rules) features = features_of rules (add_features rule.predicates features)

  unfoldable pub required_features : PolicyDefinition F → BTreeMap String (Unit {0})
  required_features self = features_of (rule_views self) []

  -- `PolicyEngine::is_defined`.
  unfoldable pub is_defined : PolicyDefinition F → Bool
  is_defined self = elim self.entries [
    | _ ∷ _ ↦ true
    | [] ↦ elim self.exits [ _ ∷ _ ↦ true | [] ↦ false ]
  ]

module _ {F : Type 0} ⦃f : Float F⦄ where
  -- The loop over the predicates of a rule.
  unfoldable pub check_predicates : RuleView F → List (Predicate F) → Result (Unit {0}) String
  check_predicates rule [] = ok tt
  check_predicates rule (predicate ∷ predicates) = do
    bail_if (is_blank predicate.feature) (
        str_append rule.kind
          (str_append " rule " (str_append rule.id " has an empty feature name")))
    bail_if (not (f.is_finite predicate.value)) (
        str_append rule.kind (
          str_append " rule " (
            str_append rule.id
              (str_append " predicate " (str_append predicate.feature " has a non-finite value")))))
    check_predicates rule predicates

  -- The loop over the rules, with the ids seen so far.
  unfoldable pub check_rules :
      List (RuleView F) → BTreeMap String (Unit {0}) → Result (Unit {0}) String
  check_rules [] ids = ok tt
  check_rules (rule ∷ rules) ids = do
    bail_if (is_blank rule.id) (str_append rule.kind " rule id must not be empty")
    bail_if (has_none rule.predicates) (
        str_append rule.kind
          (str_append " rule " (str_append rule.id " must have at least one predicate")))
    bail_if (is_present (get rule.id ids)) (str_append "duplicate policy rule id " rule.id)
    check_predicates rule rule.predicates
    check_rules rules (insert rule.id tt ids)

  unfoldable pub validate : PolicyDefinition F → Result (Unit {0}) String
  validate self = check_rules (rule_views self) []

module _ {F : Type 0} where
  get-add_features :
      (name : String) (predicates : List (Predicate F)) (features : BTreeMap String (Unit {0}))
      → is_present (get name (add_features predicates features))
        ≡ (is_present (get name features) || any (λ p. p.feature == name) predicates)
  unfolding add_features
  get-add_features name [] features = ground arith
  get-add_features name (p ∷ predicates) features = ground (
    arith,
    get-add_features name predicates (insert p.feature tt features),
    get-insert p.feature name tt features,
    same_key_eq p.feature name,
  )

  get-features_of :
      (name : String) (rules : List (RuleView F)) (features : BTreeMap String (Unit {0}))
      → is_present (get name (features_of rules features)) ≡ (
          is_present (get name features)
          || any (λ rule. any (λ p. p.feature == name) rule.predicates) rules)
  unfolding features_of
  get-features_of name [] features = ground arith
  get-features_of name (rule ∷ rules) features = ground (
    arith,
    get-features_of name rules (add_features rule.predicates features),
    get-add_features name rule.predicates features,
  )

  -- A feature is required exactly when a predicate of a filter, an entry or an exit names it.
  pub required_features_iff :
      (self : PolicyDefinition F) (name : String)
      → is_present (get name (required_features self))
        ≡ any (λ rule. any (λ p. p.feature == name) rule.predicates) (rule_views self)
  unfolding required_features get
  required_features_iff self name = get-features_of name (rule_views self) []
