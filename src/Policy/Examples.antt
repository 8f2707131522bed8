-- ===== src/Policy/Examples.antt =====
-- A rule graph at a concrete context.
use pg_tsy_core_bootstrap.Prelude.{get}
use pg_tsy_core_bootstrap.Policy.{feature_value}
use pg_tsy_core_bootstrap.Policy.{evaluate}
use pg_tsy_core_bootstrap.Policy.{evaluate_each}
use pg_tsy_core_bootstrap.Policy.{first_entry}
use pg_tsy_core_bootstrap.Policy.{filtered}
use pg_tsy_core_bootstrap.Prelude.{ℤ, pos, none, some, List, [], ◌∷◌, ◌≡◌, refl}
use pg_tsy_core_bootstrap.Samples.{hundredths}
use pg_tsy_core_bootstrap.Types.{Venue, Side}
use pg_tsy_core_bootstrap.Policy.{
  Conversions, Predicate, ComparisonOp, MatchMode, StrategyContext, PolicyDefinition,
  evaluate_predicates, evaluate_entry, EntryPolicyDecision,
}
use pg_tsy_core_bootstrap.Policy.Decisions.{
  rule_holds, Justified, evaluate_predicates-holds, evaluate_entry-Justified,
}

instance abbrev conversions : Conversions ℤ ℤ
conversions = record { to_f64 = λ q. some q; count_as_f64 = λ n. pos n }

abbrev context : StrategyContext ℤ ℤ
context = record {
  instrument = record { venue = Venue.hyperliquid; asset = "HYPE" };
  features = ("momentum_bps", pos 35) ∷ [];
  position = record {
    net_quantity = pos 0;
    average_entry_price = none;
    filled_entries = 0;
    unrealized_return = none;
    peak_return = none;
  };
  now_ns = 1;
}

abbrev strong_momentum : List (Predicate ℤ)
strong_momentum = record { feature = "momentum_bps"; op = ComparisonOp.gte; value = pos 20 } ∷ []

abbrev definition : PolicyDefinition ℤ
definition = record {
  filters = [];
  entries =
      record {
        id = "momentum";
        side = Side.buy;
        mode = MatchMode.every;
        predicates = strong_momentum;
      }
      ∷ [];
  exits = [];
}

entered : evaluate_entry definition context ≡ EntryPolicyDecision.matched "momentum" Side.buy
unfolding evaluate_entry filtered first_entry evaluate_predicates evaluate_each evaluate
    feature_value get
entered = refl

evaluate_predicates-holds_example :
    (evaluate_predicates context MatchMode.every strong_momentum).matched
    ≡ rule_holds context MatchMode.every strong_momentum
evaluate_predicates-holds_example =
    evaluate_predicates-holds context MatchMode.every strong_momentum

evaluate_entry-Justified_example :
    Justified context definition.filters definition.entries (evaluate_entry definition context)
evaluate_entry-Justified_example = evaluate_entry-Justified context definition
