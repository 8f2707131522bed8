-- ===== src/Runtime/Gates.antt =====
-- `StartupChecklist`. `status` panics on a gate that the map lacks: that is `none` here.
use pg_tsy_core_bootstrap.Prelude.{
  ℕ, String, Bool, true, false, Option, none, some, List, [], ◌∷◌, map, BTreeMap, Ord, get, insert,
  Ordering, ◌≡◌, arith, if◌then◌else◌, number_left, number_right, number_lt_of_gt, number_gt_of_lt,
  number_lt_trans,
}
use Prim.Native.Nat.{compare}
use pg_tsy_core_bootstrap.Runtime.Config.{RunMode}

pub data StartupGate : Type 0 where
  journal_writable database_reachable runtime_lease_acquired : StartupGate
  venue_authenticated market_data_synchronized open_orders_loaded : StartupGate
  positions_loaded ownership_reconciled unknown_state_clear : StartupGate
  strategy_allowlist_loaded live_trading_explicitly_enabled : StartupGate

abbrev pub gate_code : StartupGate → ℕ
gate_code StartupGate.journal_writable = 0
gate_code StartupGate.database_reachable = 1
gate_code StartupGate.runtime_lease_acquired = 2
gate_code StartupGate.venue_authenticated = 3
gate_code StartupGate.market_data_synchronized = 4
gate_code StartupGate.open_orders_loaded = 5
gate_code StartupGate.positions_loaded = 6
gate_code StartupGate.ownership_reconciled = 7
gate_code StartupGate.unknown_state_clear = 8
gate_code StartupGate.strategy_allowlist_loaded = 9
gate_code StartupGate.live_trading_explicitly_enabled = 10

-- The derived order, by declaration.
abbrev pub gate_cmp : StartupGate → StartupGate → Ordering
gate_cmp a b = compare (gate_code a) (gate_code b)

pub gate_cmp_refl : (a : StartupGate) → gate_cmp a a ≡ Ordering.eq
gate_cmp_refl a = ground arith

pub gate_cmp_left : (a b c : StartupGate) → gate_cmp a b ≡ Ordering.eq → gate_cmp a c ≡ gate_cmp b c
gate_cmp_left a b c h = number_left (gate_code a) (gate_code b) (gate_code c) h

instance abbrev pub gate_ord : Ord StartupGate
gate_ord = record {
  cmp = gate_cmp;
  cmp_refl = gate_cmp_refl;
  cmp_eq_left = gate_cmp_left;
  cmp_eq_right = λ a b c. number_right (gate_code a) (gate_code b) (gate_code c);
  lt_of_gt = λ a b. number_lt_of_gt (gate_code a) (gate_code b);
  gt_of_lt = λ a b. number_gt_of_lt (gate_code a) (gate_code b);
  lt_trans = λ a b c. number_lt_trans (gate_code a) (gate_code b) (gate_code c);
}

pub data GateStatus : Type 0 where
  pending passed : GateStatus
  failed : String → GateStatus

abbrev pub is_passed : GateStatus → Bool
is_passed GateStatus.passed = true
is_passed _ = false

pub record StartupChecklist : Type 0 where
  pub gates : BTreeMap StartupGate GateStatus

abbrev pub all_gates : List StartupGate
all_gates =
    StartupGate.journal_writable ∷ StartupGate.database_reachable
    ∷ StartupGate.runtime_lease_acquired ∷ StartupGate.venue_authenticated
    ∷ StartupGate.market_data_synchronized ∷ StartupGate.open_orders_loaded
    ∷ StartupGate.positions_loaded ∷ StartupGate.ownership_reconciled
    ∷ StartupGate.unknown_state_clear ∷ StartupGate.strategy_allowlist_loaded
    ∷ StartupGate.live_trading_explicitly_enabled ∷ []

abbrev pub offline_gates : List StartupGate
offline_gates =
    StartupGate.journal_writable ∷ StartupGate.database_reachable
    ∷ StartupGate.runtime_lease_acquired ∷ StartupGate.market_data_synchronized
    ∷ StartupGate.strategy_allowlist_loaded ∷ []

unfoldable pub required_gates : RunMode → List StartupGate
required_gates RunMode.shadow = offline_gates
required_gates RunMode.paper = offline_gates
required_gates RunMode.live = all_gates

unfoldable pub insert_all :
    List (StartupGate × GateStatus)
    → BTreeMap StartupGate GateStatus
    → BTreeMap StartupGate GateStatus
insert_all [] m = m
insert_all ((gate, status) ∷ rest) m = insert_all rest (insert gate status m)

unfoldable pub new : StartupChecklist
unfolding insert_all
new = record { gates = insert_all (map (λ gate. (gate, GateStatus.pending)) all_gates) [] }

unfoldable pub pass : StartupChecklist → StartupGate → StartupChecklist
pass self gate = record { gates = insert gate GateStatus.passed self.gates }

unfoldable pub fail : StartupChecklist → StartupGate → String → StartupChecklist
fail self gate reason = record { gates = insert gate (GateStatus.failed reason) self.gates }

unfoldable pub status : StartupChecklist → StartupGate → Option GateStatus
status self gate = get gate self.gates

-- `all` over the required gates, which stops at the first that has not passed.
unfoldable pub all_passed : StartupChecklist → List StartupGate → Option Bool
all_passed self [] = some true
all_passed self (gate ∷ gates) =
    let rest = all_passed self gates in
    elim (status self gate) [ none ↦ none | some s ↦ if is_passed s then rest else some false ]

unfoldable pub ready_for : StartupChecklist → RunMode → Option Bool
unfolding all_passed
ready_for self mode = all_passed self (required_gates mode)

abbrev pub add_blocking :
    StartupGate
    → Option GateStatus
    → Option (List (StartupGate × GateStatus))
    → Option (List (StartupGate × GateStatus))
add_blocking gate none rest = none
add_blocking gate (some s) none = none
add_blocking gate (some s) (some rest) = some (if is_passed s then rest else (gate, s) ∷ rest)

unfoldable pub blocking :
    StartupChecklist → List StartupGate → Option (List (StartupGate × GateStatus))
blocking self [] = some []
blocking self (gate ∷ gates) = add_blocking gate (status self gate) (blocking self gates)

unfoldable pub blocking_gates :
    StartupChecklist → RunMode → Option (List (StartupGate × GateStatus))
unfolding blocking
blocking_gates self mode = blocking self (required_gates mode)
