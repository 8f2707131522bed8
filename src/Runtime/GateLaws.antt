-- ===== src/Runtime/GateLaws.antt =====
-- What the gates say after any history of reports.
use pg_tsy_core_bootstrap.Prelude.{
  String, true, some, List, [], ◌∷◌, get, insert, get-insert, same_key, is_some, All, ◌≡◌, ◌↔◌,
  refl, arith, if◌then◌else◌,
}
use pg_tsy_core_bootstrap.Runtime.Config.{RunMode}
use pg_tsy_core_bootstrap.Runtime.Gates.{
  StartupGate, gate_ord, GateStatus, StartupChecklist, required_gates, new, pass, fail, status,
  all_passed, ready_for, blocking, blocking_gates,
}

pub data Report : Type 0 where
  passes : StartupGate → Report
  fails : StartupGate → String → Report

unfoldable pub record_report : StartupChecklist → Report → StartupChecklist
record_report c (Report.passes gate) = pass c gate
record_report c (Report.fails gate reason) = fail c gate reason

unfoldable pub replay : StartupChecklist → List Report → StartupChecklist
replay c [] = c
replay c (r ∷ rs) = replay (record_report c r) rs

-- The last report on a gate, or `before`.
abbrev pub report_on : StartupGate → Report → GateStatus → GateStatus
report_on gate (Report.passes g) before = if same_key gate g then GateStatus.passed else before
report_on gate (Report.fails g reason) before =
    if same_key gate g then GateStatus.failed reason else before

abbrev pub last_report : StartupGate → List Report → GateStatus → GateStatus
last_report gate [] before = before
last_report gate (r ∷ rs) before = last_report gate rs (report_on gate r before)

status-new : (gate : StartupGate) → status new gate ≡ some GateStatus.pending
unfolding status new get insert
status-new gate = ground arith

status-record :
    (c : StartupChecklist) (r : Report) (gate : StartupGate) (before : GateStatus)
    → status c gate ≡ some before
    → status (record_report c r) gate ≡ some (report_on gate r before)
unfolding status record_report pass fail
status-record c (Report.passes g) gate before h =
    ground (arith, get-insert g gate GateStatus.passed c.gates)
status-record c (Report.fails g reason) gate before h =
    ground (arith, get-insert g gate (GateStatus.failed reason) c.gates)

status-replay_of :
    (rs : List Report) (c : StartupChecklist) (gate : StartupGate) (before : GateStatus)
    → status c gate ≡ some before
    → status (replay c rs) gate ≡ some (last_report gate rs before)
unfolding replay
status-replay_of [] c gate before h = h
status-replay_of (r ∷ rs) c gate before h =
    status-replay_of rs (record_report c r) gate (report_on gate r before)
      (status-record c r gate before h)

status-replay :
    (rs : List Report) (gate : StartupGate)
    → status (replay new rs) gate ≡ some (last_report gate rs GateStatus.pending)
status-replay rs gate = status-replay_of rs new gate GateStatus.pending (status-new gate)

abbrev pub HasPassed : List Report → StartupGate → Type 0
HasPassed rs gate = last_report gate rs GateStatus.pending ≡ GateStatus.passed

all_passed_iff :
    (rs : List Report) (gates : List StartupGate)
    → (all_passed (replay new rs) gates ≡ some true) ↔ All (HasPassed rs) gates
unfolding all_passed
all_passed_iff rs [] = ground arith
all_passed_iff rs (gate ∷ gates) = ground (arith, all_passed_iff rs gates, status-replay rs gate)

-- The statuses are always there, so `all_passed` does not panic.
all_passed_total :
    (rs : List Report) (gates : List StartupGate)
    → is_some (all_passed (replay new rs) gates) ≡ true
unfolding all_passed
all_passed_total rs [] = refl
all_passed_total rs (gate ∷ gates) =
    ground (arith, all_passed_total rs gates, status-replay rs gate)

blocking_iff :
    (rs : List Report) (gates : List StartupGate)
    → (blocking (replay new rs) gates ≡ some []) ↔ All (HasPassed rs) gates
unfolding blocking
blocking_iff rs [] = ground arith
blocking_iff rs (gate ∷ gates) = ground (arith, blocking_iff rs gates, status-replay rs gate)

-- After any reports on a new checklist the readiness test does not panic; it passes exactly when the
-- last report on each gate that the mode requires was that it passed, and this is exactly when no
-- gate is listed as blocking.
pub ready_for_iff :
    (rs : List Report) (mode : RunMode)
    → (is_some (ready_for (replay new rs) mode) ≡ true)
      × ((ready_for (replay new rs) mode ≡ some true) ↔ All (HasPassed rs) (required_gates mode))
      × ((blocking_gates (replay new rs) mode ≡ some []) ↔ All (HasPassed rs) (required_gates mode))
unfolding ready_for blocking_gates
ready_for_iff rs mode =
    let gates = required_gates mode in
    (all_passed_total rs gates, all_passed_iff rs gates, blocking_iff rs gates)
