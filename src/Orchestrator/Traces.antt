-- ===== src/Orchestrator/Traces.antt =====
-- Laws of the calls that an action makes, one rule for each way to build an action. A law says what
-- must stand before a call of each kind.
use pg_tsy_core_bootstrap.Prelude.{
  get, Bool, true, false, [], ◌∷◌, Option, none, some, Result, ok, err, ◌≡◌, refl, if◌then◌else◌,
}
use pg_tsy_core_bootstrap.Types.{Venue}
use pg_tsy_core_bootstrap.Types.Keys.{venue_ord}
use pg_tsy_core_bootstrap.Oms.{TransitionError}
use pg_tsy_core_bootstrap.Execution.{ExecutionAdapter}
use pg_tsy_core_bootstrap.Orchestrator.Defs.{OrchestratorError, DurableExecution}
use pg_tsy_core_bootstrap.Orchestrator.Session.{
  Call, Calls, Session, Action, perform, attempt, perform_paths, attempt_paths, continue, of_oms,
  pure, raise, ◌>>=◌,
}
use pg_tsy_core_bootstrap.Orchestrator.Steps.{adapter_for, or_missing, adapter_paths}

-- Every call obeys the law, given the calls before it.
abbrev pub Obeys : {Q : Type 0} → (Call Q → Calls Q → Type 0) → Calls Q → Type 0
Obeys Law [] = Unit
Obeys Law ((call, _) ∷ calls) = Law call calls × Obeys Law calls

-- An action keeps a predicate of the calls.
pub record Preserves {Q W A : Type 0} (P : Calls Q → Type 0) (m : Action Q W A) : Type 0 where
  pub at : (s : Session Q W) → P s.calls → P (m s).1.calls

-- An action keeps a law.
abbrev pub Keeps : {Q W A : Type 0} → (Call Q → Calls Q → Type 0) → Action Q W A → Type 0
Keeps Law = Preserves (Obeys Law)

module _ {Q W : Type 0} (Law : Call Q → Calls Q → Type 0) where
  abbrev Ends : {A : Type 0} → Result A OrchestratorError × Session Q W → Type 0
  Ends (_, s) = Obeys Law s.calls

  pub keeps_perform :
      {A B E : Type 0} (call : Call Q) (convert : E → OrchestratorError) (f : W → Result A E × W)
      (k : A → Action Q W B) (s : Session Q W)
      → Law call s.calls
      → Obeys Law s.calls
      → ((a : A) (w : W)
          → Obeys Law (k a (record { world = w; calls = (call, true) ∷ s.calls })).1.calls)
      → Obeys Law ((perform call convert f >>= k) s).1.calls
  keeps_perform call convert f k s lawful before after =
      perform_paths Ends call convert f k s (λ e w _. (lawful, before)) (λ a w _. after a w)

  pub keeps_attempt :
      {A B E : Type 0} (call : Call Q) (f : W → Result A E × W) (k : Result A E → Action Q W B)
      (s : Session Q W)
      → ((r : Result A E) (w : W) (b : Bool)
          → Obeys Law (k r (record { world = w; calls = (call, b) ∷ s.calls })).1.calls)
      → Obeys Law ((attempt call f >>= k) s).1.calls
  keeps_attempt call f k s after =
      attempt_paths Ends call f k s (λ e w _. after (err e) w false) (λ a w _. after (ok a) w true)

  pub keeps_adapter :
      {B : Type 0} (self : DurableExecution Q W) (venue : Venue)
      (k : ExecutionAdapter Q W → Action Q W B) (s : Session Q W)
      → Obeys Law s.calls
      → ((adapter : ExecutionAdapter Q W) → Obeys Law (k adapter s).1.calls)
      → Obeys Law ((adapter_for self venue >>= k) s).1.calls
  keeps_adapter self venue k s before after =
      adapter_paths Ends self venue k s before (λ adapter _. after adapter)

  pub keeps_oms :
      {A B : Type 0} (x : A × Result (Unit {0}) TransitionError) (k : A → Action Q W B)
      (s : Session Q W)
      → Obeys Law s.calls
      → ((a : A) → x ≡ (a, ok tt) → Obeys Law (k a s).1.calls)
      → Obeys Law ((of_oms x >>= k) s).1.calls
  unfolding of_oms ◌>>=◌
  keeps_oms (a, ok _) k s before after = after a refl
  keeps_oms (a, err e) k s before after = before

module _ {Q W A : Type 0} {P : Calls Q → Type 0} where
  pub Keeps-pure : (a : A) → Preserves {W = W} P (pure a)
  unfolding pure
  Keeps-pure a = record { at = λ s h. h }

  pub Keeps-raise : (e : OrchestratorError) → Preserves {W = W} {A = A} P (raise e)
  unfolding raise
  Keeps-raise e = record { at = λ s h. h }

  -- A call that the predicate allows.
  pub Preserves-perform :
      {E : Type 0} (call : Call Q) (convert : E → OrchestratorError) (f : W → Result A E × W)
      → ((calls : Calls Q) (b : Bool) → P calls → P ((call, b) ∷ calls))
      → Preserves P (perform call convert f)
  unfolding perform
  Preserves-perform call convert f allowed = record { at = λ s h. allowed s.calls _ h }

  pub Keeps-oms : (x : A × Result (Unit {0}) TransitionError) → Preserves {W = W} P (of_oms x)
  unfolding of_oms
  Keeps-oms (a, ok _) = record { at = λ s h. h }
  Keeps-oms (a, err e) = record { at = λ s h. h }

  pub Keeps-if :
      (b : Bool) (m n : Action Q W A)
      → Preserves P m
      → Preserves P n
      → Preserves P (if b then m else n)
  Keeps-if true m n km kn = km
  Keeps-if false m n km kn = kn

module _ {Q W : Type 0} {P : Calls Q → Type 0} where
  pub Keeps-adapter :
      (self : DurableExecution Q W) (venue : Venue) → Preserves P (adapter_for self venue)
  unfolding adapter_for
  Keeps-adapter self venue = found_or_not (get venue self.adapters)
    where
      found_or_not : (o : Option (ExecutionAdapter Q W)) → Preserves P (or_missing o venue)
      found_or_not none = unfold or_missing in Keeps-raise _
      found_or_not (some adapter) = unfold or_missing in Keeps-pure adapter

  keeps_continue :
      {A B : Type 0} (k : A → Action Q W B) (x : Result A OrchestratorError × Session Q W)
      → P x.1.calls
      → ((a : A) → Preserves P (k a))
      → P (continue k x).1.calls
  keeps_continue k (ok a, s) h after = (after a).at s h
  keeps_continue k (err e, s) h after = h

  pub Keeps-bind :
      {A B : Type 0} (m : Action Q W A) (k : A → Action Q W B)
      → Preserves P m
      → ((a : A) → Preserves P (k a))
      → Preserves P (m >>= k)
  unfolding ◌>>=◌
  Keeps-bind m k km kk = record { at = λ s h. keeps_continue k (m s) (km.at s h) kk }

module _ {Q W A : Type 0} (Law : Call Q → Calls Q → Type 0) where
  -- A call that the law always allows.
  pub Keeps-perform :
      {E : Type 0} (call : Call Q) (convert : E → OrchestratorError) (f : W → Result A E × W)
      → ((before : Calls Q) → Law call before)
      → Keeps Law (perform call convert f)
  Keeps-perform call convert f lawful =
      Preserves-perform call convert f λ calls b h. (lawful calls, h)

pub ruleset keeps_rules = (Keeps-pure, Keeps-raise, Keeps-oms, Keeps-if, Keeps-adapter, Keeps-bind)
