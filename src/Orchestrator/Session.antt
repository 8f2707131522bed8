-- ===== src/Orchestrator/Session.antt =====
-- Actions on the outside world: `await` on the store and the adapters. A session is the world and the
-- calls made so far, the latest first, each with whether it returned `Ok`. The calls are a record of
-- what happened, which no action reads.
use pg_tsy_core_bootstrap.Prelude.{
  String, Bool, true, false, List, ◌∷◌, Result, ok, err, is_ok, ◌≡◌, refl,
}
use pg_tsy_core_bootstrap.Types.{Venue, OrderIntent}
use pg_tsy_core_bootstrap.Types.Keys.{venue_ord}
use pg_tsy_core_bootstrap.Oms.{OrderRecord, TransitionError}
use pg_tsy_core_bootstrap.Execution.{OrderLocator}
use pg_tsy_core_bootstrap.Reconcile.Defs.{VenuePosition, ReconcileReport}
use pg_tsy_core_bootstrap.Orchestrator.Defs.{OrchestratorError, Payload, transition_text}

pub data Call (Q : Type 0) : Type 0 where
  assert_lease : Call Q
  append_event : String → String → Payload Q → Call Q
  save_order : OrderRecord Q → Call Q
  load_orders : Venue → Call Q
  load_positions : Venue → Call Q
  save_position : VenuePosition Q → Call Q
  save_report : Venue → ReconcileReport Q → Call Q
  submit : OrderIntent Q → Call Q
  cancel : OrderLocator → Call Q
  open_orders : Call Q
  positions : Call Q
  find_order : String → Call Q

abbrev pub Calls : Type 0 → Type 0
Calls Q = List (Call Q × Bool)

pub record Session (Q W : Type 0) : Type 0 where
  pub world : W
  pub calls : Calls Q

abbrev pub Action : Type 0 → Type 0 → Type 0 → Type 0
Action Q W A = Session Q W → Result A OrchestratorError × Session Q W

module _ {Q W : Type 0} where
  module _ {A : Type 0} where
    unfoldable pub pure : A → Action Q W A
    pure a s = (ok a, s)

    unfoldable pub raise : OrchestratorError → Action Q W A
    raise e s = (err e, s)

    -- A call whose error ends the method, with the error's conversion (`?`).
    unfoldable pub perform :
        {E : Type 0} → Call Q → (E → OrchestratorError) → (W → Result A E × W) → Action Q W A
    perform call convert f s =
        let (result, world) = f s.world in
        (
          elim result [ ok a ↦ ok a | err e ↦ err (convert e) ],
          record { world = world; calls = (call, is_ok result) ∷ s.calls },
        )

    -- A call whose result the method matches on.
    unfoldable pub attempt : {E : Type 0} → Call Q → (W → Result A E × W) → Action Q W (Result A E)
    attempt call f s =
        let (result, world) = f s.world in
        (ok result, record { world = world; calls = (call, is_ok result) ∷ s.calls })

  module _ {A B : Type 0} where
    abbrev pub continue :
        (A → Action Q W B)
        → Result A OrchestratorError × Session Q W
        → Result B OrchestratorError × Session Q W
    continue k (ok a, s) = k a s
    continue k (err e, s) = (err e, s)

    infixl 5 ◌>>=◌
    unfoldable pub ◌>>=◌ : Action Q W A → (A → Action Q W B) → Action Q W B
    ◌>>=◌ m k s = continue k (m s)

  infixl 5 ◌>>◌
  abbrev pub ◌>>◌ : {A B : Type 0} → Action Q W A → Action Q W B → Action Q W B
  m >> k = m >>= λ _. k

  -- A change of an order record, whose error is turned into text.
  unfoldable pub of_oms : {A : Type 0} → A × Result (Unit {0}) TransitionError → Action Q W A
  of_oms (record', ok _) s = (ok record', s)
  of_oms (record', err e) s = (err (OrchestratorError.oms (transition_text e)), s)

  perform_case {ℓ} :
      {A B E : Type 0} (P : Result B OrchestratorError × Session Q W → Type ℓ) (call : Call Q)
      (convert : E → OrchestratorError) (k : A → Action Q W B) (s : Session Q W)
      (x : Result A E × W)
      → ((e : E) (w : W)
          → x ≡ (err e, w)
          → P (err (convert e), record { world = w; calls = (call, false) ∷ s.calls }))
      → ((a : A) (w : W)
          → x ≡ (ok a, w)
          → P (k a (record { world = w; calls = (call, true) ∷ s.calls })))
      → P (
          continue k (
            let (result, world) = x in
            (
              elim result [ ok a ↦ ok a | err e ↦ err (convert e) ],
              record { world = world; calls = (call, is_ok result) ∷ s.calls },
            )))
  perform_case P call convert k s (err e, w) failed returned = failed e w refl
  perform_case P call convert k s (ok a, w) failed returned = returned a w refl

  attempt_case {ℓ} :
      {A B E : Type 0} (P : Result B OrchestratorError × Session Q W → Type ℓ) (call : Call Q)
      (k : Result A E → Action Q W B) (s : Session Q W) (x : Result A E × W)
      → ((e : E) (w : W)
          → x ≡ (err e, w)
          → P (k (err e) (record { world = w; calls = (call, false) ∷ s.calls })))
      → ((a : A) (w : W)
          → x ≡ (ok a, w)
          → P (k (ok a) (record { world = w; calls = (call, true) ∷ s.calls })))
      → P (
          continue k (
            let (result, world) = x in
            (ok result, record { world = world; calls = (call, is_ok result) ∷ s.calls })))
  attempt_case P call k s (err e, w) failed returned = failed e w refl
  attempt_case P call k s (ok a, w) failed returned = returned a w refl

  -- What holds after a call that fails and after one that returns holds of the call and what follows.
  pub perform_paths {ℓ} :
      {A B E : Type 0} (P : Result B OrchestratorError × Session Q W → Type ℓ) (call : Call Q)
      (convert : E → OrchestratorError) (f : W → Result A E × W) (k : A → Action Q W B)
      (s : Session Q W)
      → ((e : E) (w : W)
          → f s.world ≡ (err e, w)
          → P (err (convert e), record { world = w; calls = (call, false) ∷ s.calls }))
      → ((a : A) (w : W)
          → f s.world ≡ (ok a, w)
          → P (k a (record { world = w; calls = (call, true) ∷ s.calls })))
      → P ((perform call convert f >>= k) s)
  unfolding perform ◌>>=◌
  perform_paths P call convert f k s failed returned =
      perform_case P call convert k s (f s.world) failed returned

  pub attempt_paths {ℓ} :
      {A B E : Type 0} (P : Result B OrchestratorError × Session Q W → Type ℓ) (call : Call Q)
      (f : W → Result A E × W) (k : Result A E → Action Q W B) (s : Session Q W)
      → ((e : E) (w : W)
          → f s.world ≡ (err e, w)
          → P (k (err e) (record { world = w; calls = (call, false) ∷ s.calls })))
      → ((a : A) (w : W)
          → f s.world ≡ (ok a, w)
          → P (k (ok a) (record { world = w; calls = (call, true) ∷ s.calls })))
      → P ((attempt call f >>= k) s)
  unfolding attempt ◌>>=◌
  attempt_paths P call f k s failed returned = attempt_case P call k s (f s.world) failed returned
