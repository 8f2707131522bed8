-- ===== src/Orchestrator/Dispatch/Progress.antt =====
-- `DurableExecution::dispatch` on a store that works and a venue that accepts.
use mathlib.Core.Path.{subst}
use pg_tsy_core_bootstrap.Prelude.{
  arith, ℤ, String, true, false, some, Result, err, is_ok, get, ◌≡◌, refl, sym,
}
use pg_tsy_core_bootstrap.Decimal.{Decimal}
use pg_tsy_core_bootstrap.Types.{Venue, Uuid, OrderIntent}
use pg_tsy_core_bootstrap.Types.Keys.{venue_ord}
use pg_tsy_core_bootstrap.Oms.{OrderState, OrderRecord, from_intent, apply, accept}
use pg_tsy_core_bootstrap.Execution.{ExecutionAdapter, VenueOrderAck}
use pg_tsy_core_bootstrap.Orchestrator.Defs.{
  OrchestratorError, Payload, RuntimeLease, RuntimeStore, DurableExecution,
}
use pg_tsy_core_bootstrap.Orchestrator.Session.{
  Call, Session, Action, pure, perform, ◌>>=◌, perform_paths, attempt_paths,
}
use pg_tsy_core_bootstrap.Orchestrator.Steps.{adapter_for, or_missing}
use pg_tsy_core_bootstrap.Orchestrator.Dispatch.{dispatch, acknowledged}
use pg_tsy_core_bootstrap.Orchestrator.Dispatch.Outcome.{changed}

no_error :
    {A E W : Type 0} (x : Result A E × W) (e : E) (w : W)
    → is_ok x.0 ≡ true
    → x ≡ (err e, w)
    → true ≡ false
no_error x e w works failed = ground (arith, works, failed)

module _ {Q W : Type 0} where
  -- The lease stands and every write is taken.
  pub record IsWorking (store : RuntimeStore Q W) : Type 0 where
    pub leases : (lease : RuntimeLease) (w : W) → is_ok (store.assert_lease lease w).0 ≡ true
    pub events :
        (stream event_type : String) (payload : Payload Q) (token : ℤ) (w : W)
        → is_ok (store.append_event stream event_type payload token w).0 ≡ true
    pub saves :
        (order : OrderRecord Q) (token : ℤ) (w : W)
        → is_ok (store.save_order_record order token w).0 ≡ true

  abbrev Returns : {A : Type 0} → Result A OrchestratorError × Session Q W → Type 0
  Returns (result, s) = is_ok result ≡ true

  adapter_found :
      {B : Type 0} (self : DurableExecution Q W) (venue : Venue) (adapter : ExecutionAdapter Q W)
      (k : ExecutionAdapter Q W → Action Q W B) (s : Session Q W)
      → get venue self.adapters ≡ some adapter
      → Returns (k adapter s)
      → Returns ((adapter_for self venue >>= k) s)
  unfolding adapter_for or_missing pure ◌>>=◌
  adapter_found self venue adapter k s known returns =
      subst (λ o. Returns ((or_missing o venue >>= k) s)) (sym known) returns

  performed :
      {A B E : Type 0} (call : Call Q) (convert : E → OrchestratorError) (f : W → Result A E × W)
      (k : A → Action Q W B) (s : Session Q W)
      → is_ok (f s.world).0 ≡ true
      → ((a : A) (s1 : Session Q W) → Returns (k a s1))
      → Returns ((perform call convert f >>= k) s)
  performed call convert f k s works after =
      perform_paths Returns call convert f k s
        (λ e w failed. ground (arith, no_error (f s.world) e w works failed)) (λ a w _. after a _)

module _ {Q W : Type 0} ⦃d : Decimal Q⦄ where
  acknowledged-Returns :
      (self : DurableExecution Q W) (stream_id : String) (created : OrderRecord Q)
      (ack : VenueOrderAck) (s : Session Q W)
      → IsWorking self.store
      → Returns
          (acknowledged self stream_id (record created { state = OrderState.pending_submit }) ack s)
  unfolding acknowledged accept pure ◌>>=◌
  acknowledged-Returns self stream_id created ack s works = changed Returns _ _ _ s refl (
      performed _ _ _ _ s (works.saves _ _ _)
        λ _ s1. performed _ _ _ _ s1 (works.events _ _ _ _ _) λ _ s2. refl)

  -- On a store that holds the lease and takes every write, with an adapter for the venue that accepts
  -- the intent in every world, `dispatch` returns a record: no step of it is stuck or refused.
  pub dispatch-Returns :
      (simple : Uuid → String) (new_id : Uuid) (self : DurableExecution Q W)
      (intent : OrderIntent Q) (adapter : ExecutionAdapter Q W) (s : Session Q W)
      → IsWorking self.store
      → get intent.venue self.adapters ≡ some adapter
      → ((w : W) → is_ok (adapter.submit intent w).0 ≡ true)
      → is_ok (dispatch simple new_id self intent s).0 ≡ true
  unfolding dispatch from_intent apply
  dispatch-Returns simple new_id self intent adapter s works known accepts =
      performed _ _ _ _ s (works.leases _ _) λ _ s1. adapter_found self _ adapter _ s1 known (
        performed _ _ _ _ s1 (works.saves _ _ _) λ _ s2.
          performed _ _ _ _ s2 (works.events _ _ _ _ _) λ _ s3. changed Returns _ _ _ s3 refl (
            performed _ _ _ _ s3 (works.saves _ _ _) λ _ s4.
              performed _ _ _ _ s4 (works.events _ _ _ _ _) λ _ s5.
                performed _ _ _ _ s5 (works.leases _ _) λ _ s6.
                  attempt_paths Returns _ _ _ s6
                    (λ e w failed. ground (
                      arith,
                      no_error (adapter.submit intent s6.world) e w (accepts s6.world) failed,
                    ))
                    (λ ack w _.
                      acknowledged-Returns self _ (from_intent simple new_id intent) ack _ works)))
