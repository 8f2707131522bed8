-- ===== src/Orchestrator/Dispatch/Outcome.antt =====
-- What `DurableExecution::dispatch` leaves in the store, for each way in which it ends.
use mathlib.Core.Path.{subst}
use pg_tsy_core_bootstrap.Prelude.{
  Bool, true, false, Option, none, some, String, [], ◌∷◌, Result, ok, err, ◌≡◌, refl, sym,
}
use pg_tsy_core_bootstrap.Decimal.{Decimal}
use pg_tsy_core_bootstrap.Types.{Uuid, OrderIntent, client_order_id}
use pg_tsy_core_bootstrap.Oms.{OrderState, OrderRecord, TransitionError, from_intent, apply, accept}
use pg_tsy_core_bootstrap.Execution.{ExecutionError, VenueOrderAck}
use pg_tsy_core_bootstrap.Orchestrator.Defs.{OrchestratorError, DurableExecution}
use pg_tsy_core_bootstrap.Orchestrator.Session.{
  Call, Calls, Session, Action, of_oms, pure, raise, ◌>>=◌, perform_paths, attempt_paths,
}
use pg_tsy_core_bootstrap.Orchestrator.Steps.{adapter_paths}
use pg_tsy_core_bootstrap.Orchestrator.Dispatch.{
  dispatch, finish_dispatch, acknowledged, lost, refused,
}

-- An outcome of a submission that leaves open whether the venue has the order.
abbrev pub is_lost : ExecutionError → Bool
is_lost (ExecutionError.unknown _) = true
is_lost (ExecutionError.transport _) = true
is_lost _ = false

module _ {Q : Type 0} where
  -- The record between the two saves.
  abbrev pending_of : OrderRecord Q → OrderRecord Q
  pending_of created = record created { state = OrderState.pending_submit }

  -- The latest record that the store took.
  abbrev pub last_saved : Calls Q → Option (OrderRecord Q)
  last_saved [] = none
  last_saved ((Call.save_order r, true) ∷ _) = some r
  last_saved (_ ∷ calls) = last_saved calls

  -- The latest record in the store is in this state, with this client id.
  abbrev pub Stored : Calls Q → String → OrderState → Type 0
  Stored calls client state =
      (r : OrderRecord Q) × (last_saved calls ≡ some r)
      × (r.client_order_id ≡ client)
      × (r.state ≡ state)

module _ {Q W : Type 0} where
  -- What the store holds at the end of a dispatch of this client id.
  abbrev pub Settled : String → Result (OrderRecord Q) OrchestratorError × Session Q W → Type 0
  Settled client (ok r, s) =
      (last_saved s.calls ≡ some r)
      × (r.client_order_id ≡ client)
      × (r.state ≡ OrderState.opened)
      × ((id : String) × (r.venue_order_id ≡ some id))
  Settled client (err (OrchestratorError.ambiguous named _), s) =
      (named ≡ client) × Stored s.calls client OrderState.unknown
  Settled client (err (OrchestratorError.execution e), s) =
      (is_lost e ≡ false) × Stored s.calls client OrderState.rejected
  Settled client (err (OrchestratorError.oms _), s) = true ≡ false
  Settled client (err (OrchestratorError.store _), s) = Unit
  Settled client (err (OrchestratorError.missing_adapter _), s) = Unit

  pub changed {ℓ} :
      {A B : Type 0} (P : Result B OrchestratorError × Session Q W → Type ℓ) (a : A)
      (x : A × Result (Unit {0}) TransitionError) (k : A → Action Q W B) (s : Session Q W)
      → x ≡ (a, ok tt)
      → P (k a s)
      → P ((of_oms x >>= k) s)
  unfolding of_oms ◌>>=◌
  changed P a x k s made h = subst (λ y. P ((of_oms y >>= k) s)) (sym made) h

  refused-Settled :
      (self : DurableExecution Q W) (stream_id : String) (created : OrderRecord Q)
      (e : ExecutionError) (s : Session Q W)
      → is_lost e ≡ false
      → Settled created.client_order_id (refused self stream_id (pending_of created) e s)
  unfolding refused apply raise ◌>>=◌
  refused-Settled self stream_id created e s known =
      changed (Settled created.client_order_id) _ _ _ s refl (
        perform_paths (Settled created.client_order_id) _ _ _ _ s (λ _ _ _. tt)
          λ _ w1 _.
            perform_paths (Settled created.client_order_id) _ _ _ _ _ (λ _ _ _. tt)
              λ _ w2 _. (known, (_, refl, refl, refl)))

  lost-Settled :
      (self : DurableExecution Q W) (stream_id : String) (created : OrderRecord Q)
      (e : ExecutionError) (s : Session Q W)
      → Settled created.client_order_id (lost self stream_id (pending_of created) e s)
  unfolding lost apply raise ◌>>=◌
  lost-Settled self stream_id created e s = changed (Settled created.client_order_id) _ _ _ s refl (
      perform_paths (Settled created.client_order_id) _ _ _ _ s (λ _ _ _. tt)
        λ _ w1 _.
          perform_paths (Settled created.client_order_id) _ _ _ _ _ (λ _ _ _. tt)
            λ _ w2 _. (refl, (_, refl, refl, refl)))

  acknowledged-Settled :
      (self : DurableExecution Q W) (stream_id : String) (created : OrderRecord Q)
      (ack : VenueOrderAck) (s : Session Q W)
      → Settled created.client_order_id (acknowledged self stream_id (pending_of created) ack s)
  unfolding acknowledged accept pure ◌>>=◌
  acknowledged-Settled self stream_id created ack s =
      changed (Settled created.client_order_id) _ _ _ s refl (
        perform_paths (Settled created.client_order_id) _ _ _ _ s (λ _ _ _. tt)
          λ _ w1 _.
            perform_paths (Settled created.client_order_id) _ _ _ _ _ (λ _ _ _. tt)
              λ _ w2 _. (refl, refl, refl, (_, refl)))

  finish-Settled :
      (self : DurableExecution Q W) (stream_id : String) (created : OrderRecord Q)
      (outcome : Result VenueOrderAck ExecutionError) (s : Session Q W)
      → Settled created.client_order_id
          (finish_dispatch self stream_id (pending_of created) outcome s)
  finish-Settled self stream_id created (ok ack) s =
      acknowledged-Settled self stream_id created ack s
  finish-Settled self stream_id created (err (ExecutionError.unknown t)) s =
      lost-Settled self stream_id created (ExecutionError.unknown t) s
  finish-Settled self stream_id created (err (ExecutionError.transport t)) s =
      lost-Settled self stream_id created (ExecutionError.transport t) s
  finish-Settled self stream_id created (err (ExecutionError.rejected t)) s =
      refused-Settled self stream_id created (ExecutionError.rejected t) s refl
  finish-Settled self stream_id created (err (ExecutionError.authentication t)) s =
      refused-Settled self stream_id created (ExecutionError.authentication t) s refl
  finish-Settled self stream_id created (err (ExecutionError.conversion t)) s =
      refused-Settled self stream_id created (ExecutionError.conversion t) s refl
  finish-Settled self stream_id created (err (ExecutionError.unsupported t)) s =
      refused-Settled self stream_id created (ExecutionError.unsupported t) s refl

module _ {Q W : Type 0} ⦃d : Decimal Q⦄ where
  -- However `dispatch` ends, on any store, adapters and world: where it returns a record, that is the
  -- latest one saved, `Open`, with a venue order id; where it reports an ambiguous order, the latest
  -- record saved is `Unknown`; where it reports an error of the venue, the error is not one that
  -- leaves the outcome open and the latest record saved is `Rejected`; each of these carries the
  -- client id of the intent. It never fails with a transition error.
  pub dispatch-Settled :
      (simple : Uuid → String) (new_id : Uuid) (self : DurableExecution Q W)
      (intent : OrderIntent Q) (s : Session Q W)
      → Settled (client_order_id simple intent) (dispatch simple new_id self intent s)
  unfolding dispatch from_intent apply client_order_id
  dispatch-Settled simple new_id self intent s =
      perform_paths (Settled (client_order_id simple intent)) _ _ _ _ s (λ _ _ _. tt)
        λ _ w1 _. adapter_paths (Settled (client_order_id simple intent)) self _ _ _ tt λ adapter _.
          perform_paths (Settled (client_order_id simple intent)) _ _ _ _ _ (λ _ _ _. tt)
            λ _ w2 _.
              perform_paths (Settled (client_order_id simple intent)) _ _ _ _ _ (λ _ _ _. tt)
                λ _ w3 _. changed (Settled (client_order_id simple intent)) _ _ _ _ refl (
                  perform_paths (Settled (client_order_id simple intent)) _ _ _ _ _ (λ _ _ _. tt)
                    λ _ w4 _.
                      perform_paths (Settled (client_order_id simple intent)) _ _ _ _ _
                        (λ _ _ _. tt)
                        λ _ w5 _.
                          perform_paths (Settled (client_order_id simple intent)) _ _ _ _ _
                            (λ _ _ _. tt)
                            λ _ w6 _.
                              attempt_paths (Settled (client_order_id simple intent)) _ _ _ _
                                (λ e w7 _.
                                  finish-Settled self _ (from_intent simple new_id intent) (err e)
                                    _)
                                (λ ack w7 _.
                                  finish-Settled self _ (from_intent simple new_id intent) (ok ack)
                                    _))
