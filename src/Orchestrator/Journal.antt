-- ===== src/Orchestrator/Journal.antt =====
-- The order of calls: nothing is submitted or canceled that was not made durable first, under a lease
-- that has just been confirmed.
pub mod Cancels
pub mod Rounds
pub mod Histories
use pg_tsy_core_bootstrap.Prelude.{
  arith, String, Bool, true, false, ◌&&◌, List, [], ◌∷◌, Option, none, some, Result, ok, err, ◌≡◌,
  refl, ◌==◌, nat_eq, string_eq, any,
}
use pg_tsy_core_bootstrap.Decimal.{Decimal}
use pg_tsy_core_bootstrap.Types.{Uuid, OrderIntent, client_order_id}
use pg_tsy_core_bootstrap.Oms.{
  OrderState, OrderEvent, OrderRecord, from_intent, apply, accept, state_eq,
}
use pg_tsy_core_bootstrap.Execution.{
  ExecutionError, ExecutionAdapter, VenueOrderAck, VenueOrderSnapshot,
}
use pg_tsy_core_bootstrap.Orchestrator.Defs.{DurableExecution, order_stream}
use pg_tsy_core_bootstrap.Orchestrator.Session.{Call, Calls, Session, Action}
use pg_tsy_core_bootstrap.Orchestrator.Traces.{
  Keeps-bind, Keeps-if, Keeps-raise, Obeys, Keeps, keeps_rules, Keeps-perform, keeps_perform,
  keeps_attempt, keeps_adapter, keeps_oms,
}
use pg_tsy_core_bootstrap.Orchestrator.Cancel.{
  cancel_order, cancel_live, cancel_working, send_cancel, request_cancel, cancel_pending,
  resolve_first, finish_cancel, after_cancel, lost_cancel,
}
use pg_tsy_core_bootstrap.Orchestrator.Snapshot.{validate_snapshot}
use pg_tsy_core_bootstrap.Orchestrator.Steps.{settle_snapshot, checked_snapshot}
use pg_tsy_core_bootstrap.Orchestrator.Dispatch.{
  dispatch, finish_dispatch, acknowledged, lost, refused,
}

module _ {Q : Type 0} where
  -- The latest call confirmed the lease.
  abbrev pub is_fenced : Calls Q → Bool
  is_fenced ((Call.assert_lease, true) ∷ _) = true
  is_fenced _ = false

  -- A record of this intent was saved in `PendingSubmit`.
  abbrev pub is_saved : (Uuid → String) → OrderIntent Q → Call Q × Bool → Bool
  is_saved simple intent (Call.save_order r, true) =
      r.state == OrderState.pending_submit
      && r.intent_id == intent.intent_id
      && r.client_order_id == client_order_id simple intent
  is_saved simple intent _ = false

  -- The journal of the order has the start of the dispatch.
  abbrev pub is_started : (Uuid → String) → OrderIntent Q → Call Q × Bool → Bool
  is_started simple intent (Call.append_event stream event_type _, true) =
      stream == order_stream (client_order_id simple intent)
      && event_type == "order.dispatch.started"
  is_started simple intent _ = false

  -- What must stand before each call.
  abbrev pub Journaled : (Uuid → String) → Call Q → Calls Q → Type 0
  Journaled simple (Call.submit intent) before =
      (is_fenced before ≡ true)
      × (any (is_saved simple intent) before ≡ true)
      × (any (is_started simple intent) before ≡ true)
  Journaled simple (Call.cancel _) before = is_fenced before ≡ true
  Journaled simple _ before = Unit

module _ {Q W : Type 0} (simple : Uuid → String) (self : DurableExecution Q W) where
  Keeps-finish :
      (stream_id : String) (pending : OrderRecord Q) (outcome : Result VenueOrderAck ExecutionError)
      → Keeps (Journaled simple) (finish_dispatch self stream_id pending outcome)
  unfolding acknowledged lost refused
  Keeps-finish stream_id pending (ok ack) = search (keeps_rules, Keeps-perform (Journaled simple))
  Keeps-finish stream_id pending (err (ExecutionError.unknown _)) =
      search (keeps_rules, Keeps-perform (Journaled simple))
  Keeps-finish stream_id pending (err (ExecutionError.transport _)) =
      search (keeps_rules, Keeps-perform (Journaled simple))
  Keeps-finish stream_id pending (err (ExecutionError.rejected _)) =
      search (keeps_rules, Keeps-perform (Journaled simple))
  Keeps-finish stream_id pending (err (ExecutionError.authentication _)) =
      search (keeps_rules, Keeps-perform (Journaled simple))
  Keeps-finish stream_id pending (err (ExecutionError.conversion _)) =
      search (keeps_rules, Keeps-perform (Journaled simple))
  Keeps-finish stream_id pending (err (ExecutionError.unsupported _)) =
      search (keeps_rules, Keeps-perform (Journaled simple))

  submitted :
      ⦃d : Decimal Q⦄ (new_id : Uuid) (intent : OrderIntent Q) (pending : OrderRecord Q)
      → apply OrderEvent.submit_requested (from_intent simple new_id intent) ≡ (pending, ok tt)
      → (pending.state ≡ OrderState.pending_submit)
        × (pending.intent_id ≡ intent.intent_id)
        × (pending.client_order_id ≡ client_order_id simple intent)
  unfolding apply from_intent
  submitted new_id intent pending h = ground arith

  pub dispatch-Journaled :
      ⦃d : Decimal Q⦄ (new_id : Uuid) (intent : OrderIntent Q)
      → Keeps (Journaled simple) (dispatch simple new_id self intent)
  unfolding dispatch
  dispatch-Journaled new_id intent = record {
    at = λ s h. keeps_perform (Journaled simple) _ _ _ _ s tt h λ _ w1.
        keeps_adapter (Journaled simple) self _ _ _ (tt, h)
          λ adapter.
            keeps_perform (Journaled simple) _ _ _ _ _ tt (tt, h)
              λ _ w2.
                keeps_perform (Journaled simple) _ _ _ _ _ tt (tt, (tt, h))
                  λ _ w3.
                    keeps_oms (Journaled simple) _ _ _ (tt, (tt, (tt, h)))
                      λ pending made.
                        keeps_perform (Journaled simple) _ _ _ _ _ tt (tt, (tt, (tt, h)))
                          λ _ w4.
                            keeps_perform (Journaled simple) _ _ _ _ _ tt (tt, (tt, (tt, (tt, h))))
                              λ _ w5.
                                keeps_perform (Journaled simple) _ _ _ _ _ tt
                                  (tt, (tt, (tt, (tt, (tt, h)))))
                                  λ _ w6. keeps_attempt (Journaled simple) _ _ _ _ λ outcome w7 b.
                                    (Keeps-finish _ pending outcome).at _ (
                                      (
                                        refl,
                                        ground (
                                          arith,
                                          submitted new_id intent pending made,
                                          string_eq.beq_iff pending.client_order_id
                                              (client_order_id simple intent),
                                        ),
                                        ground (
                                          arith,
                                          string_eq.beq_iff
                                              (order_stream (client_order_id simple intent))
                                              (order_stream (client_order_id simple intent)),
                                        ),
                                      ),
                                      (tt, (tt, (tt, (tt, (tt, (tt, h)))))),
                                    );
  }
