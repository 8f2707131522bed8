-- ===== src/Oms/Lifecycle.antt =====
-- Every history of an order: the calls that a client may make, in any order.
use pg_tsy_core_bootstrap.Prelude.{
  String, Bool, true, false, ◌≡◌, refl, ◌≢◌, ◌⊎◌, List, [], ◌∷◌, arith, is_ok,
}
use pg_tsy_core_bootstrap.Decimal.{Decimal, ◌≼◌, ◌≺◌, ◌≈◌}
use pg_tsy_core_bootstrap.Types.{Uuid, OrderIntent}
use pg_tsy_core_bootstrap.Oms.{
  OrderState, OrderEvent, OrderRecord, is_terminal_state, apply, accept, apply_fill, from_intent,
}

-- The methods that change a record.
pub data Call (Q : Type 0) : Type 0 where
  apply_event : OrderEvent → Call Q
  accept_as : String → Call Q
  fill : Q → Call Q

module _ {Q : Type 0} ⦃d : Decimal Q⦄ where
  -- The record after a call, and whether the call returned `Ok`.
  unfoldable pub step : Call Q → OrderRecord Q → OrderRecord Q × Bool
  unfolding apply accept apply_fill
  step (Call.apply_event event) r = let (r', result) = apply event r in (r', is_ok result)
  step (Call.accept_as id) r = let (r', result) = accept id r in (r', is_ok result)
  step (Call.fill quantity) r = let (r', result) = apply_fill quantity r in (r', is_ok result)

  unfoldable pub run : List (Call Q) → OrderRecord Q → OrderRecord Q
  run [] r = r
  run (c ∷ cs) r = run cs (step c r).0

  -- What holds between any two calls: the fills never pass the requested quantity, and the order is
  -- `Filled` exactly when they reach it.
  pub record IsBounded (r : OrderRecord Q) : Type 0 where
    pub within : r.filled_quantity ≼ r.requested_quantity
    pub complete : r.state ≡ OrderState.filled → r.filled_quantity ≈ r.requested_quantity
    pub incomplete : r.state ≢ OrderState.filled → r.filled_quantity ≺ r.requested_quantity

  pub step-IsBounded : (c : Call Q) (r : OrderRecord Q) → IsBounded r → IsBounded (step c r).0
  unfolding step
  step-IsBounded (Call.apply_event event) r h = ground arith
  step-IsBounded (Call.accept_as id) r h = ground arith
  step-IsBounded (Call.fill quantity) r h = ground arith

  run-IsBounded_of : (cs : List (Call Q)) (r : OrderRecord Q) → IsBounded r → IsBounded (run cs r)
  unfolding run
  run-IsBounded_of [] r h = h
  run-IsBounded_of (c ∷ cs) r h = run-IsBounded_of cs (step c r).0 (step-IsBounded c r h)

  -- Whatever calls follow the creation of an order with a positive quantity, accepted or refused: the
  -- cumulative fill is at most the requested quantity, the state is `Filled` when and only when the
  -- two are equal, and otherwise the fill is strictly below.
  pub run-IsBounded :
      (simple : Uuid → String) (new_id : Uuid) (intent : OrderIntent Q) (cs : List (Call Q))
      → d.zero ≺ intent.quantity
      → IsBounded (run cs (from_intent simple new_id intent))
  run-IsBounded simple new_id intent cs h =
      run-IsBounded_of cs (from_intent simple new_id intent) (start simple new_id intent h)
    where
      start :
          (simple : Uuid → String) (new_id : Uuid) (intent : OrderIntent Q)
          → d.zero ≺ intent.quantity
          → IsBounded (from_intent simple new_id intent)
      start simple new_id intent h = unfold from_intent in ground arith

  -- A call of any method on an order record that returns an error leaves the record as it was.
  pub step_error_unchanged :
      (c : Call Q) (r : OrderRecord Q) → (step c r).1 ≡ false → (step c r).0 ≡ r
  unfolding step
  step_error_unchanged (Call.apply_event event) r h = ground arith
  step_error_unchanged (Call.accept_as id) r h = ground arith
  step_error_unchanged (Call.fill quantity) r h = ground arith

  -- No call leaves a terminal state, and none leaves `Unknown`.
  abbrev pub IsFinal : OrderRecord Q → Type 0
  IsFinal r = (is_terminal_state r.state ≡ true) ⊎ (r.state ≡ OrderState.unknown)

  step_of_IsFinal : (c : Call Q) (r : OrderRecord Q) → IsFinal r → step c r ≡ (r, false)
  unfolding step
  step_of_IsFinal (Call.apply_event event) r h = ground arith
  step_of_IsFinal (Call.accept_as id) r h = ground arith
  step_of_IsFinal (Call.fill quantity) r h = ground arith

  -- A record that is filled, canceled, rejected or unknown is the same after any calls.
  pub run_of_IsFinal : (cs : List (Call Q)) (r : OrderRecord Q) → IsFinal r → run cs r ≡ r
  unfolding run
  run_of_IsFinal [] r h = refl
  run_of_IsFinal (c ∷ cs) r h = rw (step_of_IsFinal c r h) (run_of_IsFinal cs r h)
