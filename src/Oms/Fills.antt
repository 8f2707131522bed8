-- ===== src/Oms/Fills.antt =====
-- What the fills of an order add up to.
use pg_tsy_core_bootstrap.Prelude.{
  Bool, true, ok, ◌≡◌, refl, List, [], ◌∷◌, arith, ◌+ℤ◌, ◌-ℤ◌, int_laws, sym, ◌∙◌, +ℤ_parts,
  -ℤ_parts,
}
use mathlib.Core.Path.{subst}
use pg_tsy_core_bootstrap.Decimal.{Decimal, IsLawful, Fits, ◌≼◌, ◌≺◌, ◌≈◌}
use pg_tsy_core_bootstrap.Oms.{OrderState, OrderRecord, takes_fills, apply_fill, remaining_quantity}
use pg_tsy_core_bootstrap.Oms.Lifecycle.{Call, step, run}

module _ {Q : Type 0} ⦃d : Decimal Q⦄ where
  -- The running total after a call that was accepted or refused.
  unfoldable pub credit : Call Q → Bool → Q → Q
  credit (Call.fill quantity) true total = d.add total quantity
  credit _ _ total = total

  -- The sum of the accepted fills of a history, begun at `total`.
  unfoldable pub credited : List (Call Q) → OrderRecord Q → Q → Q
  credited [] r total = total
  credited (c ∷ cs) r total = credited cs (step c r).0 (credit c (step c r).1 total)

  step-credit :
      (c : Call Q) (r : OrderRecord Q)
      → (step c r).0.filled_quantity ≡ credit c (step c r).1 r.filled_quantity
  unfolding step credit
  step-credit (Call.apply_event event) r = ground arith
  step-credit (Call.accept_as id) r = ground arith
  step-credit (Call.fill quantity) r = ground arith

  -- The cumulative fill after any calls is what it was before them plus, in order, the quantities of
  -- the fills that were accepted: a refused call adds nothing and no fill is counted twice.
  pub run-credited :
      (cs : List (Call Q)) (r : OrderRecord Q)
      → (run cs r).filled_quantity ≡ credited cs r r.filled_quantity
  unfolding run credited
  run-credited [] r = refl
  run-credited (c ∷ cs) r = rw (← step-credit c r) (run-credited cs (step c r).0)

  -- What holds of the fills themselves: never negative, and positive once the order is partly filled.
  pub record IsProgress (r : OrderRecord Q) : Type 0 where
    pub nonneg : d.zero ≼ r.filled_quantity
    pub partial : r.state ≡ OrderState.partially_filled → d.zero ≺ r.filled_quantity

  -- The sum that a fill forms can be held exactly.
  abbrev pub CallFits : Call Q → OrderRecord Q → Type 0
  CallFits (Call.fill quantity) r = Fits (d.units r.filled_quantity +ℤ d.units quantity)
  CallFits _ r = Unit

  abbrev pub RunFits : List (Call Q) → OrderRecord Q → Type 0
  RunFits [] r = Unit
  RunFits (c ∷ cs) r = CallFits c r × RunFits cs (step c r).0

module _ {Q : Type 0} ⦃d : Decimal Q⦄ (lawful : IsLawful d) where
  open d use {units}

  remaining_sum :
      (r : OrderRecord Q)
      → Fits (units r.requested_quantity)
      → Fits (units r.requested_quantity -ℤ units r.filled_quantity)
      → units (d.add r.filled_quantity (remaining_quantity r)) ≡ units r.requested_quantity
  unfolding remaining_quantity
  remaining_sum r whole rest =
      let f = units r.filled_quantity in
      let q = units r.requested_quantity in
      let back : f +ℤ (q -ℤ f) ≡ q = omega int_laws in
      let left = lawful.units_sub r.requested_quantity r.filled_quantity rest in
      let sum : f +ℤ units (remaining_quantity r) ≡ q = rw left back in
      lawful.units_add r.filled_quantity (remaining_quantity r) (subst Fits (sym sum) whole) ∙ sum

  -- With lawful decimals, an order that takes fills, is filled below its requested quantity and
  -- has a requested quantity and a rest that can be held exactly accepts a fill of exactly its
  -- remaining quantity, which completes it.
  pub apply_fill-remaining :
      (r : OrderRecord Q)
      → takes_fills r.state ≡ true
      → r.filled_quantity ≺ r.requested_quantity
      → Fits (units r.requested_quantity)
      → Fits (units r.requested_quantity -ℤ units r.filled_quantity)
      → ((apply_fill (remaining_quantity r) r).1 ≡ ok tt)
        × ((apply_fill (remaining_quantity r) r).0.state ≡ OrderState.filled)
        × ((apply_fill (remaining_quantity r) r).0.filled_quantity ≈ r.requested_quantity)
  unfolding apply_fill remaining_quantity
  apply_fill-remaining r takes below whole rest = ground (
    arith,
    remaining_sum r whole rest,
    lawful.units_sub r.requested_quantity r.filled_quantity rest,
    lawful.units_zero,
    -ℤ_parts (units r.requested_quantity) (units r.filled_quantity),
  )

  step-IsProgress :
      (c : Call Q) (r : OrderRecord Q) → CallFits c r → IsProgress r → IsProgress (step c r).0
  unfolding step
  step-IsProgress (Call.apply_event event) r fits h = ground arith
  step-IsProgress (Call.accept_as id) r fits h = ground arith
  step-IsProgress (Call.fill quantity) r fits h = ground (
    arith,
    lawful.units_zero,
    lawful.units_add r.filled_quantity quantity fits,
    +ℤ_parts (units r.filled_quantity) (units quantity),
  )

  -- Where every sum of fills can be held exactly, and from a record of which this holds, after any
  -- calls the cumulative fill is not negative, and it is positive while the order is in
  -- `PartiallyFilled`. The arithmetic of decimals is assumed lawful.
  pub run-IsProgress :
      (cs : List (Call Q)) (r : OrderRecord Q) → RunFits cs r → IsProgress r → IsProgress (run cs r)
  unfolding run
  run-IsProgress [] r fits h = h
  run-IsProgress (c ∷ cs) r fits h =
      run-IsProgress cs (step c r).0 fits.1 (step-IsProgress c r fits.0 h)
