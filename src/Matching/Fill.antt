-- ===== src/Matching/Fill.antt =====
-- What a fill of `match_order` respects.
use pg_tsy_core_bootstrap.Prelude.{
  ℕ, String, Bool, true, false, Option, none, some, ◌≡◌, refl, arith, unwrap_or, ◌&&◌,
  if◌then◌else◌,
}
use pg_tsy_core_bootstrap.Decimal.{Decimal, min_chain, lt, le, ◌≼◌, ◌≺◌}
use pg_tsy_core_bootstrap.Types.{Side, ExposureEffect}
use pg_tsy_core_bootstrap.Types.Advanced.{TimeInForce, AdvancedOrderIntent}
use pg_tsy_core_bootstrap.Matching.Match.{
  SessionPhase, TopOfBook, MatchResult, crosses, available, reduce_only_capacity, executable,
  execute, is_fok, unfilled, fill_at_best, MatchDisposition, no_cross, match_order, reject, expire,
  time_gate,
}
use pg_tsy_core_bootstrap.Matching.Paths.{match_order_paths}

module _ {Q : Type 0} ⦃d : Decimal Q⦄ where
  -- A buyer pays at most, and a seller gets at least, the limit.
  abbrev pub RespectsLimit : Side → Option Q → Q → Type 0
  RespectsLimit _ none price = Unit
  RespectsLimit Side.buy (some limit) price = price ≼ limit
  RespectsLimit Side.sell (some limit) price = limit ≼ price

  -- A buyer covers part of a short position, a seller sells part of a long one.
  abbrev pub Reduces : Side → Q → Q → Type 0
  Reduces Side.buy position quantity = (position ≺ d.zero) × (quantity ≼ d.neg position)
  Reduces Side.sell position quantity = (d.zero ≺ position) × (quantity ≼ position)

  -- A buyer takes from the ask, a seller from the bid: no more than is there,
  abbrev pub InBook : Side → TopOfBook Q → Q → Type 0
  InBook Side.buy top quantity = quantity ≼ top.ask_quantity
  InBook Side.sell top quantity = quantity ≼ top.bid_quantity

  -- and at its price.
  abbrev pub AtBest : Side → TopOfBook Q → Q → Type 0
  AtBest Side.buy top price = price ≡ top.ask_price
  AtBest Side.sell top price = price ≡ top.bid_price

  pub record IsFairFill (order : AdvancedOrderIntent Q) (top : TopOfBook Q) (position : Q)
      (r : MatchResult Q) (price : Q) : Type 0 where
    pub positive : d.zero ≺ r.filled_quantity
    pub within : r.filled_quantity ≼ order.base.quantity
    pub shown :
        r.filled_quantity ≼ unwrap_or order.constraints.iceberg_display_quantity order.base.quantity
    pub in_book : InBook order.base.side top r.filled_quantity
    pub at_best : AtBest order.base.side top price
    pub limited : RespectsLimit order.base.side order.base.limit_price price
    pub rest : r.remaining_quantity ≡ d.sub order.base.quantity r.filled_quantity
    pub reduces :
        order.base.effect ≡ ExposureEffect.reduce_only
        → Reduces order.base.side position r.filled_quantity

  abbrev pub Fair : AdvancedOrderIntent Q → TopOfBook Q → Q → MatchResult Q → Option Q → Type 0
  Fair order top position r none =
      (r.filled_quantity ≡ d.zero) × (r.remaining_quantity ≡ order.base.quantity)
  Fair order top position r (some price) = IsFairFill order top position r price

  executable_bounds :
      (order : AdvancedOrderIntent Q) (top : TopOfBook Q) (position : Q)
      → let quantity = executable order top position in
        (quantity ≼ (available order top).0)
        × (quantity ≼ reduce_only_capacity order position)
        × (quantity ≼ order.base.quantity)
        × (quantity ≼ unwrap_or order.constraints.iceberg_display_quantity order.base.quantity)
  unfolding executable
  executable_bounds order top position =
      min_chain (available order top).0 (reduce_only_capacity order position) order.base.quantity
        (unwrap_or order.constraints.iceberg_display_quantity order.base.quantity)

  pub executable-le-quantity :
      (order : AdvancedOrderIntent Q) (top : TopOfBook Q) (position : Q)
      → executable order top position ≼ order.base.quantity
  executable-le-quantity order top position = (executable_bounds order top position).2

  crosses-RespectsLimit :
      (order : AdvancedOrderIntent Q) (top : TopOfBook Q)
      → crosses order top ≡ true
      → RespectsLimit order.base.side order.base.limit_price (available order top).1
  unfolding crosses available
  crosses-RespectsLimit order top h = ground arith

  available-InBook :
      (order : AdvancedOrderIntent Q) (top : TopOfBook Q) (quantity : Q)
      → d.zero ≺ quantity
      → quantity ≼ (available order top).0
      → InBook order.base.side top quantity
  unfolding available
  available-InBook order top quantity p h = ground arith

  available-AtBest :
      (order : AdvancedOrderIntent Q) (top : TopOfBook Q)
      → AtBest order.base.side top (available order top).1
  unfolding available
  available-AtBest order top = ground arith

  capacity-Reduces :
      (order : AdvancedOrderIntent Q) (position quantity : Q)
      → order.base.effect ≡ ExposureEffect.reduce_only
      → d.zero ≺ quantity
      → quantity ≼ reduce_only_capacity order position
      → Reduces order.base.side position quantity
  unfolding reduce_only_capacity
  capacity-Reduces order position quantity e p h = ground arith

  -- Two early results, and a last one behind both tests.
  Fair-if :
      (order : AdvancedOrderIntent Q) (top : TopOfBook Q) (position : Q) (a b : Bool)
      (r s t : MatchResult Q)
      → Fair order top position r r.fill_price
      → Fair order top position s s.fill_price
      → (b ≡ false → Fair order top position t t.fill_price)
      → let u = if a then r else if b then s else t in Fair order top position u u.fill_price
  Fair-if order top position true b r s t f g h = f
  Fair-if order top position false true r s t f g h = g
  Fair-if order top position false false r s t f g h = h refl

  pos_of_not_le : (a : Q) → le a d.zero ≡ false → d.zero ≺ a
  pos_of_not_le a h = ground arith

  execute-Fair :
      (order : AdvancedOrderIntent Q) (top : TopOfBook Q) (position : Q)
      → crosses order top ≡ true
      → Fair order top position (execute order top position) (execute order top position).fill_price
  unfolding execute
  execute-Fair order top position c =
      Fair-if order top position
        (is_fok order.time_in_force && lt (executable order top position) order.base.quantity)
        (le (executable order top position) d.zero)
        (unfilled MatchDisposition.canceled order d.zero (some "FOK cannot fill entire quantity"))
        (reject order "no executable liquidity") (fill_at_best order top position) (refl, refl)
        (refl, refl)
        λ h.
          let bounds = executable_bounds order top position in
          let positive = pos_of_not_le (executable order top position) h in
          record {
            positive = positive;
            within = bounds.2;
            shown = bounds.3;
            in_book = available-InBook order top _ positive bounds.0;
            at_best = available-AtBest order top;
            limited = crosses-RespectsLimit order top c;
            rest = refl;
            reduces = λ e. capacity-Reduces order position _ e positive bounds.1;
          }

  no_cross-Fair :
      (order : AdvancedOrderIntent Q) (top : TopOfBook Q) (position : Q) (t : TimeInForce)
      → Fair order top position (no_cross t order) (no_cross t order).fill_price
  no_cross-Fair order top position t = ground arith

  reject-Fair :
      (order : AdvancedOrderIntent Q) (top : TopOfBook Q) (position : Q) (reason : String)
      → let r = reject order reason in Fair order top position r r.fill_price
  unfolding reject
  reject-Fair order top position reason = (refl, refl)

  time_gate-Fair :
      (order : AdvancedOrderIntent Q) (top : TopOfBook Q) (position : Q) (now_ns : ℕ)
      (session : SessionPhase) (r : MatchResult Q)
      → time_gate order.time_in_force order now_ns session ≡ some r
      → Fair order top position r r.fill_price
  unfolding expire
  time_gate-Fair order top position now_ns session r h = ground arith

  -- On every path of `match_order` the result either fills nothing and leaves the whole quantity, or
  -- it is a fair fill: positive, at most the order's quantity and its displayed part; for a buy at
  -- most the ask quantity and at the ask price, for a sell at most the bid quantity and at the bid
  -- price; at a price that respects the limit, with the rest left; and for a reduce-only order it
  -- reduces the position without passing zero.
  pub match_order-Fair :
      (order : AdvancedOrderIntent Q) (top : TopOfBook Q) (position : Q) (now_ns : ℕ)
      (session : SessionPhase)
      → let r = match_order order top position now_ns session in
        Fair order top position r r.fill_price
  match_order-Fair order top position now_ns session =
      match_order_paths (λ r. Fair order top position r r.fill_price) order top position
        (reject-Fair order top position) now_ns session
        (time_gate-Fair order top position now_ns session)
        (λ _. no_cross-Fair order top position order.time_in_force)
        (λ _ crossed _. execute-Fair order top position crossed)
