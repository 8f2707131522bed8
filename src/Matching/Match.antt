-- ===== src/Matching/Match.antt =====
-- `match_order` and its helpers.
use pg_tsy_core_bootstrap.Prelude.{
  ℕ, String, Bool, true, false, not, Option, none, some, ok, err, ◌==◌, ◌!=◌, ◌&&◌, leb,
  if◌then◌else◌, unwrap_or,
}
use pg_tsy_core_bootstrap.Decimal.{Decimal, le, lt, is_zero, min, max}
use pg_tsy_core_bootstrap.Types.{Side, ExposureEffect, effect_eq}
use pg_tsy_core_bootstrap.Types.Advanced.{
  TimeInForce, AdvancedOrderIntent, validate, visible_quantity, error_text,
}

pub data SessionPhase : Type 0 where
  pre_open open_auction continuous close_auction closed : SessionPhase

pub record TopOfBook (Q : Type 0) : Type 0 where
  pub bid_price : Q
  pub bid_quantity : Q
  pub ask_price : Q
  pub ask_quantity : Q

pub data MatchDisposition : Type 0 where
  filled partially_filled_and_canceled canceled resting : MatchDisposition
  rejected expired waiting_for_parent : MatchDisposition

pub record MatchResult (Q : Type 0) : Type 0 where
  pub disposition : MatchDisposition
  pub filled_quantity : Q
  pub remaining_quantity : Q
  pub fill_price : Option Q
  pub visible_quantity : Q
  pub reason : Option String

abbrev pub is_open_auction : SessionPhase → Bool
is_open_auction SessionPhase.open_auction = true
is_open_auction _ = false

abbrev pub is_close_auction : SessionPhase → Bool
is_close_auction SessionPhase.close_auction = true
is_close_auction _ = false

abbrev pub is_closed : SessionPhase → Bool
is_closed SessionPhase.closed = true
is_closed _ = false

abbrev pub is_ioc : TimeInForce → Bool
is_ioc TimeInForce.ioc = true
is_ioc _ = false

abbrev pub is_fok : TimeInForce → Bool
is_fok TimeInForce.fok = true
is_fok _ = false

abbrev pub is_resting : MatchDisposition → Bool
is_resting MatchDisposition.resting = true
is_resting _ = false

module _ {Q : Type 0} ⦃d : Decimal Q⦄ where
  -- A result that fills nothing.
  abbrev pub unfilled : MatchDisposition → AdvancedOrderIntent Q → Q → Option String → MatchResult Q
  unfilled disposition order visible reason = record {
    disposition = disposition;
    filled_quantity = d.zero;
    remaining_quantity = order.base.quantity;
    fill_price = none;
    visible_quantity = visible;
    reason = reason;
  }

  -- `MatchResult::reject` and `MatchResult::expire`.
  unfoldable pub reject : AdvancedOrderIntent Q → String → MatchResult Q
  reject order reason = unfilled MatchDisposition.rejected order d.zero (some reason)

  unfoldable pub expire : AdvancedOrderIntent Q → String → MatchResult Q
  unfolding visible_quantity
  expire order reason =
      unfilled MatchDisposition.expired order (visible_quantity order) (some reason)

  abbrev pub crosses_at : Side → Option Q → TopOfBook Q → Bool
  crosses_at _ none top = true
  crosses_at Side.buy (some limit) top = le top.ask_price limit
  crosses_at Side.sell (some limit) top = le limit top.bid_price

  unfoldable pub crosses : AdvancedOrderIntent Q → TopOfBook Q → Bool
  crosses order top = crosses_at order.base.side order.base.limit_price top

  abbrev pub available_at : Side → TopOfBook Q → Q × Q
  available_at Side.buy top = (max top.ask_quantity d.zero, top.ask_price)
  available_at Side.sell top = (max top.bid_quantity d.zero, top.bid_price)

  unfoldable pub available : AdvancedOrderIntent Q → TopOfBook Q → Q × Q
  available order top = available_at order.base.side top

  abbrev pub reducible : Side → Q → Q → Q
  reducible Side.buy position quantity =
      if lt position d.zero then min (d.neg position) quantity else d.zero
  reducible Side.sell position quantity =
      if lt d.zero position then min position quantity else d.zero

  unfoldable pub reduce_only_capacity : AdvancedOrderIntent Q → Q → Q
  reduce_only_capacity order position =
      if order.base.effect != ExposureEffect.reduce_only
      then order.base.quantity
      else reducible order.base.side position order.base.quantity

  -- The early returns of the `match order.time_in_force`.
  abbrev pub time_gate :
      TimeInForce → AdvancedOrderIntent Q → ℕ → SessionPhase → Option (MatchResult Q)
  time_gate (TimeInForce.gtd expires_at_ns) order now_ns session =
      if leb expires_at_ns now_ns then some (expire order "GTD deadline reached") else none
  time_gate TimeInForce.day order now_ns session =
      if is_closed session then some (expire order "DAY order expired at session close") else none
  time_gate TimeInForce.at_the_open order now_ns session =
      if is_open_auction session
      then none
      else some (
          unfilled MatchDisposition.resting order (visible_quantity order)
            (some "waiting for open auction"))
  time_gate TimeInForce.at_the_close order now_ns session =
      if is_close_auction session
      then none
      else some (
          unfilled MatchDisposition.resting order (visible_quantity order)
            (some "waiting for close auction"))
  time_gate _ order now_ns session = none

  -- `if !crosses(order, top)`.
  abbrev pub no_cross : TimeInForce → AdvancedOrderIntent Q → MatchResult Q
  no_cross TimeInForce.ioc order =
      unfilled MatchDisposition.canceled order d.zero (some "immediate order did not cross")
  no_cross TimeInForce.fok order =
      unfilled MatchDisposition.canceled order d.zero (some "immediate order did not cross")
  no_cross _ order = unfilled MatchDisposition.resting order (visible_quantity order) none

  -- The quantity that can be executed against the book.
  unfoldable pub executable : AdvancedOrderIntent Q → TopOfBook Q → Q → Q
  unfolding available reduce_only_capacity
  executable order top position =
      let order_slice = unwrap_or order.constraints.iceberg_display_quantity order.base.quantity in
      min
        (min (min (available order top).0 (reduce_only_capacity order position))
          order.base.quantity)
        order_slice

  -- The result of a fill, the last expression of `match_order`.
  unfoldable pub fill_at_best : AdvancedOrderIntent Q → TopOfBook Q → Q → MatchResult Q
  unfolding executable visible_quantity
  fill_at_best order top position =
      let quantity = executable order top position in
      let remaining = d.sub order.base.quantity quantity in
      let disposition =
        if is_zero remaining
        then MatchDisposition.filled
        else if is_ioc order.time_in_force
        then MatchDisposition.partially_filled_and_canceled
        else MatchDisposition.resting in
      record {
        disposition = disposition;
        filled_quantity = quantity;
        remaining_quantity = remaining;
        fill_price = some (available order top).1;
        visible_quantity =
            if is_resting disposition then min (visible_quantity order) remaining else d.zero;
        reason = none;
      }

  -- From the check for fill-or-kill on.
  unfoldable pub execute : AdvancedOrderIntent Q → TopOfBook Q → Q → MatchResult Q
  unfolding reject fill_at_best
  execute order top position =
      if is_fok order.time_in_force && lt (executable order top position) order.base.quantity
      then unfilled MatchDisposition.canceled order d.zero (some "FOK cannot fill entire quantity")
      else if le (executable order top position) d.zero
      then reject order "no executable liquidity"
      else fill_at_best order top position

  -- What follows the early returns.
  unfoldable pub after_gates : AdvancedOrderIntent Q → TopOfBook Q → Q → MatchResult Q
  after_gates order top position =
      if order.constraints.post_only && crosses order top
      then reject order "post-only order would take liquidity"
      else if order.base.effect == ExposureEffect.reduce_only
          && le (reduce_only_capacity order position) d.zero
      then reject order "reduce-only order would not reduce exposure"
      else if not (crosses order top)
      then no_cross order.time_in_force order
      else execute order top position

  unfoldable pub match_order :
      AdvancedOrderIntent Q → TopOfBook Q → Q → ℕ → SessionPhase → MatchResult Q
  match_order order top position now_ns session = elim (validate order) [
    | err error ↦ reject order (error_text error)
    | ok _ ↦ elim (time_gate order.time_in_force order now_ns session) [
      | some early ↦ early
      | none ↦ after_gates order top position
    ]
  ]
