-- ===== src/Matching/Policy.antt =====
-- What time in force and the constraints of an order promise of `match_order`.
use pg_tsy_core_bootstrap.Prelude.{
  ℕ, true, none, ◌≡◌, ◌≢◌, refl, ◌⊎◌, inl, inr, arith, pos, if_paths, ◌&&◌,
}
use pg_tsy_core_bootstrap.Decimal.{Decimal, IsLawful, units-sub_self, lt, le, is_zero, ◌≼◌, ◌≈◌}
use pg_tsy_core_bootstrap.Types.Advanced.{TimeInForce, AdvancedOrderIntent}
use pg_tsy_core_bootstrap.Matching.Match.{
  SessionPhase, TopOfBook, MatchResult, MatchDisposition, executable, execute, fill_at_best,
  match_order, reject, expire, is_fok,
}
use pg_tsy_core_bootstrap.Matching.Paths.{match_order_paths}
use pg_tsy_core_bootstrap.Matching.Fill.{executable-le-quantity}

module _ {Q : Type 0} ⦃d : Decimal Q⦄ where
  -- A post-only order never trades on entry, whatever the book, the position and the session are.
  pub match_order-post_only :
      (order : AdvancedOrderIntent Q) (top : TopOfBook Q) (position : Q) (now_ns : ℕ)
      (session : SessionPhase)
      → order.constraints.post_only ≡ true
      → ((match_order order top position now_ns session).fill_price ≡ none)
        × ((match_order order top position now_ns session).filled_quantity ≡ d.zero)
  match_order-post_only order top position now_ns session p =
      match_order_paths (λ r. (r.fill_price ≡ none) × (r.filled_quantity ≡ d.zero)) order top
        position (λ reason. unfold reject in (refl, refl)) now_ns session
        (λ r h. unfold expire in ground arith) (λ _. ground arith) (λ _ _ takes. cc)

  abbrev pub AllOrNothing : AdvancedOrderIntent Q → MatchResult Q → Type 0
  AllOrNothing order r =
      ((r.disposition ≡ MatchDisposition.filled) × (r.filled_quantity ≈ order.base.quantity))
      ⊎ (((r.disposition ≡ MatchDisposition.canceled) ⊎ (r.disposition ≡ MatchDisposition.rejected))
          × (r.filled_quantity ≡ d.zero))

  is_zero_of : (a : Q) → d.units a ≡ pos 0 → d.units d.zero ≡ pos 0 → is_zero a ≡ true
  is_zero_of a h k = ground arith

  whole_disposition :
      (order : AdvancedOrderIntent Q) (top : TopOfBook Q) (position : Q)
      → IsLawful d
      → order.base.quantity ≼ executable order top position
      → (fill_at_best order top position).disposition ≡ MatchDisposition.filled
  unfolding fill_at_best
  whole_disposition order top position lawful whole =
      let quantity = executable order top position in
      let none_left =
        units-sub_self order.base.quantity quantity lawful
          (omega (arith, executable-le-quantity order top position)) in
      let remaining = d.sub order.base.quantity quantity in
      let test = is_zero_of remaining none_left lawful.units_zero in
      if_paths (λ x. x ≡ MatchDisposition.filled) (is_zero remaining) MatchDisposition.filled _
        (λ _. refl) (λ other. cc)

  fill_fok :
      (order : AdvancedOrderIntent Q) (top : TopOfBook Q) (position : Q)
      → IsLawful d
      → order.base.quantity ≼ executable order top position
      → AllOrNothing order (fill_at_best order top position)
  unfolding fill_at_best
  fill_fok order top position lawful whole =
      let most = executable-le-quantity order top position in
      inl (whole_disposition order top position lawful whole, omega arith)

  execute_fok :
      (order : AdvancedOrderIntent Q) (top : TopOfBook Q) (position : Q)
      → IsLawful d
      → order.time_in_force ≡ TimeInForce.fok
      → AllOrNothing order (execute order top position)
  unfolding execute reject
  execute_fok order top position lawful t =
      let quantity = executable order top position in
      if_paths (AllOrNothing order) (is_fok order.time_in_force && lt quantity order.base.quantity)
        _ _ (λ _. inr (inl refl, refl))
        λ enough.
          if_paths (AllOrNothing order) (le quantity d.zero) _ (fill_at_best order top position)
            (λ _. inr (inr refl, refl)) λ _. fill_fok order top position lawful (ground arith)

  -- With lawful decimals, a fill-or-kill order is filled whole, or it is canceled or rejected with
  -- nothing filled.
  pub match_order-fok :
      (order : AdvancedOrderIntent Q) (top : TopOfBook Q) (position : Q) (now_ns : ℕ)
      (session : SessionPhase)
      → IsLawful d
      → order.time_in_force ≡ TimeInForce.fok
      → AllOrNothing order (match_order order top position now_ns session)
  match_order-fok order top position now_ns session lawful t =
      match_order_paths (AllOrNothing order) order top position
        (λ reason. unfold reject in inr (inr refl, refl)) now_ns session
        (λ r h. unfold expire in ground arith) (λ _. ground arith)
        (λ _ _ _. execute_fok order top position lawful t)

  abbrev pub NeverRests : MatchResult Q → Type 0
  NeverRests r = r.disposition ≢ MatchDisposition.resting

  execute_ioc :
      (order : AdvancedOrderIntent Q) (top : TopOfBook Q) (position : Q)
      → order.time_in_force ≡ TimeInForce.ioc
      → NeverRests (execute order top position)
  unfolding execute fill_at_best reject
  execute_ioc order top position t = ground arith

  -- An immediate-or-cancel order never rests in the book.
  pub match_order-ioc :
      (order : AdvancedOrderIntent Q) (top : TopOfBook Q) (position : Q) (now_ns : ℕ)
      (session : SessionPhase)
      → order.time_in_force ≡ TimeInForce.ioc
      → NeverRests (match_order order top position now_ns session)
  match_order-ioc order top position now_ns session t =
      match_order_paths NeverRests order top position (λ reason. unfold reject in ground arith)
        now_ns session (λ r h. unfold expire in ground arith) (λ _. ground arith)
        (λ _ _ _. execute_ioc order top position t)
