-- ===== src/Depth/Paths.antt =====
-- The ways through `apply`, `push` and `install_snapshot`, as principles of case analysis.
use pg_tsy_core_bootstrap.Prelude.{
  ℕ, ◌++◌, String, true, false, not, Option, none, some, List, [], ◌∷◌, Result, ok, Result-cases,
  if_paths, ◌≡◌, inl, inr, is_some, sym, length, leb, ◌==◌, nat_eq, BTreeMap, not-false,
}
use mathlib.Core.Path.{subst}
use pg_tsy_core_bootstrap.Decimal.{Decimal}
use pg_tsy_core_bootstrap.Depth.Bridge.{
  BinanceDepthSnapshot, BinanceDepthDelta, DepthError, L2Book, BinanceDepthBridge, parse_updates,
  parse_levels, max_buffer,
}
use pg_tsy_core_bootstrap.Depth.Update.{
  fail_with, is_stale, sequence_valid, merge, finish, apply_levels, apply_after, apply,
  is_malformed, push, bridge_snapshot, with_snapshot, install_snapshot,
}

module _ {Q : Type 0} ⦃d : Decimal Q⦄ (parse : String → Option Q) where
  module _ {ℓ} (P : BinanceDepthBridge Q × Result (Option (L2Book Q)) DepthError → Type ℓ)
      (b : BinanceDepthBridge Q) (failed : (e : DepthError) → P (fail_with b e)) where
    apply_levels_paths :
        (delta : BinanceDepthDelta) (received_ns : ℕ)
        → ((bids asks : List (Q × Q))
            → parse_updates parse delta.bids ≡ ok bids
            → parse_updates parse delta.asks ≡ ok asks
            → P (finish (merge b bids asks) delta received_ns))
        → P (apply_levels parse b delta received_ns)
    unfolding apply_levels
    apply_levels_paths delta received_ns merged =
        elim (Result-cases (parse_updates parse delta.bids)) [
          | inr (e, bad) ↦ rw (bad, apply_levels) (failed e)
          | inl (bids, good) ↦ elim (Result-cases (parse_updates parse delta.asks)) [
            | inr (e, bad) ↦ rw (good, apply_levels) (rw bad (failed e))
            | inl (asks, good') ↦ rw (good, apply_levels) (rw good' (merged bids asks good good'))
          ]
        ]

    pub apply_paths :
        (delta : BinanceDepthDelta) (received_ns last : ℕ)
        → b.last_update_id ≡ some last
        → (is_stale b delta last ≡ true → P (b, ok none))
        → ((bids asks : List (Q × Q))
            → is_stale b delta last ≡ false
            → sequence_valid b delta last ≡ true
            → parse_updates parse delta.bids ≡ ok bids
            → parse_updates parse delta.asks ≡ ok asks
            → P (finish (merge b bids asks) delta received_ns))
        → P (apply parse b delta received_ns)
    unfolding apply
    apply_paths delta received_ns last known stale merged =
        subst (λ o. P (apply_after parse o b delta received_ns)) (sym known)
          (if_paths P (is_stale b delta last) (b, ok none) _ stale
            λ new.
              if_paths P (not (sequence_valid b delta last)) (fail_with b DepthError.sequence_gap)
                (apply_levels parse b delta received_ns) (λ _. failed DepthError.sequence_gap)
                λ valid.
                  apply_levels_paths delta received_ns
                    λ bids asks. merged bids asks new (not-false _ valid))

    pub install_paths :
        (snapshot : BinanceDepthSnapshot)
        → ((bids asks : BTreeMap Q Q)
            → parse_levels parse snapshot.bids ≡ ok bids
            → parse_levels parse snapshot.asks ≡ ok asks
            → P (bridge_snapshot parse (with_snapshot b snapshot.last_update_id bids asks)))
        → P (install_snapshot parse b snapshot)
    unfolding install_snapshot
    install_paths snapshot bridged =
        if_paths P (snapshot.last_update_id == 0) (fail_with b DepthError.invalid_event) _
          (λ _. failed DepthError.invalid_event)
          λ _. elim (Result-cases (parse_levels parse snapshot.bids)) [
            | inr (e, bad) ↦ rw bad (failed e)
            | inl (bids, good) ↦ elim (Result-cases (parse_levels parse snapshot.asks)) [
              | inr (e, bad) ↦ rw good (rw bad (failed e))
              | inl (asks, good') ↦ rw good (rw good' (bridged bids asks good good'))
            ]
          ]

  pub push_paths {ℓ} :
      (P : BinanceDepthBridge Q × Result (Option (L2Book Q)) DepthError → Type ℓ)
      (b : BinanceDepthBridge Q) (delta : BinanceDepthDelta) (received_ns : ℕ)
      → ((e : DepthError) → P (fail_with b e))
      → (not (is_some b.last_update_id) ≡ true
          → P (record b { buffered = b.buffered ++ (delta, received_ns) ∷ [] }, ok none))
      → (not (is_some b.last_update_id) ≡ false → P (apply parse b delta received_ns))
      → P (push parse b delta received_ns)
  unfolding push
  push_paths P b delta received_ns failed waiting applied =
      if_paths P (is_malformed b delta received_ns) (fail_with b DepthError.invalid_event) _
        (λ _. failed DepthError.invalid_event)
        λ _.
          if_paths P (not (is_some b.last_update_id)) _ (apply parse b delta received_ns)
            (λ nothing.
              if_paths P (leb max_buffer (length b.buffered)) (fail_with b DepthError.buffer_full) _
                (λ _. failed DepthError.buffer_full) (λ _. waiting nothing))
            applied
