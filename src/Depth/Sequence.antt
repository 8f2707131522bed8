-- ===== src/Depth/Sequence.antt =====
-- The books that `push` publishes: the sequence of update ids and the prices.
use mathlib.Core.Path.{subst}
use pg_tsy_core_bootstrap.Prelude.{
  ℕ, String, Bool, true, false, not, Option, none, some, Result, ok, ◌≡◌, refl, leb, ltb, ◌==◌,
  nat_eq, ◌<◌, ◌⊎◌, first_key, last_key, if◌then◌else◌, ◌&&◌, ◌||◌, if_paths, not-false, arith, ◌≤◌,
  inl, inr,
}
use pg_tsy_core_bootstrap.Decimal.{Decimal, lt, decimal_ord}
use pg_tsy_core_bootstrap.Depth.Bridge.{
  BinanceDepthDelta, DepthError, L2Book, BinanceDepthBridge, valid_book, is_uncrossed,
}
use pg_tsy_core_bootstrap.Depth.Update.{
  merge, finish, fail_with, apply, push, publish, is_stale, sequence_valid,
}
use pg_tsy_core_bootstrap.Depth.FailClosed.{known_last}
use pg_tsy_core_bootstrap.Depth.Paths.{apply_paths, push_paths}

module _ {Q : Type 0} ⦃d : Decimal Q⦄ where
  -- What holds of a published book: the update follows the last one, or bridges the snapshot, and
  -- the bridge that it leaves is on this update with a valid book.
  abbrev pub Follows :
      BinanceDepthBridge Q
      → BinanceDepthDelta
      → ℕ
      → BinanceDepthBridge Q × Result (Option (L2Book Q)) DepthError
      → Type 0
  Follows b delta received_ns (b', ok (some book)) =
      ((last : ℕ) × (b.last_update_id ≡ some last)
        × (is_stale b delta last ≡ false)
        × (sequence_valid b delta last ≡ true))
      × (b'.last_update_id ≡ some delta.final_update_id)
      × (b'.bridged ≡ true)
      × (valid_book b' ≡ true)
      × (book ≡ publish b' delta received_ns)
  Follows _ _ _ _ = Unit {0}

  finish-Follows :
      (b start : BinanceDepthBridge Q) (delta : BinanceDepthDelta) (received_ns last : ℕ)
      → b.last_update_id ≡ some last
      → is_stale b delta last ≡ false
      → sequence_valid b delta last ≡ true
      → Follows b delta received_ns (finish start delta received_ns)
  unfolding finish valid_book publish
  finish-Follows b start delta received_ns last known fresh valid =
      if_paths (Follows b delta received_ns) (not (valid_book start))
        (fail_with start DepthError.invalid_book) _ (λ _. tt)
        λ h. ((last, known, fresh, valid), refl, refl, not-false _ h, refl)

module _ {Q : Type 0} ⦃d : Decimal Q⦄ (parse : String → Option Q) where
  apply-Follows :
      (b : BinanceDepthBridge Q) (delta : BinanceDepthDelta) (received_ns last : ℕ)
      → b.last_update_id ≡ some last
      → Follows b delta received_ns (apply parse b delta received_ns)
  apply-Follows b delta received_ns last known =
      apply_paths parse (Follows b delta received_ns) b (λ _. tt) delta received_ns last known
        (λ _. tt)
        λ bids asks fresh valid _ _.
          finish-Follows b (merge b bids asks) delta received_ns last known fresh valid

  push-Follows :
      (b : BinanceDepthBridge Q) (delta : BinanceDepthDelta) (received_ns : ℕ)
      → Follows b delta received_ns (push parse b delta received_ns)
  push-Follows b delta received_ns =
      push_paths parse (Follows b delta received_ns) b delta received_ns (λ _. tt) (λ _. tt)
        λ h.
          let (last, known) = known_last b.last_update_id h in
          apply-Follows b delta received_ns last known

  -- When `push` publishes a book, the bridge had an update id, and the update either is beyond it
  -- and names it as its predecessor (`pu`), on a bridge already joined to the stream, or covers it
  -- by its range of ids, on one that is not. The bridge then stands at the last id of the update
  -- and is joined to the stream, its best bid is below its best ask, and the book is the one
  -- published from it.
  pub push-book :
      (b b' : BinanceDepthBridge Q) (delta : BinanceDepthDelta) (received_ns : ℕ) (book : L2Book Q)
      → push parse b delta received_ns ≡ (b', ok (some book))
      → ((last : ℕ) × (b.last_update_id ≡ some last)
          × (((b.bridged ≡ true) × (last < delta.final_update_id) × (delta.pu ≡ last))
              ⊎ ((b.bridged ≡ false)
                  × (delta.first_update_id ≤ last)
                  × (last ≤ delta.final_update_id))))
        × (b'.last_update_id ≡ some delta.final_update_id)
        × (b'.bridged ≡ true)
        × ((bid : Q) × (ask : Q) × (last_key b'.bids ≡ some bid)
            × (first_key b'.asks ≡ some ask)
            × (lt bid ask ≡ true))
        × (book ≡ publish b' delta received_ns)
  unfolding valid_book
  push-book b b' delta received_ns book h =
      let ((last, known, fresh, valid), at, joined, sound, published) =
        subst (Follows b delta received_ns) h (push-Follows b delta received_ns) in
      (
        (last, known, position b.bridged delta last fresh valid),
        at,
        joined,
        best_prices (last_key b'.bids) (first_key b'.asks) sound,
        published,
      )
    where
      position :
          (bridged : Bool) (delta : BinanceDepthDelta) (last : ℕ)
          → (bridged && leb delta.final_update_id last)
              || (not bridged && ltb delta.final_update_id last)
            ≡ false
          → (if bridged
              then delta.pu == last
              else leb delta.first_update_id last && leb last delta.final_update_id)
            ≡ true
          → ((bridged ≡ true) × (last < delta.final_update_id) × (delta.pu ≡ last))
            ⊎ ((bridged ≡ false) × (delta.first_update_id ≤ last) × (last ≤ delta.final_update_id))
      position true delta last fresh valid = inl (refl, ground arith, ground arith)
      position false delta last fresh valid = inr (refl, ground arith, ground arith)

      best_prices :
          (bid ask : Option Q)
          → is_uncrossed bid ask ≡ true
          → (x : Q) × (y : Q) × (bid ≡ some x) × (ask ≡ some y) × (lt x y ≡ true)
      best_prices (some x) (some y) h = (x, y, refl, refl, h)
      best_prices none ask h = ground arith
      best_prices (some _) none h = ground arith
