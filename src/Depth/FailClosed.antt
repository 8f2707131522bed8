-- ===== src/Depth/FailClosed.antt =====
-- `push` and `install_snapshot` on errors: an update or a snapshot that is refused leaves an empty
-- bridge, which waits for a new snapshot.
use pg_tsy_core_bootstrap.Prelude.{
  ℕ, String, true, false, Option, none, some, List, [], ◌∷◌, Result, ok, err, ◌≡◌, refl, arith,
  is_some, inl, inr, ◌⊎◌, if_paths, not-false, not,
}
use mathlib.Core.Path.{subst}
use pg_tsy_core_bootstrap.Decimal.{Decimal}
use pg_tsy_core_bootstrap.Depth.Bridge.{
  BinanceDepthSnapshot, BinanceDepthDelta, DepthError, L2Book, BinanceDepthBridge, new, invalidate,
  valid_book,
}
use pg_tsy_core_bootstrap.Depth.Update.{
  merge, finish, fail_with, apply, push, drain, install_snapshot, latest_of, with_snapshot,
}
use pg_tsy_core_bootstrap.Depth.Paths.{apply_paths, push_paths, install_paths}

pub known_last : (o : Option ℕ) → not (is_some o) ≡ false → (last : ℕ) × (o ≡ some last)
known_last none h = ground arith
known_last (some last) _ = (last, refl)

module _ {Q : Type 0} ⦃d : Decimal Q⦄ where
  -- A result with the bridge that it leaves: emptied on an error, and otherwise of the same symbol.
  abbrev pub Closes : String → BinanceDepthBridge Q × Result (Option (L2Book Q)) DepthError → Type 0
  Closes symbol (b, err e) = b ≡ new symbol
  Closes symbol (b, ok book) = b.symbol ≡ symbol

  -- The same, with a book on success.
  abbrev pub Continues :
      String → BinanceDepthBridge Q × Result (Option (L2Book Q)) DepthError → Type 0
  Continues symbol (b, err e) = b ≡ new symbol
  Continues symbol (b, ok book) = (b.symbol ≡ symbol) × (not (is_some b.last_update_id) ≡ false)

  Continues-Closes :
      (symbol : String) (x : BinanceDepthBridge Q × Result (Option (L2Book Q)) DepthError)
      → Continues symbol x
      → Closes symbol x
  Continues-Closes symbol (b, err e) h = h
  Continues-Closes symbol (b, ok book) (same, _) = same

  invalidate-new : (b : BinanceDepthBridge Q) → invalidate b ≡ new b.symbol
  unfolding invalidate new
  invalidate-new b = refl

  finish-Continues :
      (b : BinanceDepthBridge Q) (delta : BinanceDepthDelta) (received_ns : ℕ)
      → Continues b.symbol (finish b delta received_ns)
  unfolding finish
  finish-Continues b delta received_ns =
      if_paths (Continues b.symbol) (not (valid_book b)) (fail_with b DepthError.invalid_book) _
        (λ _. invalidate-new b) (λ _. (refl, refl))

  merge_symbol :
      (b : BinanceDepthBridge Q) (bids asks : List (Q × Q)) → (merge b bids asks).symbol ≡ b.symbol
  unfolding merge
  merge_symbol b bids asks = refl

module _ {Q : Type 0} ⦃d : Decimal Q⦄ (parse : String → Option Q) where
  apply-Continues :
      (b : BinanceDepthBridge Q) (delta : BinanceDepthDelta) (received_ns : ℕ)
      → not (is_some b.last_update_id) ≡ false
      → Continues b.symbol (apply parse b delta received_ns)
  apply-Continues b delta received_ns h =
      let (last, known) = known_last b.last_update_id h in
      apply_paths parse (Continues b.symbol) b (λ _. invalidate-new b) delta received_ns last known
        (λ _. (refl, h))
        λ bids asks _ _ _ _.
          subst (λ symbol. Continues symbol (finish (merge b bids asks) delta received_ns))
            (merge_symbol b bids asks) (finish-Continues (merge b bids asks) delta received_ns)

  push-Closes :
      (b : BinanceDepthBridge Q) (delta : BinanceDepthDelta) (received_ns : ℕ)
      → Closes b.symbol (push parse b delta received_ns)
  push-Closes b delta received_ns =
      push_paths parse (Closes b.symbol) b delta received_ns (λ _. invalidate-new b) (λ _. refl)
        λ h. Continues-Closes b.symbol _ (apply-Continues b delta received_ns h)

  drain_next :
      (symbol : String) (rest : List (BinanceDepthDelta × ℕ)) (latest : Option (L2Book Q))
      (x : BinanceDepthBridge Q × Result (Option (L2Book Q)) DepthError)
      → ((b' : BinanceDepthBridge Q) (latest : Option (L2Book Q))
          → b'.symbol ≡ symbol
          → not (is_some b'.last_update_id) ≡ false
          → Continues symbol (drain parse rest b' latest))
      → Continues symbol x
      → Continues {Q = Q} symbol (
          let (b', result) = x in
          elim result [
            | err error ↦ (b', err error)
            | ok book ↦ drain parse rest b' (latest_of latest book)
          ])
  drain_next symbol rest latest (b', err error) drained closed = closed
  drain_next symbol rest latest (b', ok book) drained (same, known) =
      drained b' (latest_of latest book) same known

  drain-Continues :
      (queue : List (BinanceDepthDelta × ℕ)) (b : BinanceDepthBridge Q) (latest : Option (L2Book Q))
      → not (is_some b.last_update_id) ≡ false
      → Continues b.symbol (drain parse queue b latest)
  unfolding drain
  drain-Continues [] b latest h = (refl, h)
  drain-Continues ((delta, received_ns) ∷ rest) b latest h =
      drain_next b.symbol rest latest (apply parse (record b { buffered = rest }) delta received_ns)
        (λ b' latest same known.
          subst (λ symbol. Continues symbol (drain parse rest b' latest)) same
            (drain-Continues rest b' latest known))
        (apply-Continues (record b { buffered = rest }) delta received_ns h)

  install_snapshot-Continues :
      (b : BinanceDepthBridge Q) (snapshot : BinanceDepthSnapshot)
      → Continues b.symbol (install_snapshot parse b snapshot)
  install_snapshot-Continues b snapshot =
      install_paths parse (Continues b.symbol) b (λ _. invalidate-new b) snapshot
        λ bids asks _ _.
          let start = with_snapshot b snapshot.last_update_id bids asks in
          if_paths (Continues b.symbol) (not (valid_book start))
            (fail_with start DepthError.invalid_book) _ (λ _. invalidate-new start)
            λ _. drain-Continues b.buffered start none refl

  -- When `push` or `install_snapshot` returns an error, whatever the error is and wherever in the
  -- buffered updates it occurs, the bridge that it leaves is a new bridge of the same symbol: no
  -- level, no update id and no buffered update is kept.
  pub errors_reset :
      (b b' : BinanceDepthBridge Q) (delta : BinanceDepthDelta) (received_ns : ℕ)
      (snapshot : BinanceDepthSnapshot) (e : DepthError)
      → ((push parse b delta received_ns ≡ (b', err e))
          ⊎ (install_snapshot parse b snapshot ≡ (b', err e)))
      → b' ≡ new b.symbol
  errors_reset b b' delta received_ns snapshot e (inl h) =
      subst (Closes b.symbol) h (push-Closes b delta received_ns)
  errors_reset b b' delta received_ns snapshot e (inr h) =
      subst (Continues b.symbol) h (install_snapshot-Continues b snapshot)

  -- When `install_snapshot` succeeds, the bridge that it leaves has the same symbol and an update
  -- id.
  pub install_snapshot_ok :
      (b b' : BinanceDepthBridge Q) (snapshot : BinanceDepthSnapshot) (book : Option (L2Book Q))
      → install_snapshot parse b snapshot ≡ (b', ok book)
      → (b'.symbol ≡ b.symbol) × (is_some b'.last_update_id ≡ true)
  install_snapshot_ok b b' snapshot book h =
      let (same, known) = subst (Continues b.symbol) h (install_snapshot-Continues b snapshot) in
      (same, not-false _ known)
