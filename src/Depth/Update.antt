-- ===== src/Depth/Update.antt =====
-- `push`, `install_snapshot` and `apply`. The time of an event in nanoseconds is checked to fit 64
-- bits by `push`, the only way to `apply`, so the product there needs no wrap.
use mathlib.Core.List.{reverse}
use pg_tsy_core_bootstrap.Prelude.{
  ℕ, ◌*◌, String, Bool, true, false, not, ◌&&◌, ◌||◌, Option, none, some, List, [], ◌∷◌, ◌++◌,
  Result, ok, err, is_some, leb, ltb, ◌==◌, ◌!=◌, nat_eq, string_eq, length, take, BTreeMap,
  if◌then◌else◌, checked_mul_u64,
}
use pg_tsy_core_bootstrap.Decimal.{Decimal}
use pg_tsy_core_bootstrap.Types.{Venue}
use pg_tsy_core_bootstrap.Depth.Bridge.{
  BookLevel, L2Book, max_buffer, published_levels, BinanceDepthSnapshot, BinanceDepthDelta,
  DepthError, BinanceDepthBridge, invalidate, parse_updates, parse_levels, update_levels,
  valid_book,
}

module _ {Q : Type 0} where
  abbrev pub levels_of : List (Q × Q) → List (BookLevel Q)
  levels_of [] = []
  levels_of ((price, quantity) ∷ levels) =
      record { price = price; quantity = quantity; order_count = none } ∷ levels_of levels

  -- The best bids first: `iter().rev().take(PUBLISHED_LEVELS)`.
  unfoldable pub publish : BinanceDepthBridge Q → BinanceDepthDelta → ℕ → L2Book Q
  publish self delta received_ns = record {
    venue = Venue.binance_pm;
    asset = self.symbol;
    ts_event_ns = delta.event_time_ms * 1_000_000;
    ts_recv_ns = received_ns;
    bids = levels_of (take published_levels (reverse self.bids));
    asks = levels_of (take published_levels self.asks);
    sequence = some delta.final_update_id;
    is_snapshot = false;
  }

  -- `self.invalidate(); return Err(error)`.
  abbrev pub fail_with :
      BinanceDepthBridge Q
      → DepthError
      → BinanceDepthBridge Q × Result (Option (L2Book Q)) DepthError
  fail_with self error = (invalidate self, err error)

  -- The update is older than the book.
  abbrev pub is_stale : BinanceDepthBridge Q → BinanceDepthDelta → ℕ → Bool
  is_stale self delta last =
      (self.bridged && leb delta.final_update_id last)
      || (not self.bridged && ltb delta.final_update_id last)

  abbrev pub sequence_valid : BinanceDepthBridge Q → BinanceDepthDelta → ℕ → Bool
  sequence_valid self delta last =
      if self.bridged
      then delta.pu == last
      else leb delta.first_update_id last && leb last delta.final_update_id

  unfoldable pub is_malformed : BinanceDepthBridge Q → BinanceDepthDelta → ℕ → Bool
  is_malformed self delta received_ns =
      delta.symbol != self.symbol
      || delta.first_update_id == 0
      || ltb delta.final_update_id delta.first_update_id
      || delta.event_time_ms == 0
      || not (is_some (checked_mul_u64 delta.event_time_ms 1_000_000))
      || received_ns == 0

  -- The book of a snapshot.
  abbrev pub with_snapshot :
      BinanceDepthBridge Q → ℕ → BTreeMap Q Q → BTreeMap Q Q → BinanceDepthBridge Q
  with_snapshot self last_update_id bids asks = record self {
    bids = bids;
    asks = asks;
    last_update_id = some last_update_id;
    bridged = false;
  }

  -- The latest of the books so far and a new result.
  abbrev pub latest_of : Option (L2Book Q) → Option (L2Book Q) → Option (L2Book Q)
  latest_of latest none = latest
  latest_of latest (some book) = some book

module _ {Q : Type 0} ⦃d : Decimal Q⦄ where
  -- The book after the levels of an update.
  unfoldable pub merge : BinanceDepthBridge Q → List (Q × Q) → List (Q × Q) → BinanceDepthBridge Q
  merge self bids asks = record self {
    bids = update_levels bids self.bids;
    asks = update_levels asks self.asks;
  }

  -- The end of `apply`, on the updated book.
  unfoldable pub finish :
      BinanceDepthBridge Q
      → BinanceDepthDelta
      → ℕ
      → BinanceDepthBridge Q × Result (Option (L2Book Q)) DepthError
  finish self delta received_ns =
      if not (valid_book self)
      then fail_with self DepthError.invalid_book
      else let self = record self { bridged = true; last_update_id = some delta.final_update_id } in
        (self, ok (some (publish self delta received_ns)))

module _ {Q : Type 0} ⦃d : Decimal Q⦄ (parse : String → Option Q) where
  unfoldable pub apply_levels :
      BinanceDepthBridge Q
      → BinanceDepthDelta
      → ℕ
      → BinanceDepthBridge Q × Result (Option (L2Book Q)) DepthError
  apply_levels self delta received_ns = elim (parse_updates parse delta.bids) [
    | err error ↦ fail_with self error
    | ok bids ↦ elim (parse_updates parse delta.asks) [
      | err error ↦ fail_with self error
      | ok asks ↦ finish (merge self bids asks) delta received_ns
    ]
  ]

  abbrev pub apply_after :
      Option ℕ
      → BinanceDepthBridge Q
      → BinanceDepthDelta
      → ℕ
      → BinanceDepthBridge Q × Result (Option (L2Book Q)) DepthError
  apply_after none self delta received_ns = (self, err DepthError.sequence_gap)
  apply_after (some last) self delta received_ns =
      if is_stale self delta last
      then (self, ok none)
      else if not (sequence_valid self delta last)
      then fail_with self DepthError.sequence_gap
      else apply_levels self delta received_ns

  unfoldable pub apply :
      BinanceDepthBridge Q
      → BinanceDepthDelta
      → ℕ
      → BinanceDepthBridge Q × Result (Option (L2Book Q)) DepthError
  apply self delta received_ns = apply_after self.last_update_id self delta received_ns

  unfoldable pub push :
      BinanceDepthBridge Q
      → BinanceDepthDelta
      → ℕ
      → BinanceDepthBridge Q × Result (Option (L2Book Q)) DepthError
  push self delta received_ns =
      if is_malformed self delta received_ns
      then fail_with self DepthError.invalid_event
      else if not (is_some self.last_update_id)
      then if leb max_buffer (length self.buffered)
        then fail_with self DepthError.buffer_full
        else (record self { buffered = self.buffered ++ (delta, received_ns) ∷ [] }, ok none)
      else apply self delta received_ns

  -- The `while let` over the buffer, which is popped before each update is applied.
  unfoldable pub drain :
      List (BinanceDepthDelta × ℕ)
      → BinanceDepthBridge Q
      → Option (L2Book Q)
      → BinanceDepthBridge Q × Result (Option (L2Book Q)) DepthError
  drain [] self latest = (record self { buffered = [] }, ok latest)
  drain ((delta, received_ns) ∷ rest) self latest =
      let (self', result) = apply (record self { buffered = rest }) delta received_ns in
      elim result [
        | err error ↦ (self', err error)
        | ok book ↦ drain rest self' (latest_of latest book)
      ]

  abbrev pub bridge_snapshot :
      BinanceDepthBridge Q → BinanceDepthBridge Q × Result (Option (L2Book Q)) DepthError
  bridge_snapshot self =
      if not (valid_book self)
      then fail_with self DepthError.invalid_book
      else drain self.buffered self none

  unfoldable pub install_snapshot :
      BinanceDepthBridge Q
      → BinanceDepthSnapshot
      → BinanceDepthBridge Q × Result (Option (L2Book Q)) DepthError
  install_snapshot self snapshot =
      if snapshot.last_update_id == 0
      then fail_with self DepthError.invalid_event
      else elim (parse_levels parse snapshot.bids) [
        | err error ↦ fail_with self error
        | ok bids ↦ elim (parse_levels parse snapshot.asks) [
          | err error ↦ fail_with self error
          | ok asks ↦ bridge_snapshot (with_snapshot self snapshot.last_update_id bids asks)
        ]
      ]
