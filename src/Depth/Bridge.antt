-- ===== src/Depth/Bridge.antt =====
-- The data of the bridge. `parse` is `Decimal::from_str` of the decimal crate.
use pg_tsy_core_bootstrap.Prelude.{
  ℕ, String, Bool, false, ◌||◌, Option, none, some, List, [], ◌∷◌, Result, ok, err, ◌>>=◌, ok_or,
  BTreeMap, insert, remove, first_key, last_key, if◌then◌else◌,
}
use pg_tsy_core_bootstrap.Decimal.{Decimal, decimal_ord, le, lt, is_zero}
use pg_tsy_core_bootstrap.Types.{Venue}

-- rust/crates/pg-marketdata/src/lib.rs.
pub record BookLevel (Q : Type 0) : Type 0 where
  pub price : Q
  pub quantity : Q
  pub order_count : Option ℕ

pub record L2Book (Q : Type 0) : Type 0 where
  pub venue : Venue
  pub asset : String
  pub ts_event_ns : ℕ
  pub ts_recv_ns : ℕ
  pub bids : List (BookLevel Q)
  pub asks : List (BookLevel Q)
  pub sequence : Option ℕ
  pub is_snapshot : Bool

abbrev pub max_buffer : ℕ
max_buffer = 2048

abbrev pub published_levels : ℕ
published_levels = 50

pub record BinanceDepthSnapshot : Type 0 where
  pub last_update_id : ℕ
  pub bids : List (String × String)
  pub asks : List (String × String)

pub record BinanceDepthDelta : Type 0 where
  pub symbol : String
  pub event_time_ms : ℕ
  pub first_update_id : ℕ
  pub final_update_id : ℕ
  pub pu : ℕ
  pub bids : List (String × String)
  pub asks : List (String × String)

pub data DepthError : Type 0 where
  invalid_event invalid_level sequence_gap buffer_full invalid_book : DepthError

pub record BinanceDepthBridge (Q : Type 0) : Type 0 where
  pub symbol : String
  pub bids : BTreeMap Q Q
  pub asks : BTreeMap Q Q
  pub last_update_id : Option ℕ
  pub bridged : Bool
  pub buffered : List (BinanceDepthDelta × ℕ)

module _ {Q : Type 0} where
  -- `BinanceDepthBridge::new`.
  unfoldable pub new : String → BinanceDepthBridge Q
  new symbol = record {
    symbol = symbol;
    bids = [];
    asks = [];
    last_update_id = none;
    bridged = false;
    buffered = [];
  }

  unfoldable pub invalidate : BinanceDepthBridge Q → BinanceDepthBridge Q
  invalidate self = record self {
    bids = [];
    asks = [];
    last_update_id = none;
    bridged = false;
    buffered = [];
  }

module _ {Q : Type 0} ⦃d : Decimal Q⦄ where
  -- The check of one level, once it is parsed.
  abbrev pub checked_level : Q → Q → Result (Q × Q) DepthError
  checked_level price quantity =
      if le price d.zero || lt quantity d.zero
      then err DepthError.invalid_level
      else ok (price, quantity)

  -- The loop of `parse_levels`: a zero quantity makes no level.
  unfoldable pub collect_levels : List (Q × Q) → BTreeMap Q Q → BTreeMap Q Q
  collect_levels [] book = book
  collect_levels ((price, quantity) ∷ levels) book =
      collect_levels levels (if is_zero quantity then book else insert price quantity book)

module _ {Q : Type 0} ⦃d : Decimal Q⦄ (parse : String → Option Q) where
  -- One level of `parse_updates`.
  unfoldable pub parse_level : String × String → Result (Q × Q) DepthError
  parse_level (price_text, quantity_text) = do
    price ← ok_or (parse price_text) DepthError.invalid_level
    quantity ← ok_or (parse quantity_text) DepthError.invalid_level
    checked_level price quantity

  -- `parse_updates`, which stops at the first level that is refused.
  unfoldable pub parse_updates : List (String × String) → Result (List (Q × Q)) DepthError
  unfolding parse_level
  parse_updates [] = ok []
  parse_updates (level ∷ levels) = do
    first ← parse_level level
    rest ← parse_updates levels
    ok (first ∷ rest)

  unfoldable pub parse_levels : List (String × String) → Result (BTreeMap Q Q) DepthError
  unfolding parse_updates collect_levels
  parse_levels levels = do updates ← parse_updates levels; ok (collect_levels updates [])

module _ {Q : Type 0} ⦃d : Decimal Q⦄ where
  -- The loops of `apply`: a zero quantity removes the level.
  unfoldable pub update_levels : List (Q × Q) → BTreeMap Q Q → BTreeMap Q Q
  update_levels [] book = book
  update_levels ((price, quantity) ∷ levels) book =
      update_levels levels
        (if is_zero quantity then remove price book else insert price quantity book)

  abbrev pub is_uncrossed : Option Q → Option Q → Bool
  is_uncrossed (some bid) (some ask) = lt bid ask
  is_uncrossed _ _ = false

  unfoldable pub valid_book : BinanceDepthBridge Q → Bool
  valid_book self = is_uncrossed (last_key self.bids) (first_key self.asks)
