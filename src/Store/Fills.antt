-- ===== src/Store/Fills.antt =====
-- rust/crates/pg-store/src/fill_ledger.rs: a fill, and what a fill must look like to be recorded.
use Prim.Native.Char.{code}
use Prim.Native.String.{◌++◌ as str_append}
use pg_tsy_core_bootstrap.Prelude.{
  ℕ, ℤ, pos, negsuc, suc, ◌+◌, String, Bool, true, false, not, ◌&&◌, ◌||◌, Option, none, some,
  Result, ok, err, ◌==◌, nat_eq, string_eq, option_eq, leb, ltb, if◌then◌else◌, is_blank, is_empty,
  nat_text, compare_ℤ, is_eq,
}
use pg_tsy_core_bootstrap.Decimal.{Decimal, le, lt, same}
use pg_tsy_core_bootstrap.Types.{Venue, Side, venue_eq, side_eq}
use pg_tsy_core_bootstrap.Oms.{OrderRecord}
use pg_tsy_core_bootstrap.Runtime.Config.{u64_text}

pub record ExecutionFill (Q : Type 0) : Type 0 where
  pub account_scope : String
  pub venue : Venue
  pub symbol : String
  pub trade_id : ℤ
  pub venue_fill_id : String
  pub venue_order_id : String
  pub client_order_id : String
  pub side : Side
  pub quantity : Q
  pub price : Q
  pub commission : Option Q
  pub commission_asset : Option String
  pub realized_pnl : Option Q
  pub trade_time_ms : Option ℤ
  pub venue_time : Option String

pub data FillInsertOutcome : Type 0 where
  inserted duplicate : FillInsertOutcome

-- `Database` and `Serialization`, the failures of the connection and of stored JSON, are left out.
pub data FillLedgerError : Type 0 where
  fencing_lost : FillLedgerError
  invalid : String → FillLedgerError
  conflict : FillLedgerError
  unowned : FillLedgerError

-- `len()`: the number of bytes in UTF-8.
abbrev char_len : ℕ → ℕ
char_len c = if ltb c 0x80 then 1 else if ltb c 0x800 then 2 else if ltb c 0x10000 then 3 else 4

unfoldable pub byte_len : String → ℕ
byte_len String.[] = 0
byte_len (String.◌∷◌ c s) = char_len (code c) + byte_len s

-- A test that ASCII characters alone can pass holds of all bytes where it holds of all characters.
unfoldable pub all_chars : (ℕ → Bool) → String → Bool
all_chars p String.[] = true
all_chars p (String.◌∷◌ c s) = p (code c) && all_chars p s

abbrev pub is_ascii_graphic : ℕ → Bool
is_ascii_graphic c = leb 33 c && leb c 126

abbrev is_ascii_digit : ℕ → Bool
is_ascii_digit c = leb 48 c && leb c 57

abbrev is_ascii_alphanumeric : ℕ → Bool
is_ascii_alphanumeric c = is_ascii_digit c || leb 65 c && leb c 90 || leb 97 c && leb c 122

abbrev is_ascii_hexdigit : ℕ → Bool
is_ascii_hexdigit c = is_ascii_digit c || leb 65 c && leb c 70 || leb 97 c && leb c 102

abbrev is_identifier_char : ℕ → Bool
is_identifier_char c =
    is_ascii_alphanumeric c || c == 95 || c == 45 || c == 46 || c == 58 || c == 47

unfoldable pub valid_identifier : String → ℕ → Bool
unfolding is_empty byte_len all_chars
valid_identifier value max_len =
    not (is_empty value) && leb (byte_len value) max_len && all_chars is_identifier_char value

-- `starts_with("pg")`, and all that follows hexadecimal.
abbrev is_client_text : String → Bool
is_client_text (String.◌∷◌ p (String.◌∷◌ g s)) =
    code p == 112 && code g == 103 && all_chars is_ascii_hexdigit s
is_client_text _ = false

-- `to_string` of an `i64`.
abbrev int_text : ℤ → String
int_text (pos n) = nat_text n
int_text (negsuc n) = str_append "-" (nat_text (suc n))

abbrev is_negative : ℤ → Bool
is_negative (pos n) = false
is_negative (negsuc n) = true

abbrev is_positive : ℤ → Bool
is_positive (pos n) = ltb 0 n
is_positive (negsuc n) = false

abbrev is_order_number : Option ℕ → Bool
is_order_number none = false
is_order_number (some id) = ltb 0 id

abbrev pub same_int : ℤ → ℤ → Bool
same_int a b = is_eq (compare_ℤ a b)

abbrev pub same_int_option : Option ℤ → Option ℤ → Bool
same_int_option none none = true
same_int_option (some a) (some b) = same_int a b
same_int_option _ _ = false

module _ {ℓ} {A : Type ℓ} where
  -- `is_some_and`.
  abbrev pub some_and : (A → Bool) → Option A → Bool
  some_and p none = false
  some_and p (some a) = p a

  abbrev pub is_some : Option A → Bool
  is_some none = false
  is_some (some a) = true

-- Boolean equality of two flags, for `!=`.
abbrev same_flag : Bool → Bool → Bool
same_flag true b = b
same_flag false b = not b

module _ {Q : Type 0} where
  unfoldable pub venue_fill_key : ExecutionFill Q → String
  venue_fill_key self =
      if is_empty self.venue_fill_id then int_text self.trade_id else self.venue_fill_id

  -- The local `valid_time`.
  unfoldable pub valid_time : ExecutionFill Q → Bool
  valid_time self =
      some_and is_positive self.trade_time_ms
      || some_and
          (λ value.
            not (is_blank value)
            && leb (byte_len value) 128
            && all_chars (λ c. is_ascii_graphic c || c == 32) value)
          self.venue_time

  unfoldable pub invalid_identity : ExecutionFill Q → Bool
  invalid_identity self =
      let venue_fill_key = venue_fill_key self in
      is_negative self.trade_id
      || not (valid_time self)
      || is_empty venue_fill_key
      || ltb 160 (byte_len venue_fill_key)
      || not (all_chars is_ascii_graphic venue_fill_key)

  unfoldable pub invalid_order_identity : ExecutionFill Q → Bool
  invalid_order_identity self =
      not (is_order_number (u64_text self.venue_order_id))
      || not (byte_len self.client_order_id == 34)
      || not (is_client_text self.client_order_id)

  unfoldable pub invalid_commission : ExecutionFill Q → Bool
  invalid_commission self =
      some_and (λ asset. not (valid_identifier asset 32)) self.commission_asset
      || not (same_flag (is_some self.commission) (is_some self.commission_asset))

module _ {Q : Type 0} ⦃d : Decimal Q⦄ where
  unfoldable pub validate : ExecutionFill Q → Result (Unit {0}) FillLedgerError
  validate self =
      if is_blank self.account_scope || ltb 128 (byte_len self.account_scope)
      then err (FillLedgerError.invalid "invalid account scope")
      else if not (valid_identifier self.symbol 64)
      then err (FillLedgerError.invalid "invalid symbol")
      else if invalid_commission self
      then err (FillLedgerError.invalid "invalid commission evidence")
      else if invalid_identity self
      then err (FillLedgerError.invalid "invalid trade identity/time")
      else if invalid_order_identity self
      then err (FillLedgerError.invalid "invalid durable order identity")
      else if le self.quantity d.zero || le self.price d.zero
      then err (FillLedgerError.invalid "invalid quantity/price")
      else ok tt

  unfoldable pub belongs_to : ExecutionFill Q → OrderRecord Q → Bool
  belongs_to self order =
      order.venue == self.venue
      && order.asset == self.symbol
      && order.client_order_id == self.client_order_id
      && order.venue_order_id == some self.venue_order_id
      && order.side == some self.side
      && not (is_blank order.owner_strategy_id)
      && lt d.zero order.requested_quantity
      && le self.quantity order.requested_quantity

  abbrev pub same_option : Option Q → Option Q → Bool
  same_option none none = true
  same_option (some a) (some b) = same a b
  same_option _ _ = false

  -- The derived `==`, which compares decimals by their value.
  unfoldable pub fill_beq : ExecutionFill Q → ExecutionFill Q → Bool
  fill_beq a b =
      a.account_scope == b.account_scope
      && a.venue == b.venue
      && a.symbol == b.symbol
      && same_int a.trade_id b.trade_id
      && a.venue_fill_id == b.venue_fill_id
      && a.venue_order_id == b.venue_order_id
      && a.client_order_id == b.client_order_id
      && a.side == b.side
      && same a.quantity b.quantity
      && same a.price b.price
      && same_option a.commission b.commission
      && a.commission_asset == b.commission_asset
      && same_option a.realized_pnl b.realized_pnl
      && same_int_option a.trade_time_ms b.trade_time_ms
      && a.venue_time == b.venue_time
