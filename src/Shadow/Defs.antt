-- ===== src/Shadow/Defs.antt =====
-- The simulated venue's data. The book and the reference price are one state, which every clone of
-- the adapter shares behind its locks; a lock that a panic poisoned is not modelled.
use pg_tsy_core_bootstrap.Prelude.{
  ℕ, ℤ, pos, negsuc, suc, String, Bool, true, Option, none, List, [], BTreeMap, Eq, nat_beq, ◌≡◌,
  ◌↔◌, arith, ltb, is_eq, compare_ℤ, if◌then◌else◌,
}
use pg_tsy_core_bootstrap.Decimal.{Decimal, lt}
use pg_tsy_core_bootstrap.Types.{Venue}
use pg_tsy_core_bootstrap.Execution.{VenueOrderSnapshot, VenueOrderState}

pub data ShadowFillMode : Type 0 where
  rest immediate_fill : ShadowFillMode

abbrev pub mode_code : ShadowFillMode → ℕ
mode_code ShadowFillMode.rest = 0
mode_code ShadowFillMode.immediate_fill = 1

abbrev pub mode_beq : ShadowFillMode → ShadowFillMode → Bool
mode_beq a b = nat_beq (mode_code a) (mode_code b)

pub mode_beq_iff : (a b : ShadowFillMode) → (mode_beq a b ≡ true) ↔ (a ≡ b)
mode_beq_iff a b = ground arith

instance abbrev pub mode_eq : Eq ShadowFillMode
mode_eq = record { beq = mode_beq; beq_iff = mode_beq_iff }

pub record ShadowAdapterConfig : Type 0 where
  pub venue : Venue
  pub fill_mode : ShadowFillMode

pub record ShadowPosition (Q : Type 0) : Type 0 where
  pub net_quantity : Q
  pub average_entry_price : Option Q
  pub filled_entries : ℕ

pub record ShadowBook (Q : Type 0) : Type 0 where
  pub orders : List (VenueOrderSnapshot Q)
  pub positions : BTreeMap String (ShadowPosition Q)
  pub next_order_id : ℕ

-- What the adapter holds beside its configuration.
pub record Shadow (Q : Type 0) : Type 0 where
  pub book : ShadowBook Q
  pub reference_price : Option Q

abbrev pub u32_max : ℕ
u32_max = 4294967295

abbrev pub u64_max : ℕ
u64_max = 18446744073709551615

-- `saturating_add(1)` on a number of at most `max`.
abbrev pub saturating_suc : ℕ → ℕ → ℕ
saturating_suc max n = if ltb n max then suc n else max

-- The names that `{:?}` prints.
abbrev pub venue_state_name : VenueOrderState → String
venue_state_name VenueOrderState.opened = "Open"
venue_state_name VenueOrderState.partially_filled = "PartiallyFilled"
venue_state_name VenueOrderState.filled = "Filled"
venue_state_name VenueOrderState.canceled = "Canceled"
venue_state_name VenueOrderState.rejected = "Rejected"
venue_state_name VenueOrderState.unknown = "Unknown"

-- `Open | PartiallyFilled`.
abbrev pub is_working : VenueOrderState → Bool
is_working VenueOrderState.opened = true
is_working VenueOrderState.partially_filled = true
is_working _ = Bool.false

module _ {Q : Type 0} ⦃d : Decimal Q⦄ where
  unfoldable pub sign_of : Q → ℤ
  sign_of value = if lt d.zero value then pos 1 else if lt value d.zero then negsuc 0 else pos 0

  abbrev pub same_sign : Q → Q → Bool
  same_sign a b = is_eq (compare_ℤ (sign_of a) (sign_of b))

  -- `ShadowPosition::default()`.
  abbrev pub no_position : ShadowPosition Q
  no_position = record { net_quantity = d.zero; average_entry_price = none; filled_entries = 0 }

module _ {Q : Type 0} where
  -- `ShadowExecutionAdapter::new`: the default book and no reference price.
  abbrev pub new_shadow : Shadow Q
  new_shadow = record {
    book = record { orders = []; positions = []; next_order_id = 0 };
    reference_price = none;
  }
