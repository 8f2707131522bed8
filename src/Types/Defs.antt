-- ===== src/Types/Defs.antt =====
-- pg-types/src/lib.rs: venues, signals, intents.
use Prim.Native.String.{◌++◌ as str_append}
use pg_tsy_core_bootstrap.Prelude.{
  ℕ, ◌↔◌, ◌≡◌, String, Bool, true, false, Option, arith, leb, Eq, ◌==◌, ◌&&◌, string_eq, nat_beq,
}

pub data Venue : Type 0 where
  binance_pm hyperliquid interactive_brokers : Venue

-- The names that `{:?}` prints.
abbrev pub venue_name : Venue → String
venue_name Venue.binance_pm = "BinancePm"
venue_name Venue.hyperliquid = "Hyperliquid"
venue_name Venue.interactive_brokers = "InteractiveBrokers"

abbrev pub venue_code : Venue → ℕ
venue_code Venue.binance_pm = 0
venue_code Venue.hyperliquid = 1
venue_code Venue.interactive_brokers = 2

abbrev pub venue_beq : Venue → Venue → Bool
venue_beq a b = nat_beq (venue_code a) (venue_code b)

pub venue_beq_iff : (a b : Venue) → (venue_beq a b ≡ true) ↔ (a ≡ b)
venue_beq_iff a b = ground arith

instance abbrev pub venue_eq : Eq Venue
venue_eq = record { beq = venue_beq; beq_iff = venue_beq_iff }

pub record AssetKey : Type 0 where
  pub venue : Venue
  pub asset : String

abbrev pub asset_key_beq : AssetKey → AssetKey → Bool
asset_key_beq a b = a.venue == b.venue && a.asset == b.asset

pub asset_key_beq_iff : (a b : AssetKey) → (asset_key_beq a b ≡ true) ↔ (a ≡ b)
asset_key_beq_iff a b = ground (arith, string_eq.beq_iff a.asset b.asset)

instance abbrev pub asset_key_eq : Eq AssetKey
asset_key_eq = record { beq = asset_key_beq; beq_iff = asset_key_beq_iff }

pub record Signal (F : Type 0) : Type 0 where
  pub schema_version : String
  pub signal_id : String
  pub alpha_id : String
  pub asset : String
  pub venue : Venue
  pub score : F
  pub confidence : F
  pub horizon_ms : ℕ
  pub created_at_ns : ℕ
  pub expires_at_ns : ℕ
  pub model_version : Option String
  pub feature_set : Option String

unfoldable pub is_expired : {F : Type 0} → Signal F → ℕ → Bool
is_expired signal now_ns = leb signal.expires_at_ns now_ns

pub data Side : Type 0 where
  buy sell : Side

abbrev pub side_beq : Side → Side → Bool
side_beq Side.buy Side.buy = true
side_beq Side.sell Side.sell = true
side_beq _ _ = false

pub side_beq_iff : (a b : Side) → (side_beq a b ≡ true) ↔ (a ≡ b)
side_beq_iff a b = ground arith

instance abbrev pub side_eq : Eq Side
side_eq = record { beq = side_beq; beq_iff = side_beq_iff }

pub data ExposureEffect : Type 0 where
  increase reduce_only : ExposureEffect

abbrev pub effect_beq : ExposureEffect → ExposureEffect → Bool
effect_beq ExposureEffect.increase ExposureEffect.increase = true
effect_beq ExposureEffect.reduce_only ExposureEffect.reduce_only = true
effect_beq _ _ = false

pub effect_beq_iff : (a b : ExposureEffect) → (effect_beq a b ≡ true) ↔ (a ≡ b)
effect_beq_iff a b = ground arith

instance abbrev pub effect_eq : Eq ExposureEffect
effect_eq = record { beq = effect_beq; beq_iff = effect_beq_iff }

abbrev pub Uuid : Type 0
Uuid = ℕ

pub record PositionTarget (Q : Type 0) : Type 0 where
  pub target_id : Uuid
  pub strategy_id : String
  pub asset : String
  pub venue : Venue
  pub target_quantity : Q
  pub source_signal_id : Option String
  pub created_at_ns : ℕ

pub record OrderIntent (Q : Type 0) : Type 0 where
  pub intent_id : Uuid
  pub strategy_id : String
  pub asset : String
  pub venue : Venue
  pub side : Side
  pub quantity : Q
  pub limit_price : Option Q
  pub effect : ExposureEffect
  pub source_signal_id : Option String

-- `simple` is the uuid crate's text form: 32 hexadecimal digits.
unfoldable pub client_order_id : {Q : Type 0} → (Uuid → String) → OrderIntent Q → String
client_order_id simple intent = str_append "pg" (simple intent.intent_id)

-- `PositionTarget::asset_key` and `OrderIntent::asset_key`.
unfoldable pub target_key : {Q : Type 0} → PositionTarget Q → AssetKey
target_key target = record { venue = target.venue; asset = target.asset }

unfoldable pub intent_key : {Q : Type 0} → OrderIntent Q → AssetKey
intent_key intent = record { venue = intent.venue; asset = intent.asset }

pub data RiskDecision : Type 0 where
  allow : RiskDecision
  reject : String → String → RiskDecision
