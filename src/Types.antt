-- ===== src/Types.antt =====
-- The shared vocabulary: rust/crates/pg-types/src/lib.rs. A `Uuid` is its 128-bit number, and its
-- text form (`simple`, of the uuid crate) is an argument. The floats of a signal are a type `F`.
-- `Signal.metadata`, JSON that the crates only carry along, is left out.
mod Defs
pub mod Advanced
pub mod Keys
pub mod Validation
mod Examples
pub use Defs.{
  Venue, venue_name, AssetKey, asset_key_eq, Signal, Side, ExposureEffect, Uuid, PositionTarget,
  OrderIntent, RiskDecision, venue_eq, side_eq, effect_eq,
}
unfoldable pub use Defs.{is_expired, client_order_id, target_key, intent_key}
