-- ===== src/Wire.antt =====
-- The wire vocabulary (crates/core/src/source_wire.rs): policies, statuses, the durable records.
mod Policy
mod Status
mod Records
pub mod RoundTrip
unfoldable pub use Policy.*
unfoldable pub use Status.*
pub use Records.*
