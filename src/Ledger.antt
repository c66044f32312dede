-- ===== src/Ledger.antt =====
-- The disk ledger (crates/core/src/ledger.rs): one module for each group of operations, with the
-- proofs in the modules below it.
pub mod Error
pub mod Ids
pub mod Process
pub mod Waiters
pub mod State
pub mod Exec
pub mod Call
pub mod Files
pub mod Live
pub mod Observe
pub mod Admit
pub mod Listing
pub mod Approval
pub mod Items
pub mod Wait
pub mod Evolve
pub mod Keeps
pub mod Safety
pub mod Post
pub mod Methods
pub mod Reach
