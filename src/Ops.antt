-- ===== src/Ops.antt =====
-- What the command line and the facades share: crates/gamchi/src/ops.rs.
pub mod Host
pub mod Request
pub mod Cancel
pub mod Report
