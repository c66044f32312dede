-- ===== src/Server.antt =====
-- The app server: crates/gamchi/src/app_server.rs.
pub mod Bytes
pub mod Utf8
pub mod Upgrade
pub mod Listen
pub mod Frame
pub mod Rpc
pub mod Connection
pub mod Watch
pub mod Loop
