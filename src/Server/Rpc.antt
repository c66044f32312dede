-- ===== src/Server/Rpc.antt =====
-- The requests of the app server: `handle_rpc` of crates/gamchi/src/app_server.rs and its
-- functions, one child per group.
pub mod Params
pub mod Replies
pub mod Threads
pub mod Turns
pub mod Handle
