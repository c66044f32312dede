-- ===== src/Grok.antt =====
-- The Grok adapter: `crates/adapter-grok`.
pub mod Tool
pub mod Map
pub mod Defaults
pub mod Launch
pub mod Begin
pub mod Permission
pub mod Confined
pub mod Stop
pub mod Teardown
