-- ===== src/Server.antt =====
-- crates/cherenkov-server/src: the settings, and how a hub is built from them.
pub mod Config
pub mod Kinds
pub mod Parts
pub mod Build
pub mod Startup
