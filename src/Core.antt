-- ===== src/Core.antt =====
-- crates/cherenkov-core: the hub, its sessions, and the traits behind which its parts stand.
pub mod Types
pub mod Namespace
pub mod Traits
pub mod Session
pub mod Hub
