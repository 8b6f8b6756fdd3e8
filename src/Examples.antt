-- ===== src/Examples.antt =====
-- A server to run the theorems on, and tests and instances of the theorems, part by part.
pub mod Toy
pub mod Texts
pub mod Protocols
pub mod Histories
pub mod Brokers
pub mod Hubs
pub mod Rules
pub mod Builders
pub mod Schemas
pub mod Connections
pub mod Streams
pub mod Documents
pub mod Servers
pub mod Networks
pub mod Startups
