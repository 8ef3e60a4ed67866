-- ===== src/Core.antt =====
-- crates/overlay-mcp-core: the types that the other crates share.
pub mod Json
pub mod Errors
pub mod Models
pub mod Config
pub mod Responses
pub mod Action
pub mod Runs
pub mod General
pub mod Slots
pub mod Cluster
pub mod Stream
pub mod Guard
pub mod Application
