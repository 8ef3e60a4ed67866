-- ===== src/Raft.antt =====
-- crates/overlay-mcp-raft: sessions that several nodes share over a raft cluster.
pub mod Schema
pub mod Session
pub mod Cluster
pub mod Simulation
pub mod Election
pub mod Alone
pub mod Relay
pub mod Manager
pub mod Node
pub mod Examples
