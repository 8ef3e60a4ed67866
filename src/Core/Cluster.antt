-- ===== src/Core/Cluster.antt =====
-- `ClusterConfig` of crates/overlay-mcp-core/src/config/server.rs.
pub data ClusterConfig (RaftConfig : Type 0) : Type 0 where
  none : ClusterConfig RaftConfig
  raft : RaftConfig → ClusterConfig RaftConfig
