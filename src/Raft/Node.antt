-- ===== src/Raft/Node.antt =====
-- The node of the cluster that `RaftManager::new` is: crates/overlay-mcp-raft/src/session_manager.rs and
-- crates/overlay-mcp-core/src/config/server.rs. hiqlite's own configuration is a parameter, and so is its
-- `start_node_with_cache`.
pub mod Resolved
use overlay_mcp.Base.{
  String, ℕ, zero, suc, ◌<◌, ◌≤◌, nat_eq, ◌≡◌, refl, sym, ap, ap₂, ◌∙◌, subst, ◌↔◌, ◌⊎◌, inl, inr,
  arith, Bool, Bool-cases, true, false, Option, none, some, List, [], ◌∷◌, map, length, get_elem?,
  get_elem?-some, Result, ok, err, ok_or, if◌then◌else◌,
}
use overlay_mcp.Core.Errors.{Error, FatalError, fatal, raft_unresolved_node_id}
use overlay_mcp.Core.Action.{Action, continue}

pub record Node : Type 0 where
  pub id : ℕ
  pub api : String
  pub raft : String
  pub read_pool_size : ℕ

pub record RaftConfig (Cluster : Type 0) : Type 0 where
  pub id : Option ℕ
  pub index : Option ℕ
  pub secret : String
  pub cluster : Cluster
  pub nodes : List Node

-- `hiqlite::Node` and `hiqlite::NodeConfig`, the fields that are set.
pub record HiqliteNode : Type 0 where
  pub id : ℕ
  pub addr_raft : String
  pub addr_api : String

pub record NodeConfig (Cluster : Type 0) : Type 0 where
  pub node_id : ℕ
  pub raft_config : Cluster
  pub secret_raft : String
  pub secret_api : String
  pub nodes : List HiqliteNode
  pub read_pool_size : ℕ

abbrev pub unresolved : String → Error
unresolved what = fatal (raft_unresolved_node_id what)

-- `config.nodes[*index].id`
abbrev pub id_at : Option Node → Option (Result ℕ Error)
id_at none = none
id_at (some node) = some (ok node.id)

-- `none` is a panic.
abbrev pub node_id_of : List Node → (id index : Option ℕ) → Option (Result ℕ Error)
node_id_of nodes (some id) none = some (ok id)
node_id_of nodes none (some index) = id_at (get_elem? nodes index)
node_id_of nodes (some _) (some _) =
    some (err (unresolved "both id and index are set, only one should be set"))
node_id_of nodes none none =
    some (err (unresolved "both id and index are not set, one should be set"))

unfoldable pub find_node : (node_id : ℕ) → List Node → Option Node
find_node node_id [] = none
find_node node_id (node ∷ nodes) =
    let later = find_node node_id nodes in if nat_eq node.id node_id then some node else later

abbrev pub hiqlite_node : Node → HiqliteNode
hiqlite_node node = record { id = node.id; addr_raft = node.raft; addr_api = node.api }

module _ {Cluster : Type 0} where
  unfoldable pub node_id : RaftConfig Cluster → Option (Result ℕ Error)
  node_id config = node_id_of config.nodes config.id config.index

  abbrev pub config_for : RaftConfig Cluster → ℕ → Option Node → Result (NodeConfig Cluster) Error
  config_for config node_id none = err (unresolved "node not found")
  config_for config node_id (some current_node) = ok (record {
    node_id = node_id;
    raft_config = config.cluster;
    secret_raft = config.secret;
    secret_api = config.secret;
    nodes = map hiqlite_node config.nodes;
    read_pool_size = current_node.read_pool_size;
  })

  abbrev pub config_with :
      RaftConfig Cluster → Option (Result ℕ Error) → Option (Result (NodeConfig Cluster) Error)
  config_with config none = none
  config_with config (some (err e)) = some (err e)
  config_with config (some (ok node_id)) =
      some (config_for config node_id (find_node node_id config.nodes))

  unfoldable pub node_config : RaftConfig Cluster → Option (Result (NodeConfig Cluster) Error)
  node_config config = config_with config (node_id config)

-- `none` is the panic.
abbrev pub started_node :
    {Cluster W A : Type 0}
    → (NodeConfig Cluster → Action W A)
    → W
    → Option (Result (NodeConfig Cluster) Error)
    → Option (Result A Error × W)
started_node start_node_with_cache w none = none
started_node start_node_with_cache w (some r) = some (continue r start_node_with_cache w)

-- `RaftManager::new` up to its task: what the node's client is for it.
unfoldable pub connect :
    {Cluster W A : Type 0} (start_node_with_cache : NodeConfig Cluster → Action W A)
    (config : RaftConfig Cluster)
    → W
    → Option (Result A Error × W)
connect start_node_with_cache config w = started_node start_node_with_cache w (node_config config)
