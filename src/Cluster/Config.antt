-- ===== src/Cluster/Config.antt =====
-- cluster.rs: `NodeInfo`, `NodeRole` and `ClusterConfig`.
use cassettedb.Prelude.Integers.{ℤ}
use cassettedb.Prelude.{
  ℕ, ◌≡◌, Bool, true, false, not, Option, none, some, String, List, [], ◌∷◌, ◌++◌, any, find?,
  retain, str_eq, if◌then◌else◌,
}
use cassettedb.Prelude.Errors.{Result, ok, err, serialization}
use cassettedb.Bytes.{Bytes}
use cassettedb.Raft.Types.{NodeId}

pub data NodeRole : Type 0 where
  primary_role secondary_role observer_role : NodeRole

pub record NodeInfo : Type 0 where
  pub id : NodeId
  pub address : String
  pub role : NodeRole
  pub last_seen : ℤ

pub record ClusterConfig : Type 0 where
  pub cluster_id : String
  pub nodes : List NodeInfo
  pub failover_enabled : Bool
  pub health_check_interval_ms : ℕ
  pub health_check_timeout_ms : ℕ

abbrev pub is_primary : NodeRole → Bool
is_primary primary_role = true
is_primary _ = false

abbrev pub is_observer : NodeRole → Bool
is_observer observer_role = true
is_observer _ = false

-- `ClusterConfig::new`
unfoldable pub new_config : String → NodeInfo → ClusterConfig
new_config cluster_id seed = record {
  cluster_id = cluster_id;
  nodes = seed ∷ [];
  failover_enabled = true;
  health_check_interval_ms = 1000;
  health_check_timeout_ms = 3000;
}

unfoldable pub find_node : ClusterConfig → NodeId → Option NodeInfo
find_node cfg id = find? (λ (n : NodeInfo). str_eq n.id id) cfg.nodes

unfoldable pub add_node : ClusterConfig → NodeInfo → ClusterConfig
add_node cfg node =
    if not (any (λ (n : NodeInfo). str_eq n.id node.id) cfg.nodes)
    then record cfg { nodes = cfg.nodes ++ node ∷ [] }
    else cfg

unfoldable pub remove_node : ClusterConfig → NodeId → ClusterConfig
remove_node cfg id = record cfg {
  nodes = retain (λ (n : NodeInfo). not (str_eq n.id id)) cfg.nodes;
}

unfoldable pub voting_nodes : ClusterConfig → List NodeInfo
voting_nodes cfg = retain (λ (n : NodeInfo). not (is_observer n.role)) cfg.nodes

unfoldable pub primary : ClusterConfig → Option NodeInfo
primary cfg = find? (λ (n : NodeInfo). is_primary n.role) cfg.nodes

-- serde_json on a configuration.
pub record ConfigCodec : Type 0 where
  pub to_vec_pretty : ClusterConfig → Result Bytes
  pub from_slice : Bytes → Option ClusterConfig
  pub from_slice-to_vec_pretty :
      (cfg : ClusterConfig) {bytes : Bytes}
      → to_vec_pretty cfg ≡ ok bytes
      → from_slice bytes ≡ some cfg

-- `ClusterConfig::load` of a file with this content.
abbrev pub loaded : Option ClusterConfig → Result ClusterConfig
loaded none = err serialization
loaded (some cfg) = ok cfg

unfoldable pub load_config : ConfigCodec → Bytes → Result ClusterConfig
load_config codec file = loaded (codec.from_slice file)
