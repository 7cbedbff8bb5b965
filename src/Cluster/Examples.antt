-- ===== src/Cluster/Examples.antt =====
-- cluster.rs on a cluster of three nodes, with a concrete encoding of configurations.
use cassettedb.Prelude.Integers.{ℤ, pos, sign_of, size_of, int_of, int_of-sign_of}
use cassettedb.Prelude.{
  ℕ, zero, suc, ◌≡◌, refl, sym, ap, ◌∙◌, List, [], ◌∷◌, ◌++◌, Bool, true, false, Option, none, some,
  String, arith, length, take, drop, take-append_length, drop-append_length,
}
use cassettedb.Prelude.Errors.{ok}
use cassettedb.Bytes.{Bytes}
use cassettedb.Bytes.Text.{text_bytes, text_of, text_of-text_bytes}
use cassettedb.Raft.Node.{new, is_leader, election_due, new_volatile, init_indices}
use cassettedb.Cluster.Config.{
  NodeRole, primary_role, secondary_role, observer_role, NodeInfo, ClusterConfig, ConfigCodec,
  find_node,
}
use cassettedb.Cluster.Node.{ClusterNode, should_failover, perform_failover, tick}
use cassettedb.Cluster.Failover.{Outcome, promoted, perform_failover-SolePrimary}
use cassettedb.Cluster.Campaign.{tick_leader}

abbrev text_then : String → Bytes → Bytes
text_then s rest = length (text_bytes s) ∷ (text_bytes s ++ rest)

-- A text and the bytes after it.
abbrev read_text : Bytes → String × Bytes
read_text [] = ("", [])
read_text (n ∷ bytes) = (text_of (take n bytes), drop n bytes)

read_text-text_then : (s : String) (rest : Bytes) → read_text (text_then s rest) ≡ (s, rest)
read_text-text_then s rest = λ i. (
  (ap text_of (take-append_length (text_bytes s) rest) ∙ text_of-text_bytes s) i,
  drop-append_length (text_bytes s) rest i,
)

abbrev role_code : NodeRole → ℕ
role_code primary_role = 0
role_code secondary_role = 1
role_code observer_role = 2

abbrev role_of : ℕ → NodeRole
role_of zero = primary_role
role_of (suc zero) = secondary_role
role_of _ = observer_role

role_of-role_code : (r : NodeRole) → role_of (role_code r) ≡ r
role_of-role_code primary_role = refl
role_of-role_code secondary_role = refl
role_of-role_code observer_role = refl

abbrev nodes_bytes : List NodeInfo → Bytes
nodes_bytes [] = []
nodes_bytes (n ∷ ns) =
    role_code n.role
    ∷ sign_of n.last_seen
    ∷ size_of n.last_seen
    ∷ text_then n.id (text_then n.address (nodes_bytes ns))

abbrev node_of : ℕ → ℤ → String → String → NodeInfo
node_of role last_seen id address = record {
  id = id;
  address = address;
  role = role_of role;
  last_seen = last_seen;
}

abbrev read_node : (Bytes → List NodeInfo) → ℕ → ℤ → String × Bytes → List NodeInfo
read_node again role last_seen (id, bytes) =
    (let (address, rest) = read_text bytes in node_of role last_seen id address ∷ again rest)

abbrev read_nodes : ℕ → Bytes → List NodeInfo
read_nodes zero bytes = []
read_nodes (suc n) (role ∷ sign ∷ size ∷ bytes) =
    read_node (read_nodes n) role (int_of sign size) (read_text bytes)
read_nodes (suc n) _ = []

read_nodes-nodes_bytes : (ns : List NodeInfo) → read_nodes (length ns) (nodes_bytes ns) ≡ ns
read_nodes-nodes_bytes [] = refl
read_nodes-nodes_bytes (n ∷ ns) =
    ap
      (λ (z : ℤ).
        read_node (read_nodes (length ns)) (role_code n.role) z
          (read_text (text_then n.id (text_then n.address (nodes_bytes ns)))))
      (int_of-sign_of n.last_seen)
    ∙ ap (read_node (read_nodes (length ns)) (role_code n.role) n.last_seen)
        (read_text-text_then n.id (text_then n.address (nodes_bytes ns)))
    ∙ ap
        (λ (x : String × Bytes).
          node_of (role_code n.role) n.last_seen n.id x.0 ∷ read_nodes (length ns) x.1)
        (read_text-text_then n.address (nodes_bytes ns))
    ∙ ap
        (λ (r : NodeRole).
          record { id = n.id; address = n.address; role = r; last_seen = n.last_seen }
          ∷ read_nodes (length ns) (nodes_bytes ns))
        (role_of-role_code n.role)
    ∙ ap (◌∷◌ n) (read_nodes-nodes_bytes ns)

abbrev bool_code : Bool → ℕ
bool_code true = 1
bool_code false = 0

abbrev bool_of : ℕ → Bool
bool_of zero = false
bool_of _ = true

bool_of-bool_code : (b : Bool) → bool_of (bool_code b) ≡ b
bool_of-bool_code true = refl
bool_of-bool_code false = refl

abbrev config_bytes : ClusterConfig → Bytes
config_bytes c =
    bool_code c.failover_enabled
    ∷ c.health_check_interval_ms
    ∷ c.health_check_timeout_ms
    ∷ length c.nodes
    ∷ text_then c.cluster_id (nodes_bytes c.nodes)

abbrev config_of : Bool → ℕ → ℕ → String → List NodeInfo → ClusterConfig
config_of enabled interval timeout id nodes = record {
  cluster_id = id;
  nodes = nodes;
  failover_enabled = enabled;
  health_check_interval_ms = interval;
  health_check_timeout_ms = timeout;
}

abbrev from_slice : Bytes → Option ClusterConfig
from_slice (enabled ∷ interval ∷ timeout ∷ n ∷ bytes) =
    (let (id, rest) = read_text bytes in
      some (config_of (bool_of enabled) interval timeout id (read_nodes n rest)))
from_slice _ = none

from_slice-config_bytes : (c : ClusterConfig) → from_slice (config_bytes c) ≡ some c
from_slice-config_bytes c =
    ap
      (λ (x : String × Bytes). some (
        config_of (bool_of (bool_code c.failover_enabled)) c.health_check_interval_ms
          c.health_check_timeout_ms x.0 (read_nodes (length c.nodes) x.1)))
      (read_text-text_then c.cluster_id (nodes_bytes c.nodes))
    ∙ ap
        (λ (b : Bool). some (
          config_of b c.health_check_interval_ms c.health_check_timeout_ms c.cluster_id
            (read_nodes (length c.nodes) (nodes_bytes c.nodes))))
        (bool_of-bool_code c.failover_enabled)
    ∙ ap
        (λ (ns : List NodeInfo). some (
          config_of c.failover_enabled c.health_check_interval_ms c.health_check_timeout_ms
            c.cluster_id ns))
        (read_nodes-nodes_bytes c.nodes)

from_slice_of :
    (c : ClusterConfig) {bytes : Bytes} → ok (config_bytes c) ≡ ok bytes → from_slice bytes ≡ some c
from_slice_of c {bytes} h =
    (let same : config_bytes c ≡ bytes = cc h in
      ap from_slice (sym same) ∙ from_slice-config_bytes c)

abbrev codec : ConfigCodec
codec = record {
  to_vec_pretty = λ c. ok (config_bytes c);
  from_slice = from_slice;
  from_slice-to_vec_pretty = from_slice_of;
}

abbrev info : String → NodeRole → NodeInfo
info id role = record { id = id; address = "127.0.0.1"; role = role; last_seen = pos 0 }

abbrev three : ClusterConfig
three = record {
  cluster_id = "c";
  nodes = info "a" primary_role ∷ info "b" secondary_role ∷ info "c" observer_role ∷ [];
  failover_enabled = true;
  health_check_interval_ms = 1000;
  health_check_timeout_ms = 3000;
}

abbrev node_b : ClusterNode
node_b = record {
  local_id = "b";
  config_file = [];
  config = three;
  raft = new 0 "b" ("a" ∷ "c" ∷ []);
  health = [];
  last_failover = none;
  failover_cooldown = 5000;
}

should_failover_run : should_failover 9 node_b "a" ≡ true
unfolding should_failover find_node
should_failover_run = refl

perform_failover-SolePrimary_example :
    Outcome codec 4000 "b" node_b "a" "a"
      (perform_failover codec 9 node_b "a")
      (should_failover 9 node_b "a")
perform_failover-SolePrimary_example =
    perform_failover-SolePrimary codec 9 4000 node_b "a" "b" "a"
      (config_bytes (promoted codec node_b "a")) (refl, (refl, (refl, tt))) refl (omega arith)

tick_leader_example : ((tick 200 node_b).1 ≡ true) × (is_leader (tick 200 node_b).0.raft ≡ true)
unfolding new new_volatile init_indices election_due
tick_leader_example = tick_leader 200 node_b (λ h. cc h) refl refl (refl, (refl, tt)) (omega arith)
