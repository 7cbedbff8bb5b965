-- ===== src/Cluster/Node.antt =====
-- cluster.rs: `ClusterNode` and the calls of `ClusterManager`. The directory of the configuration is
-- the content of its one file; of writing it only the encoding can fail. Instants are milliseconds
-- of the clock, whose reading `now` is an argument. An operation gives the node also where it fails.
use cassettedb.Prelude.Integers.{pos}
use cassettedb.Prelude.{
  ℕ, ◌+◌, ◌-◌, ◌%◌, ◌^◌, Bool, true, false, not, ◌&&◌, ◌||◌, Option, none, some, String, List, [],
  ◌∷◌, map, retain, ltb, leb, str_eq, str_ltb, if◌then◌else◌,
}
use cassettedb.Prelude.Map
use cassettedb.Prelude.Map.{Map}
use cassettedb.Prelude.Errors.{Result, ok, err, cluster, ◌>>=◌}
use cassettedb.Bytes.{Bytes}
use cassettedb.Raft.Types.{
  NodeId, LogIndex, ClusterCommand, RaftRole, leader, RequestVoteRequest, RaftNode,
}
use cassettedb.Raft.Node
use cassettedb.Raft.Node.{
  is_leader, propose, start_election, handle_request_vote, record_vote, election_due,
}
use cassettedb.Raft.Append.{add_peer, remove_peer, apply_committed}
use cassettedb.Cluster.Config
use cassettedb.Cluster.Config.{
  NodeRole, primary_role, secondary_role, NodeInfo, ClusterConfig, is_primary, new_config,
  find_node, ConfigCodec, load_config,
}

pub data HealthStatus : Type 0 where
  healthy unhealthy unknown : HealthStatus

pub record HealthRecord : Type 0 where
  pub status : HealthStatus
  pub last_heartbeat : ℕ
  pub missed_beats : ℕ

pub record ClusterNode : Type 0 where
  pub local_id : NodeId
  pub config_file : Bytes
  pub config : ClusterConfig
  pub raft : RaftNode
  pub health : Map HealthRecord
  pub last_failover : Option ℕ
  pub failover_cooldown : ℕ

-- `peers.sort()`
abbrev insert_id : NodeId → List NodeId → List NodeId
insert_id id [] = id ∷ []
insert_id id (x ∷ xs) = if str_ltb x id then x ∷ insert_id id xs else id ∷ x ∷ xs

abbrev pub sort_ids : List NodeId → List NodeId
sort_ids [] = []
sort_ids (x ∷ xs) = insert_id x (sort_ids xs)

abbrev skip_equal : NodeId → List NodeId → List NodeId
skip_equal x [] = []
skip_equal x (y ∷ ys) = if str_eq x y then ys else y ∷ ys

-- `peers.dedup()`: of equal neighbours the first stays.
abbrev pub dedup : List NodeId → List NodeId
dedup [] = []
dedup (x ∷ xs) = x ∷ skip_equal x (dedup xs)

unfoldable pub peers_of : NodeId → ClusterConfig → List NodeId
peers_of local_id cfg =
    dedup
      (sort_ids (retain (λ id. not (str_eq id local_id)) (map (λ (n : NodeInfo). n.id) cfg.nodes)))

abbrev node_with : ℕ → NodeId → Bytes → ClusterConfig → List NodeId → ClusterNode
node_with now local_id config_file config peers = record {
  local_id = local_id;
  config_file = config_file;
  config = config;
  raft = Node.new now local_id peers;
  health = [];
  last_failover = none;
  failover_cooldown = 5000;
}

abbrev pub missed : ℕ → Option HealthRecord → HealthRecord
missed now none = record { status = unknown; last_heartbeat = now; missed_beats = 0 }
missed now (some r) = r

abbrev pub worse : HealthRecord → HealthRecord
worse r =
    let beats : ℕ = (r.missed_beats + 1) % 2 ^ 32 in
    record r { missed_beats = beats; status = if leb 3 beats then unhealthy else r.status }

unfoldable pub record_heartbeat : ℕ → ClusterNode → NodeId → ClusterNode
record_heartbeat now n peer = record n {
  health =
      Map.insert n.health peer
        (record { status = healthy; last_heartbeat = now; missed_beats = 0 });
}

unfoldable pub record_missed_heartbeat : ℕ → ClusterNode → NodeId → ClusterNode
record_missed_heartbeat now n peer = record n {
  health = Map.insert n.health peer (worse (missed now (Map.get n.health peer)));
}

unfoldable pub health_snapshot : ClusterNode → Map HealthStatus
health_snapshot n = map (λ (e : String × HealthRecord). (e.0, e.1.status)) n.health

abbrev pub cooled : ℕ → ℕ → Option ℕ → Bool
cooled now cooldown none = true
cooled now cooldown (some t) = not (ltb (now - t) cooldown)

abbrev pub is_failed_primary : Option NodeInfo → Bool
is_failed_primary none = false
is_failed_primary (some node) = is_primary node.role

unfoldable pub should_failover : ℕ → ClusterNode → NodeId → Bool
should_failover now n failed_node =
    n.config.failover_enabled
    && (is_failed_primary (find_node n.config failed_node)
        && (not (str_eq n.local_id failed_node) && cooled now n.failover_cooldown n.last_failover))

-- The body of the loop over the nodes in `perform_failover`: both tests, the second last.
abbrev pub reassign : NodeId → NodeId → NodeInfo → NodeInfo
reassign failed_node local_id n =
    if str_eq n.id local_id
    then record n { role = primary_role }
    else if str_eq n.id failed_node
    then record n { role = secondary_role }
    else n

abbrev pub candidates : NodeId → List NodeId → List NodeId
candidates local_id peers = retain (λ p. not (str_eq p local_id)) peers

-- The loop of `tick` that asks each peer for its vote.
unfoldable pub collect_votes : ℕ → RequestVoteRequest → List NodeId → RaftNode → RaftNode × Bool
collect_votes now req [] raft = (raft, false)
collect_votes now req (peer ∷ peers) raft =
    let (asked, res) = handle_request_vote now raft req in
    let (counted, elected) = record_vote asked peer res in
    let (last, later) = collect_votes now req peers counted in (last, elected || later)

unfoldable pub beat_all : ℕ → List NodeId → ClusterNode → ClusterNode
unfolding record_heartbeat
beat_all now [] n = n
beat_all now (peer ∷ peers) n = beat_all now peers (record_heartbeat now n peer)

abbrev pub campaign : ℕ → ClusterNode → ClusterNode × Bool
campaign now n =
    let (raft, req) = start_election now n.raft in
    let (voted, became_leader) = collect_votes now req (candidates n.local_id raft.peers) raft in
    (record n { raft = voted }, became_leader)

abbrev pub tick_as : ℕ → ClusterNode → RaftRole → ClusterNode × Bool
tick_as now n leader =
    (let beaten : ClusterNode = beat_all now n.raft.peers n in
      (record beaten { raft = (apply_committed beaten.raft).0 }, false))
tick_as now n _ = if election_due now n.raft then campaign now n else (n, false)

-- `tick`: the heartbeats of a leader are built and dropped.
unfoldable pub tick : ℕ → ClusterNode → ClusterNode × Bool
tick now n = tick_as now n n.raft.volatile.role

module _ (codec : ConfigCodec) where
  abbrev initialized : ℕ → NodeId → ClusterConfig → Result Bytes → Result ClusterNode
  initialized now local_id config (err e) = err e
  initialized now local_id config (ok file) = ok (node_with now local_id file config [])

  unfoldable pub init_cluster : ℕ → ℕ → String → NodeId → String → Result ClusterNode
  init_cluster now timestamp cluster_id local_id address =
      let config : ClusterConfig = new_config cluster_id (record {
        id = local_id;
        address = address;
        role = primary_role;
        last_seen = pos timestamp;
      }) in
      initialized now local_id config (codec.to_vec_pretty config)

  -- The directory is left as it is.
  unfoldable pub join_cluster : ℕ → NodeId → Bytes → ClusterConfig → ClusterNode
  join_cluster now local_id config_file config =
      node_with now local_id config_file config (peers_of local_id config)

  -- `ClusterNode::load`
  unfoldable pub load_node : ℕ → NodeId → Bytes → Result ClusterNode
  load_node now local_id config_file = do
    config ← load_config codec config_file
    ok (node_with now local_id config_file config (peers_of local_id config))

  abbrev pub saved : ClusterNode → Result Bytes → ClusterNode × Result (Unit {0})
  saved n (err e) = (n, err e)
  saved n (ok file) = (record n { config_file = file }, ok tt)

  unfoldable pub save_config : ClusterNode → ClusterNode × Result (Unit {0})
  save_config n = saved n (codec.to_vec_pretty n.config)

  abbrev proposed : ClusterNode → RaftNode × Result LogIndex → ClusterNode × Result (Unit {0})
  proposed n (raft, err e) = (record n { raft = raft }, err e)
  proposed n (raft, ok index) = (record n { raft = raft }, ok tt)

  abbrev announced :
      RaftNode → ClusterCommand → ClusterNode × Result (Unit {0}) → ClusterNode × Result (Unit {0})
  announced raft command (n, err e) = (n, err e)
  announced raft command (n, ok t) = proposed n (propose raft command)

  unfoldable pub add_node : ClusterNode → NodeInfo → ClusterNode × Result (Unit {0})
  unfolding save_config
  add_node n node =
      if not (is_leader n.raft)
      then (n, err (cluster "only the leader can add nodes"))
      else announced (add_peer n.raft node.id) (ClusterCommand.add_node node.id node.address)
          (save_config (record n { config = Config.add_node n.config node }))

  unfoldable pub remove_node : ClusterNode → NodeId → ClusterNode × Result (Unit {0})
  unfolding save_config
  remove_node n node_id =
      if not (is_leader n.raft)
      then (n, err (cluster "only the leader can remove nodes"))
      else announced (remove_peer n.raft node_id) (ClusterCommand.remove_node node_id)
          (save_config (record n { config = Config.remove_node n.config node_id }))

  abbrev pub failed_over : ℕ → ClusterNode × Result (Unit {0}) → ClusterNode × Result (Unit {0})
  failed_over now (n, err e) = (n, err e)
  failed_over now (n, ok t) = (record n { last_failover = some now }, ok tt)

  unfoldable pub perform_failover : ℕ → ClusterNode → NodeId → ClusterNode × Result (Unit {0})
  unfolding should_failover save_config
  perform_failover now n failed_node =
      if not (should_failover now n failed_node)
      then (n, err (cluster "failover preconditions not met"))
      else failed_over now (
          save_config (record n {
            config = record n.config {
              nodes =
                  map {A = NodeInfo} {B = NodeInfo} (reassign failed_node n.local_id)
                    n.config.nodes;
            };
          }))

  unfoldable pub set_failover_enabled : ClusterNode → Bool → ClusterNode × Result (Unit {0})
  unfolding save_config
  set_failover_enabled n enabled =
      save_config (record n { config = record n.config { failover_enabled = enabled } })
