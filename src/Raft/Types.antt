-- ===== src/Raft/Types.antt =====
-- raft.rs: the data types. Instants and durations are numbers of one clock, whose reading is an
-- argument of each operation that asks for it. The mutexes make each operation one atomic step.
use cassettedb.Prelude.{ℕ, ◌^◌, String, Bool, Option, List}
use cassettedb.Prelude.Map.{Map}
use cassettedb.Shard.ShardMap.{ShardMap}

abbrev pub NodeId : Type 0
NodeId = String

abbrev pub Term : Type 0
Term = ℕ

abbrev pub LogIndex : Type 0
LogIndex = ℕ

-- `Term` and `LogIndex` are `u64`, whose sums wrap.
abbrev pub u64_mod : ℕ
u64_mod = 2 ^ 64

pub data ClusterCommand : Type 0 where
  no_op : ClusterCommand
  add_node : NodeId → String → ClusterCommand
  remove_node : NodeId → ClusterCommand
  update_shard_map : ShardMap → ClusterCommand
  begin_dist_tx : String → List NodeId → ClusterCommand
  commit_dist_tx abort_dist_tx : String → ClusterCommand

pub record LogEntry : Type 0 where
  pub index : LogIndex
  pub term : Term
  pub command : ClusterCommand

pub data RaftRole : Type 0 where
  follower candidate leader : RaftRole

abbrev pub is_leader_role : RaftRole → Bool
is_leader_role leader = Bool.true
is_leader_role _ = Bool.false

abbrev pub is_candidate_role : RaftRole → Bool
is_candidate_role candidate = Bool.true
is_candidate_role _ = Bool.false

pub record PersistentState : Type 0 where
  pub current_term : Term
  pub voted_for : Option NodeId
  pub log : List LogEntry

pub record RequestVoteRequest : Type 0 where
  pub term : Term
  pub candidate_id : NodeId
  pub last_log_index : LogIndex
  pub last_log_term : Term

pub record RequestVoteResponse : Type 0 where
  pub term : Term
  pub vote_granted : Bool

pub record AppendEntriesRequest : Type 0 where
  pub term : Term
  pub leader_id : NodeId
  pub prev_log_index : LogIndex
  pub prev_log_term : Term
  pub entries : List LogEntry
  pub leader_commit : LogIndex

pub record AppendEntriesResponse : Type 0 where
  pub term : Term
  pub success : Bool
  pub match_index : LogIndex

pub record VolatileState : Type 0 where
  pub commit_index : LogIndex
  pub last_applied : LogIndex
  pub role : RaftRole
  pub leader_id : Option NodeId
  pub last_heartbeat : ℕ
  pub votes_received : List NodeId
  pub next_index : Map LogIndex
  pub match_index : Map LogIndex
  pub election_timeout : ℕ
  pub heartbeat_interval : ℕ

pub record RaftNode : Type 0 where
  pub node_id : NodeId
  pub peers : List NodeId
  pub persistent : PersistentState
  pub volatile : VolatileState
