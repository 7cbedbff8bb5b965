-- ===== src/Raft/Node.antt =====
-- raft.rs, `impl RaftNode`: construction, proposals, elections and heartbeats.
use cassettedb.Prelude.{
  ℕ, ◌+◌, ◌-◌, ◌/◌, ◌%◌, Bool, true, false, not, ◌&&◌, ◌||◌, Option, none, some, List, [], ◌∷◌,
  ◌++◌, length, any, ltb, leb, ◌==◌, str_eq, if◌then◌else◌,
}
use cassettedb.Prelude.Map
use cassettedb.Prelude.Map.{Map}
use cassettedb.Prelude.Errors.{Result, ok, err, cluster}
use cassettedb.Raft.Types.{
  NodeId, LogIndex, u64_mod, ClusterCommand, follower, candidate, leader, is_leader_role,
  is_candidate_role, RequestVoteRequest, RequestVoteResponse, AppendEntriesRequest, VolatileState,
  RaftNode,
}
use cassettedb.Raft.Log
use cassettedb.Raft.Log.{last_index, last_term, entry, term_or_zero}

-- `VolatileState::new` at the reading `now` of the clock.
unfoldable pub new_volatile : ℕ → ℕ → ℕ → VolatileState
new_volatile now election_timeout_ms heartbeat_interval_ms = record {
  commit_index = 0;
  last_applied = 0;
  role = follower;
  leader_id = none;
  last_heartbeat = now;
  votes_received = [];
  next_index = [];
  match_index = [];
  election_timeout = election_timeout_ms;
  heartbeat_interval = heartbeat_interval_ms;
}

-- The loops `for peer in &peers` that set both indices of every peer.
unfoldable pub init_indices : List NodeId → LogIndex → VolatileState → VolatileState
init_indices [] next v = v
init_indices (peer ∷ peers) next v = init_indices peers next (record v {
  next_index = Map.insert v.next_index peer next;
  match_index = Map.insert v.match_index peer 0;
})

unfoldable pub new : ℕ → NodeId → List NodeId → RaftNode
unfolding new_volatile init_indices
new now node_id peers = record {
  node_id = node_id;
  peers = peers;
  persistent = Log.new;
  volatile = init_indices peers 1 (new_volatile now 150 50);
}

unfoldable pub is_leader : RaftNode → Bool
is_leader n = is_leader_role n.volatile.role

unfoldable pub propose : RaftNode → ClusterCommand → RaftNode × Result LogIndex
unfolding Log.append
propose n command =
    if not (is_leader_role n.volatile.role)
    then (n, err (cluster "only leader can propose commands"))
    else (let (p, index) = Log.append n.persistent n.persistent.current_term command in
        (record n { persistent = p }, ok index))

-- The handlers that see a higher term in a vote or in an answer do this first.
unfoldable pub adopt_term : ℕ → RaftNode → RaftNode
adopt_term term n = record n {
  persistent = record n.persistent { current_term = term; voted_for = none };
  volatile = record n.volatile { role = follower; leader_id = none };
}

unfoldable pub start_election : ℕ → RaftNode → RaftNode × RequestVoteRequest
unfolding last_term
start_election now n =
    let term : ℕ = (n.persistent.current_term + 1) % u64_mod in
    (
      record n {
        persistent = record n.persistent { current_term = term; voted_for = some n.node_id };
        volatile = record n.volatile {
          role = candidate;
          votes_received = n.node_id ∷ [];
          last_heartbeat = now;
        };
      },
      record {
        term = term;
        candidate_id = n.node_id;
        last_log_index = last_index n.persistent.log;
        last_log_term = last_term n.persistent.log;
      },
    )

-- `voted_for.is_none() || voted_for.as_ref() == Some(&candidate_id)`
abbrev pub can_vote : Option NodeId → NodeId → Bool
can_vote none c = true
can_vote (some d) c = str_eq d c

-- `handle_request_vote` from the comparison of logs on.
unfoldable pub decide_vote : ℕ → RaftNode → RequestVoteRequest → RaftNode × RequestVoteResponse
decide_vote now n req =
    let log_ok : Bool =
      ltb (last_term n.persistent.log) req.last_log_term
      || (req.last_log_term == last_term n.persistent.log
          && leb (last_index n.persistent.log) req.last_log_index) in
    let vote_granted : Bool = log_ok && can_vote n.persistent.voted_for req.candidate_id in
    (
      (if vote_granted
          then record n {
            persistent = record n.persistent { voted_for = some req.candidate_id };
            volatile = record n.volatile { last_heartbeat = now };
          }
          else n),
      record { term = n.persistent.current_term; vote_granted = vote_granted },
    )

-- `if req.term > p.current_term { ... }`
unfoldable pub newer_term : ℕ → RaftNode → RaftNode
unfolding adopt_term
newer_term term n = if ltb n.persistent.current_term term then adopt_term term n else n

-- `handle_request_vote` from the comparison with an older term on.
unfoldable pub answer_vote : ℕ → RaftNode → RequestVoteRequest → RaftNode × RequestVoteResponse
unfolding decide_vote
answer_vote now n req =
    if ltb req.term n.persistent.current_term
    then (n, record { term = n.persistent.current_term; vote_granted = false })
    else decide_vote now n req

unfoldable pub handle_request_vote :
    ℕ → RaftNode → RequestVoteRequest → RaftNode × RequestVoteResponse
unfolding newer_term answer_vote
handle_request_vote now n req = answer_vote now (newer_term req.term n) req

abbrev pub quorum : RaftNode → ℕ
quorum n = (length n.peers + 1) / 2 + 1

-- `votes_received.contains(&voter)`
abbrev pub contains : List NodeId → NodeId → Bool
contains xs x = any (λ y. str_eq y x) xs

-- `record_vote` from the new vote on: count, and take the lead with a quorum.
unfoldable pub count_vote : RaftNode → NodeId → Bool → RaftNode × Bool
count_vote n voter granted =
    let votes : List NodeId =
      if granted && not (contains n.volatile.votes_received voter)
      then n.volatile.votes_received ++ voter ∷ []
      else n.volatile.votes_received in
    let v : VolatileState = record n.volatile { votes_received = votes } in
    if leb (quorum n) (length votes)
    then (
      record n {
        volatile =
            init_indices n.peers (last_index n.persistent.log + 1)
              (record v { role = leader; leader_id = some n.node_id });
      },
      true,
    )
    else (record n { volatile = v }, false)

unfoldable pub record_vote : RaftNode → NodeId → RequestVoteResponse → RaftNode × Bool
unfolding adopt_term
record_vote n voter res =
    if ltb n.persistent.current_term res.term
    then (adopt_term res.term n, false)
    else if ltb res.term n.persistent.current_term || not (is_candidate_role n.volatile.role)
    then (n, false)
    else count_vote n voter res.vote_granted

-- `get(peer).copied().unwrap_or(1)`
abbrev pub next_index_or_one : Option LogIndex → LogIndex
next_index_or_one none = 1
next_index_or_one (some i) = i

unfoldable pub heartbeat_for : RaftNode → NodeId → AppendEntriesRequest
unfolding entry
heartbeat_for n peer =
    let prev : ℕ = next_index_or_one (Map.get n.volatile.next_index peer) - 1 in
    record {
      term = n.persistent.current_term;
      leader_id = n.node_id;
      prev_log_index = prev;
      prev_log_term = term_or_zero (entry n.persistent.log prev);
      entries = [];
      leader_commit = n.volatile.commit_index;
    }

-- `is_election_timed_out`: `duration_since` is zero for an instant that lies ahead.
unfoldable pub election_due : ℕ → RaftNode → Bool
election_due now n = ltb n.volatile.election_timeout (now - n.volatile.last_heartbeat)
