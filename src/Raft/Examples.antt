-- ===== src/Raft/Examples.antt =====
-- Runs of raft.rs on small inputs, after the tests of that file, and the theorems at such inputs.
use cassettedb.Prelude.{
  ℕ, ◌≤◌, ◌<◌, ◌≡◌, refl, ◌↔◌, inl, inr, true, false, Option, none, some, String, List, [], ◌∷◌,
  ◌++◌, length, take, arith,
}
use cassettedb.Prelude.Map
use cassettedb.Raft.Types.{
  NodeId, Term, no_op, LogEntry, RaftRole, follower, leader, RequestVoteRequest,
  AppendEntriesRequest, AppendEntriesResponse, RaftNode,
}
use cassettedb.Raft.Log.{entry, last_index, last_term}
use cassettedb.Raft.Node.{
  new, start_election, handle_request_vote, record_vote, count_vote, init_indices,
}
use cassettedb.Raft.Append.{
  log_consistent, handle_append_entries, match_indices, quorum_match, sort_descending,
  record_append_success, apply_committed,
}
use cassettedb.Raft.Voting.{UpToDate, IsFree, handle_request_vote_grants}
use cassettedb.Raft.Matching.{Continues}
use cassettedb.Raft.Replication.{
  AgreesAt, handle_append_entries_success, append_entries-Continues, append_entries_commit,
  append_entries_twice,
}
use cassettedb.Raft.Quorum.{count_ge, quorum_match_lem}
use cassettedb.Raft.Commit.{CommitRises, record_append_success_commit}
use cassettedb.Raft.Applying.{commands, apply_committed_prefix}
use cassettedb.Raft.Elections.Invariant.{elect, vote, count, Reached, start, later, System}
use cassettedb.Raft.Elections.Safety.{election_safety}

abbrev at_index : ℕ → Term → LogEntry
at_index i t = record { index = i; term = t; command = no_op }

-- Node "a" of three.
abbrev node_a : Term → Option NodeId → RaftRole → List LogEntry → ℕ → RaftNode
node_a term ballot role log commit = record {
  node_id = "a";
  peers = "b" ∷ "c" ∷ [];
  persistent = record { current_term = term; voted_for = ballot; log = log };
  volatile = record {
    commit_index = commit;
    last_applied = 0;
    role = role;
    leader_id = none;
    last_heartbeat = 0;
    votes_received = [];
    next_index = ("b", 1) ∷ ("c", 1) ∷ [];
    match_index = ("b", 0) ∷ ("c", 0) ∷ [];
    election_timeout = 150;
    heartbeat_interval = 50;
  };
}

abbrev ask : Term → NodeId → RequestVoteRequest
ask term c = record { term = term; candidate_id = c; last_log_index = 0; last_log_term = 0 }

-- `test_vote_only_granted_once_per_term`
once_per_term :
    let n = (handle_request_vote 5 (node_a 0 none follower [] 0) (ask 1 "b")).0 in
    (handle_request_vote 6 n (ask 1 "c")).1 ≡ record { term = 1; vote_granted = false }
unfolding handle_request_vote last_term
once_per_term = refl

handle_request_vote_grants_example :
    ((handle_request_vote 5 (node_a 0 none follower [] 0) (ask 1 "b")).1.vote_granted ≡ true)
    ↔ ((0 ≤ 1) × UpToDate [] (ask 1 "b") × IsFree (node_a 0 none follower [] 0) (ask 1 "b"))
handle_request_vote_grants_example =
    handle_request_vote_grants 5 (node_a 0 none follower [] 0) (ask 1 "b")

abbrev voted_b : RaftNode
voted_b = node_a 1 (some "b") follower [] 0

abbrev entries_2_3 : List LogEntry
entries_2_3 = at_index 2 2 ∷ at_index 3 2 ∷ []

abbrev append_request : ℕ → Term → List LogEntry → AppendEntriesRequest
append_request prev prev_term entries = record {
  term = 2;
  leader_id = "b";
  prev_log_index = prev;
  prev_log_term = prev_term;
  entries = entries;
  leader_commit = 2;
}

-- One committed entry, and one of term 1 that conflicts.
abbrev behind : RaftNode
behind = node_a 1 none follower (at_index 1 1 ∷ at_index 2 1 ∷ []) 1

conflict_replaced :
    (handle_append_entries 9 behind (append_request 1 1 entries_2_3)).0.persistent.log
    ≡ at_index 1 1 ∷ entries_2_3
unfolding handle_append_entries log_consistent
conflict_replaced = refl

conflict_success :
    (handle_append_entries 9 behind (append_request 1 1 entries_2_3)).1.success ≡ true
unfolding handle_append_entries log_consistent
conflict_success = refl

handle_append_entries_success_example :
    ((handle_append_entries 9 behind (append_request 1 1 entries_2_3)).1.success ≡ true)
    ↔ ((1 ≤ 2) × AgreesAt behind.persistent.log (append_request 1 1 entries_2_3))
handle_append_entries_success_example =
    handle_append_entries_success 9 behind (append_request 1 1 entries_2_3)

append_entries-Continues_example :
    Continues 1 behind.persistent.log
      (handle_append_entries 9 behind (append_request 1 1 entries_2_3)).0.persistent.log
      (2 ∷ 2 ∷ [])
append_entries-Continues_example =
    append_entries-Continues 9 behind (append_request 1 1 entries_2_3) (omega arith) (omega arith)
      conflict_success

append_entries_commit_example :
    (1 ≤ (handle_append_entries 9 behind (append_request 1 1 entries_2_3)).0.volatile.commit_index)
    × ((handle_append_entries 9 behind (append_request 1 1 entries_2_3)).0.volatile.commit_index
        ≤ last_index
            (handle_append_entries 9 behind (append_request 1 1 entries_2_3)).0.persistent.log)
    × (take 1 (handle_append_entries 9 behind (append_request 1 1 entries_2_3)).0.persistent.log
        ≡ take 1 behind.persistent.log)
append_entries_commit_example =
    append_entries_commit 9 behind (append_request 1 1 entries_2_3) (omega arith) (omega arith)
      (omega arith) conflict_success

append_entries_twice_example :
    (handle_append_entries 10
      (handle_append_entries 9 behind (append_request 1 1 entries_2_3)).0
      (append_request 1 1 entries_2_3)).0.persistent.log
    ≡ (handle_append_entries 9 behind (append_request 1 1 entries_2_3)).0.persistent.log
unfolding handle_append_entries log_consistent
append_entries_twice_example =
    append_entries_twice 9 10 behind (append_request 1 1 entries_2_3) (omega arith) (omega arith)
      conflict_success refl

quorum_match_lem_example :
    (1 < length (sort_descending (1 ∷ 3 ∷ 2 ∷ [])))
    × ((2 ≤ quorum_match (1 ∷ 3 ∷ 2 ∷ [])) ↔ (1 < count_ge 2 (1 ∷ 3 ∷ 2 ∷ [])))
quorum_match_lem_example = quorum_match_lem 2 (1 ∷ 3 ∷ 2 ∷ []) (omega arith)

abbrev leader_a : RaftNode
leader_a = node_a 2 (some "a") leader (at_index 1 1 ∷ at_index 2 2 ∷ []) 0

abbrev matched : ℕ → AppendEntriesResponse
matched i = record { term = 2; success = true; match_index = i }

-- Of three nodes two hold entry 2.
commit_advances : (record_append_success leader_a "b" (matched 2)).volatile.commit_index ≡ 2
unfolding record_append_success match_indices quorum_match entry Map.insert
commit_advances = refl

record_append_success_commit_example :
    CommitRises leader_a (record_append_success leader_a "b" (matched 2))
record_append_success_commit_example = record_append_success_commit leader_a "b" (matched 2)

apply_committed_prefix_example :
    (commands [] ++ (apply_committed behind).1 ≡ no_op ∷ [])
    × ((apply_committed behind).0.volatile.last_applied ≡ 1)
    × ((apply_committed (apply_committed behind).0).1 ≡ [])
apply_committed_prefix_example = apply_committed_prefix behind (omega arith)

abbrev peers_of : NodeId → List NodeId
peers_of i = "x" ∷ "y" ∷ []

elected : (s : System) × Reached ("a" ∷ "b" ∷ "c" ∷ []) peers_of s
unfolding new
elected = (
  _,
  later
      (later (later start (elect "a" 0 (inl refl) (omega arith)))
        (vote "b" 0 (ask 1 "a") (inr (inl refl))))
      (count _ (inl refl)),
)

-- `test_start_election_and_win`
a_leads : (elected.0.nodes "a").volatile.role ≡ leader
unfolding elected new init_indices start_election handle_request_vote record_vote count_vote
    last_term Map.insert
a_leads = refl

election_safety_example : ◌≡◌ {A = String} "a" "a"
election_safety_example = election_safety (λ i. refl) elected.1 "a" "a" a_leads a_leads refl
