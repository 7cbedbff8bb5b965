-- ===== src/Raft/Append.antt =====
-- raft.rs, `impl RaftNode`: AppendEntries, the commit index, peers, and the committed commands.
use cassettedb.Prelude.{
  ℕ, zero, suc, ◌+◌, ◌-◌, ◌/◌, ◌%◌, min, Bool, true, false, not, ◌&&◌, none, some, List, [], ◌∷◌,
  ◌++◌, length, take, ltb, leb, ◌==◌, str_eq, if◌then◌else◌,
}
use cassettedb.Prelude.Map
use cassettedb.Prelude.Map.{Map, values}
use cassettedb.Raft.Types.{
  NodeId, Term, LogIndex, u64_mod, ClusterCommand, LogEntry, follower, is_leader_role,
  AppendEntriesRequest, AppendEntriesResponse, VolatileState, RaftNode,
}
use cassettedb.Raft.Log.{last_index, entry, term_or_zero}
use cassettedb.Raft.Node.{adopt_term, contains, next_index_or_one}

-- One round of `for entry in &req.entries`.
unfoldable pub append_one : List LogEntry → LogEntry → List LogEntry
unfolding entry
append_one log e =
    if ltb (last_index log) e.index then log ++ e ∷ [] else elim (entry log e.index) [
      | none ↦ log
      | some existing ↦ if existing.term == e.term then log else take (e.index - 1) log ++ e ∷ []
    ]

unfoldable pub append_all : List LogEntry → List LogEntry → List LogEntry
unfolding append_one
append_all log [] = log
append_all log (e ∷ es) = append_all (append_one log e) es

-- `prev_entry.map(|e| e.term).unwrap_or(req.prev_log_term) == req.prev_log_term`
unfoldable pub log_consistent : List LogEntry → LogIndex → Term → Bool
unfolding entry
log_consistent log prev_log_index prev_log_term =
    if prev_log_index == 0 then 0 == prev_log_term else elim (entry log prev_log_index) [
      | none ↦ prev_log_term == prev_log_term
      | some e ↦ e.term == prev_log_term
    ]

-- `handle_append_entries` once the log is known to be consistent.
unfoldable pub accept_entries : RaftNode → AppendEntriesRequest → RaftNode × AppendEntriesResponse
unfolding append_all
accept_entries n req =
    let log : List LogEntry = append_all n.persistent.log req.entries in
    let commit : ℕ =
      if ltb n.volatile.commit_index req.leader_commit
      then min req.leader_commit (last_index log)
      else n.volatile.commit_index in
    (
      record n {
        persistent = record n.persistent { log = log };
        volatile = record n.volatile { commit_index = commit };
      },
      record {
        term = n.persistent.current_term;
        success = true;
        match_index = (req.prev_log_index + length req.entries) % u64_mod;
      },
    )

-- A higher term is adopted here without forgetting the leader.
unfoldable pub adopt_leader_term : Term → RaftNode → RaftNode
adopt_leader_term term n = record n {
  persistent = record n.persistent { current_term = term; voted_for = none };
  volatile = record n.volatile { role = follower };
}

-- `if req.term > p.current_term { ... }` of `handle_append_entries`
unfoldable pub newer_leader : Term → RaftNode → RaftNode
unfolding adopt_leader_term
newer_leader term n = if ltb n.persistent.current_term term then adopt_leader_term term n else n

-- `reset_election_timer`, and follow the sender.
unfoldable pub follow : ℕ → NodeId → RaftNode → RaftNode
follow now leader_id n = record n {
  volatile = record n.volatile {
    last_heartbeat = now;
    role = follower;
    leader_id = some leader_id;
  };
}

abbrev pub refusal : Term → AppendEntriesResponse
refusal term = record { term = term; success = false; match_index = 0 }

-- The consistency check, by a node that follows the sender.
unfoldable pub check_entries : RaftNode → AppendEntriesRequest → RaftNode × AppendEntriesResponse
unfolding accept_entries
check_entries n req =
    if log_consistent n.persistent.log req.prev_log_index req.prev_log_term
    then accept_entries n req
    else (n, refusal n.persistent.current_term)

-- `handle_append_entries` from the comparison with an older term on.
unfoldable pub answer_entries :
    ℕ → RaftNode → AppendEntriesRequest → RaftNode × AppendEntriesResponse
unfolding follow check_entries
answer_entries now n req =
    if ltb req.term n.persistent.current_term
    then (n, refusal n.persistent.current_term)
    else check_entries (follow now req.leader_id n) req

unfoldable pub handle_append_entries :
    ℕ → RaftNode → AppendEntriesRequest → RaftNode × AppendEntriesResponse
unfolding newer_leader answer_entries
handle_append_entries now n req = answer_entries now (newer_leader req.term n) req

-- `sort_unstable_by(|a, b| b.cmp(a))`
unfoldable pub insert_descending : ℕ → List ℕ → List ℕ
insert_descending x [] = x ∷ []
insert_descending x (y ∷ ys) = if leb y x then x ∷ y ∷ ys else y ∷ insert_descending x ys

unfoldable pub sort_descending : List ℕ → List ℕ
unfolding insert_descending
sort_descending [] = []
sort_descending (x ∷ xs) = insert_descending x (sort_descending xs)

-- An index past the end panics in the source; `quorum_match` below shows that it is in range.
abbrev pub get_or : List ℕ → ℕ → ℕ → ℕ
get_or [] i d = d
get_or (x ∷ xs) zero d = x
get_or (x ∷ xs) (suc i) d = get_or xs i d

-- `match_indices`, with the leader's own log at the end.
unfoldable pub match_indices : VolatileState → List LogEntry → List ℕ
match_indices v log = values v.match_index ++ last_index log ∷ []

-- `match_indices[match_indices.len() / 2]` of the sorted indices.
unfoldable pub quorum_match : List ℕ → ℕ
unfolding sort_descending
quorum_match indices = get_or (sort_descending indices) (length indices / 2) 0

-- The end of `record_append_success`: advance the commit index.
unfoldable pub advance_commit : LogIndex → RaftNode → RaftNode
advance_commit new_commit n =
    if ltb n.volatile.commit_index new_commit
    then (let q : ℕ = quorum_match (match_indices n.volatile n.persistent.log) in
        if ltb n.volatile.commit_index q
          && term_or_zero (entry n.persistent.log q) == n.persistent.current_term
        then record n { volatile = record n.volatile { commit_index = q } }
        else n)
    else n

unfoldable pub record_append_success : RaftNode → NodeId → AppendEntriesResponse → RaftNode
unfolding adopt_term advance_commit
record_append_success n peer res =
    if ltb n.persistent.current_term res.term
    then adopt_term res.term n
    else if not (is_leader_role n.volatile.role)
    then n
    else advance_commit res.match_index (record n {
      volatile = record n.volatile {
        match_index = Map.insert n.volatile.match_index peer res.match_index;
        next_index = Map.insert n.volatile.next_index peer ((res.match_index + 1) % u64_mod);
      };
    })

unfoldable pub record_append_failure : RaftNode → NodeId → AppendEntriesResponse → RaftNode
unfolding adopt_term
record_append_failure n peer res =
    if ltb n.persistent.current_term res.term
    then adopt_term res.term n
    else if not (is_leader_role n.volatile.role)
    then n
    else (let next : ℕ = next_index_or_one (Map.get n.volatile.next_index peer) in
        if ltb 1 next
        then record n {
          volatile = record n.volatile {
            next_index = Map.insert n.volatile.next_index peer (next - 1);
          };
        }
        else n)

unfoldable pub add_peer : RaftNode → NodeId → RaftNode
add_peer n peer =
    if not (contains n.peers peer) && not (str_eq peer n.node_id)
    then record n {
      volatile = record n.volatile {
        next_index = Map.insert n.volatile.next_index peer 1;
        match_index = Map.insert n.volatile.match_index peer 0;
      };
    }
    else n

unfoldable pub remove_peer : RaftNode → NodeId → RaftNode
remove_peer n peer = record n {
  volatile = record n.volatile {
    next_index = Map.remove n.volatile.next_index peer;
    match_index = Map.remove n.volatile.match_index peer;
  };
}

-- The `while` loop of `apply_committed`, whose rounds are the entries left; `applied` counts them.
unfoldable pub apply_loop : ℕ → ℕ → List LogEntry → ℕ × List ClusterCommand
unfolding entry
apply_loop zero applied log = (applied, [])
apply_loop (suc rounds) applied log =
    let (last, commands) = apply_loop rounds (applied + 1) log in
    (last, elim (entry log (applied + 1)) [ none ↦ commands | some e ↦ e.command ∷ commands ])

unfoldable pub apply_committed : RaftNode → RaftNode × List ClusterCommand
unfolding apply_loop
apply_committed n =
    let (last, commands) =
      apply_loop (n.volatile.commit_index - n.volatile.last_applied) n.volatile.last_applied
        n.persistent.log in
    (record n { volatile = record n.volatile { last_applied = last } }, commands)
