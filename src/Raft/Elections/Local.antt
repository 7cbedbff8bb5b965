-- ===== src/Raft/Elections/Local.antt =====
-- raft.rs: what one operation does to a node that runs for election or leads.
use cassettedb.Prelude.{List, [], ◌∷◌, ℕ, subst, refl, ◌≡◌, ◌≢◌, ◌∙◌, arith}
use cassettedb.Prelude.Map
use cassettedb.Raft.Types.{
  VolatileState, NodeId, follower, RequestVoteRequest, AppendEntriesRequest, RaftNode,
}
use cassettedb.Raft.Node.{
  newer_term, answer_vote, handle_request_vote, propose, new, new_volatile, init_indices,
}
use cassettedb.Raft.Append.{
  newer_leader, answer_entries, check_entries, accept_entries, follow, handle_append_entries,
  record_append_success, advance_commit, record_append_failure, add_peer, remove_peer,
  apply_committed,
}
use cassettedb.Raft.Saved.{restored_lem}
use cassettedb.Raft.Steps.{
  Other, append, succeed, fail, offer, join, leave, apply, restore, restart,
}

-- A node runs from its call for an election until it follows again.
abbrev pub IsRunning : RaftNode → Type 0
IsRunning n = n.volatile.role ≢ follower

pub record SamePlace (n m : RaftNode) : Type 0 where
  pub node_id : m.node_id ≡ n.node_id
  pub peers : m.peers ≡ n.peers

-- A node that runs after the operation ran before it, in the same term, role and with the same votes.
pub record KeepsRun (n m : RaftNode) : Type 0 where
  pub place : SamePlace n m
  pub role : IsRunning m → m.volatile.role ≡ n.volatile.role
  pub term : IsRunning m → m.persistent.current_term ≡ n.persistent.current_term
  pub votes : IsRunning m → m.volatile.votes_received ≡ n.volatile.votes_received

KeepsRun-trans : {n m k : RaftNode} → KeepsRun n m → KeepsRun m k → KeepsRun n k
KeepsRun-trans {n} {m} {k} a b =
    let back : IsRunning k → IsRunning m = λ h e. h (b.role h ∙ e) in
    record {
      place = record {
        node_id = b.place.node_id ∙ a.place.node_id;
        peers = b.place.peers ∙ a.place.peers;
      };
      role = λ h. b.role h ∙ a.role (back h);
      term = λ h. b.term h ∙ a.term (back h);
      votes = λ h. b.votes h ∙ a.votes (back h);
    }

newer_term-KeepsRun : (term : ℕ) (n : RaftNode) → KeepsRun n (newer_term term n)
unfolding newer_term
newer_term-KeepsRun term n = record {
  place = ground arith;
  role = ground arith;
  term = ground arith;
  votes = ground arith;
}

newer_leader-KeepsRun : (term : ℕ) (n : RaftNode) → KeepsRun n (newer_leader term n)
unfolding newer_leader
newer_leader-KeepsRun term n = record {
  place = ground arith;
  role = ground arith;
  term = ground arith;
  votes = ground arith;
}

answer_vote-KeepsRun :
    (now : ℕ) (n : RaftNode) (req : RequestVoteRequest) → KeepsRun n (answer_vote now n req).0
unfolding answer_vote
answer_vote-KeepsRun now n req = record {
  place = ground arith;
  role = ground arith;
  term = ground arith;
  votes = ground arith;
}

answer_entries-KeepsRun :
    (now : ℕ) (n : RaftNode) (req : AppendEntriesRequest) → KeepsRun n (answer_entries now n req).0
unfolding answer_entries check_entries accept_entries follow
answer_entries-KeepsRun now n req = record {
  place = ground arith;
  role = ground arith;
  term = ground arith;
  votes = ground arith;
}

pub vote-KeepsRun :
    (now : ℕ) (n : RaftNode) (req : RequestVoteRequest)
    → KeepsRun n (handle_request_vote now n req).0
unfolding handle_request_vote
vote-KeepsRun now n req =
    KeepsRun-trans (newer_term-KeepsRun req.term n)
      (answer_vote-KeepsRun now (newer_term req.term n) req)

init_indices-role :
    (peers : List NodeId) (next : ℕ) (v : VolatileState) → (init_indices peers next v).role ≡ v.role
unfolding init_indices
init_indices-role [] next v = refl
init_indices-role (peer ∷ peers) next v = init_indices-role peers next (record v {
  next_index = Map.insert v.next_index peer next;
  match_index = Map.insert v.match_index peer 0;
})

new-follower :
    (now : ℕ) (id : NodeId) (peers : List NodeId) → (new now id peers).volatile.role ≡ follower
unfolding new new_volatile
new-follower now id peers = init_indices-role peers 1 (new_volatile now 150 50)

pub Other-KeepsRun : {n m : RaftNode} → Other n m → KeepsRun n m
unfolding handle_append_entries record_append_success advance_commit record_append_failure add_peer
    remove_peer apply_committed propose new
Other-KeepsRun {n} (append now req) =
    KeepsRun-trans (newer_leader-KeepsRun req.term n)
      (answer_entries-KeepsRun now (newer_leader req.term n) req)
Other-KeepsRun (succeed peer res) = record {
  place = ground arith;
  role = ground arith;
  term = ground arith;
  votes = ground arith;
}
Other-KeepsRun (fail peer res) = record {
  place = ground arith;
  role = ground arith;
  term = ground arith;
  votes = ground arith;
}
Other-KeepsRun (offer command) = record {
  place = ground arith;
  role = ground arith;
  term = ground arith;
  votes = ground arith;
}
Other-KeepsRun (join peer) = record {
  place = ground arith;
  role = ground arith;
  term = ground arith;
  votes = ground arith;
}
Other-KeepsRun (leave peer) = record {
  place = ground arith;
  role = ground arith;
  term = ground arith;
  votes = ground arith;
}
Other-KeepsRun apply = record {
  place = ground arith;
  role = ground arith;
  term = ground arith;
  votes = ground arith;
}
Other-KeepsRun {n} (restore codec saved done) =
    subst (KeepsRun n) (restored_lem codec n n saved done)
      (record { place = ground arith; role = λ h. refl; term = λ h. refl; votes = λ h. refl })
Other-KeepsRun {n} (restart codec now saved done) =
    subst (KeepsRun n) (restored_lem codec n (new now n.node_id n.peers) saved done) (record {
      place = record { node_id = refl; peers = refl };
      role = λ h. absurd (h (new-follower now n.node_id n.peers));
      term = λ h. absurd (h (new-follower now n.node_id n.peers));
      votes = λ h. absurd (h (new-follower now n.node_id n.peers));
    })
