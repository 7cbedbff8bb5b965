-- ===== src/Raft/Elections/Counted.antt =====
-- raft.rs, `record_vote`: which vote is added, and what it takes to lead.
use cassettedb.Prelude.{
  ◌≤◌, ◌≡◌, refl, ◌⊎◌, inl, inr, Bool, true, false, List, [], ◌∷◌, ◌++◌, length, arith, leb,
  Bool-cases, not, ◌&&◌, if◌then◌else◌,
}
use cassettedb.Raft.Types.{NodeId, LogIndex, leader, RequestVoteResponse, RaftNode, VolatileState}
use cassettedb.Raft.Node.{record_vote, count_vote, quorum, contains, init_indices}
use cassettedb.Raft.Elections.Local.{IsRunning, SamePlace}

init_indices_votes :
    (peers : List NodeId) (next : LogIndex) (v : VolatileState)
    → (init_indices peers next v).votes_received ≡ v.votes_received
unfolding init_indices
init_indices_votes [] next v = refl
init_indices_votes (p ∷ peers) next v = init_indices_votes peers next _

pub init_indices_role :
    (peers : List NodeId) (next : LogIndex) (v : VolatileState)
    → (init_indices peers next v).role ≡ v.role
unfolding init_indices
init_indices_role [] next v = refl
init_indices_role (p ∷ peers) next v = init_indices_role peers next _

-- What is counted in `m`, where `n` counted the answer `res` of `voter`.
pub record Counted (n m : RaftNode) (voter : NodeId) (res : RequestVoteResponse) : Type 0 where
  pub place : SamePlace n m
  pub ran : IsRunning m → IsRunning n
  pub term : IsRunning m → m.persistent.current_term ≡ n.persistent.current_term
  pub votes :
      IsRunning m
      → (m.volatile.votes_received ≡ n.volatile.votes_received)
        ⊎ ((res.vote_granted ≡ true)
            × (res.term ≡ n.persistent.current_term)
            × (contains n.volatile.votes_received voter ≡ false)
            × (m.volatile.votes_received ≡ n.volatile.votes_received ++ voter ∷ []))
  pub won :
      m.volatile.role ≡ leader
      → (quorum n ≤ length m.volatile.votes_received)
        ⊎ ((n.volatile.role ≡ leader) × (m.volatile.votes_received ≡ n.volatile.votes_received))

-- `votes` of `count_vote`
added : RaftNode → NodeId → Bool → List NodeId
added n voter granted =
    if granted && not (contains n.volatile.votes_received voter)
    then n.volatile.votes_received ++ voter ∷ []
    else n.volatile.votes_received

count_vote_votes :
    (n : RaftNode) (voter : NodeId) (granted : Bool)
    → (count_vote n voter granted).0.volatile.votes_received ≡ added n voter granted
unfolding count_vote added
count_vote_votes n voter granted =
    elim (Bool-cases (leb (quorum n) (length (added n voter granted)))) [
      | inl e ↦ rw e (init_indices_votes n.peers _ _)
      | inr e ↦ rw e
    ]

count_vote_won :
    (n : RaftNode) (voter : NodeId) (granted : Bool)
    → (count_vote n voter granted).0.volatile.role ≡ leader
    → (quorum n ≤ length (added n voter granted)) ⊎ (n.volatile.role ≡ leader)
unfolding count_vote added
count_vote_won n voter granted h = ground arith

count_vote_place :
    (n : RaftNode) (voter : NodeId) (granted : Bool)
    → ((count_vote n voter granted).0.node_id ≡ n.node_id)
      × ((count_vote n voter granted).0.peers ≡ n.peers)
      × ((count_vote n voter granted).0.persistent ≡ n.persistent)
unfolding count_vote
count_vote_place n voter granted = ground arith

pub record_vote-Counted :
    (n : RaftNode) (voter : NodeId) (res : RequestVoteResponse)
    → Counted n (record_vote n voter res).0 voter res
unfolding record_vote added
record_vote-Counted n voter res =
    let place = count_vote_place n voter res.vote_granted in
    let votes = count_vote_votes n voter res.vote_granted in
    let won = count_vote_won n voter res.vote_granted in
    record {
      place = ground (arith, place);
      ran = ground (arith, place);
      term = ground (arith, place);
      votes = ground (arith, place, votes);
      won = ground (arith, place, votes, won);
    }
