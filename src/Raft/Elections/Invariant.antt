-- ===== src/Raft/Elections/Invariant.antt =====
-- raft.rs: a cluster of nodes and the answers in flight, with the ballot of each node in each term as
-- a record of the past. Every counted vote is a ballot, and each ballot names one candidate.
use cassettedb.Prelude.{
  ℕ, ◌+◌, ◌≤◌, ◌<◌, ◌≡◌, true, Option, none, some, List, [], ◌∷◌, length, str_eq, ◌==◌,
  if◌then◌else◌,
}
use cassettedb.Raft.Types.{
  NodeId, Term, u64_mod, leader, RequestVoteRequest, RequestVoteResponse, RaftNode,
}
use cassettedb.Raft.Node.{new, start_election, handle_request_vote, record_vote, quorum}
use cassettedb.Raft.Steps.{Other}
use cassettedb.Prelude.Names.{Among, Distinct}
use cassettedb.Raft.Elections.Local.{IsRunning}

pub record Reply : Type 0 where
  pub voter : NodeId
  pub to : NodeId
  pub response : RequestVoteResponse

pub record System : Type 0 where
  pub nodes : NodeId → RaftNode
  pub replies : List Reply
  pub ballots : NodeId → Term → Option NodeId

abbrev pub update {ℓ} : {A : Type ℓ} → (NodeId → A) → NodeId → A → NodeId → A
update f i a j = if str_eq i j then a else f j

-- The ballot that a node in state `m` has cast in its term.
abbrev pub cast : (Term → Option NodeId) → RaftNode → Term → Option NodeId
cast f m t = if m.persistent.current_term == t then m.persistent.voted_for else f t

-- Node `i` is now in state `m`.
abbrev pub becomes : System → NodeId → RaftNode → System
becomes s i m = record {
  nodes = update s.nodes i m;
  replies = s.replies;
  ballots = update s.ballots i (cast (s.ballots i) m);
}

abbrev pub sends : System → Reply → System
sends s r = record s { replies = r ∷ s.replies }

pub data Move (members : List NodeId) (s : System) : System → Type 0 where
  elect :
      (i : NodeId) (now : ℕ)
      → Among i members
      → (s.nodes i).persistent.current_term + 1 < u64_mod
      → Move members s (becomes s i (start_election now (s.nodes i)).0)
  vote :
      (i : NodeId) (now : ℕ) (req : RequestVoteRequest)
      → Among i members
      → Move members s (
          sends (becomes s i (handle_request_vote now (s.nodes i) req).0) (record {
            voter = i;
            to = req.candidate_id;
            response = (handle_request_vote now (s.nodes i) req).1;
          }))
  count :
      (r : Reply)
      → Among r s.replies
      → Move members s (becomes s r.to (record_vote (s.nodes r.to) r.voter r.response).0)
  other : (i : NodeId) {m : RaftNode} → Other (s.nodes i) m → Move members s (becomes s i m)

-- New nodes, each with its own list of peers.
abbrev pub boot : (NodeId → List NodeId) → System
boot peers_of = record { nodes = λ i. new 0 i (peers_of i); replies = []; ballots = λ i t. none }

pub data Reached (members : List NodeId) (peers_of : NodeId → List NodeId) : System → Type 0 where
  start : Reached members peers_of (boot peers_of)
  later :
      {s t : System} → Reached members peers_of s → Move members s t → Reached members peers_of t

-- Node `v` is in term `t` or later, and its ballot of term `t` is for `c`.
pub record Voted (members : List NodeId) (s : System) (v : NodeId) (t : Term) (c : NodeId)
    : Type 0 where
  pub member : Among v members
  pub past : t ≤ (s.nodes v).persistent.current_term
  pub ballot : s.ballots v t ≡ some c

pub record Inv (members : List NodeId) (s : System) : Type 0 where
  pub named : (i : NodeId) → (s.nodes i).node_id ≡ i
  pub sized : (i : NodeId) → length (s.nodes i).peers + 1 ≡ length members
  pub current :
      (i : NodeId)
      → s.ballots i (s.nodes i).persistent.current_term ≡ (s.nodes i).persistent.voted_for
  pub replied :
      (r : Reply)
      → Among r s.replies
      → r.response.vote_granted ≡ true
      → Voted members s r.voter r.response.term r.to
  pub counted :
      (i v : NodeId)
      → IsRunning (s.nodes i)
      → Among v (s.nodes i).volatile.votes_received
      → Voted members s v (s.nodes i).persistent.current_term i
  pub distinct : (i : NodeId) → IsRunning (s.nodes i) → Distinct (s.nodes i).volatile.votes_received
  pub won :
      (i : NodeId)
      → (s.nodes i).volatile.role ≡ leader
      → quorum (s.nodes i) ≤ length (s.nodes i).volatile.votes_received
