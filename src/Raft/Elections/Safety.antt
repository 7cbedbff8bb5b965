-- ===== src/Raft/Elections/Safety.antt =====
-- raft.rs: the invariant of the elections holds in every reachable state, and gives one leader a term.
use cassettedb.Prelude.{◌+◌, ◌≡◌, ap, List, length, arith}
use cassettedb.Raft.Types.{NodeId, leader}
use cassettedb.Prelude.Names.{common_name}
use cassettedb.Raft.Elections.Local.{IsRunning}
use cassettedb.Raft.Elections.Invariant.{System, Reached, Inv}
use cassettedb.Raft.Elections.Preserved.{Reached-Inv}

-- Under the invariant two leaders of one term are the same node.
Inv-one_leader :
    {members : List NodeId} {s : System}
    → Inv members s
    → (i j : NodeId) → (s.nodes i).volatile.role ≡ leader
    → (s.nodes j).volatile.role ≡ leader
    → (s.nodes i).persistent.current_term ≡ (s.nodes j).persistent.current_term
    → i ≡ j
Inv-one_leader {members} {s} inv i j li lj same =
    let ri : IsRunning (s.nodes i) = λ f. cc (li, f) in
    let rj : IsRunning (s.nodes j) = λ f. cc (lj, f) in
    let (v, vi, vj) =
      common_name (s.nodes i).volatile.votes_received (s.nodes j).volatile.votes_received members
        (inv.distinct i ri) (inv.distinct j rj) (λ v h. (inv.counted i v ri h).member)
        (λ v h. (inv.counted j v rj h).member)
        (omega (arith, inv.won i li, inv.won j lj, inv.sized i, inv.sized j)) in
    let bi = (inv.counted i v ri vi).ballot in
    let bj = (inv.counted j v rj vj).ballot in ground (arith, same, bi, bj, ap (s.ballots v) same)

-- In every state that a cluster reaches from new nodes by elections, vote requests, counted
-- answers (lost, repeated or reordered) and the other operations, a saved state being restored
-- only as it is encoded from the present state of the node itself, in the node or in one made anew
-- with its id and peers, where each node knows one peer fewer than there are members, two nodes
-- that lead in the same term are the same node; terms stay below 2^64.
pub election_safety :
    {members : List NodeId} {peers_of : NodeId → List NodeId} {s : System}
    → ((i : NodeId) → length (peers_of i) + 1 ≡ length members)
    → Reached members peers_of s
    → (i j : NodeId) → (s.nodes i).volatile.role ≡ leader
    → (s.nodes j).volatile.role ≡ leader
    → (s.nodes i).persistent.current_term ≡ (s.nodes j).persistent.current_term
    → i ≡ j
election_safety sized reached = Inv-one_leader (Reached-Inv sized reached)
