-- ===== src/Raft/Elections/Preserved.antt =====
-- raft.rs: every move of the cluster keeps the invariant of the elections.
use cassettedb.Prelude.{
  ℕ, ◌+◌, ◌/◌, ◌≤◌, ◌<◌, ◌≡◌, refl, sym, ap, ◌∙◌, subst, inl, inr, true, false, none, some, List,
  [], ◌∷◌, length, arith, eq_iff, str_eq, ◌==◌,
}
use cassettedb.Raft.Types.{NodeId, u64_mod, follower, RequestVoteRequest, RaftNode}
use cassettedb.Raft.Node.{
  new, new_volatile, start_election, handle_request_vote, answer_vote, newer_term, record_vote,
  contains,
}
use cassettedb.Raft.Steps.{
  KeepsVote, Other-KeepsVote, vote-KeepsVote, start_election-KeepsVote, record_vote-KeepsVote,
}
use cassettedb.Prelude.Names.{Among, Among-append, Distinct, Distinct-append}
use cassettedb.Raft.Elections.Local.{IsRunning, vote-KeepsRun, Other-KeepsRun}
use cassettedb.Raft.Elections.Change.{Fits, becomes-Inv, quiet-Fits, sends-Inv, Voted-becomes}
use cassettedb.Raft.Elections.Counted.{Counted, record_vote-Counted, init_indices_role}
use cassettedb.Raft.Elections.Invariant.{
  Reply, System, becomes, Move, elect, vote, count, other, boot, Reached, start, later, Voted, Inv,
}

-- A granted vote is the ballot of the voter in the term of its answer.
answer_vote_ballot :
    (now : ℕ) (n : RaftNode) (req : RequestVoteRequest)
    → (answer_vote now n req).1.vote_granted ≡ true
    → ((answer_vote now n req).1.term ≡ (answer_vote now n req).0.persistent.current_term)
      × ((answer_vote now n req).0.persistent.voted_for ≡ some req.candidate_id)
unfolding answer_vote
answer_vote_ballot now n req h = ground arith

vote_ballot :
    (now : ℕ) (n : RaftNode) (req : RequestVoteRequest)
    → (handle_request_vote now n req).1.vote_granted ≡ true
    → ((handle_request_vote now n req).1.term
        ≡ (handle_request_vote now n req).0.persistent.current_term)
      × ((handle_request_vote now n req).0.persistent.voted_for ≡ some req.candidate_id)
unfolding handle_request_vote
vote_ballot now n req h = answer_vote_ballot now (newer_term req.term n) req h

-- The ballot of a node in the term that it has just entered or is in.
Voted-now :
    (members : List NodeId) (s : System) (i : NodeId) (m : RaftNode) (c : NodeId)
    → Among i members
    → m.persistent.voted_for ≡ some c
    → Voted members (becomes s i m) i m.persistent.current_term c
Voted-now members s i m c member h = record {
  member = member;
  past = rw self (omega arith);
  ballot = rw (self, same) h;
}
  where
    self : str_eq i i ≡ true
    self = (eq_iff i i).1 refl

    same : (m.persistent.current_term == m.persistent.current_term) ≡ true
    same = ground arith

not-Among_of_contains : (xs : List NodeId) (v : NodeId) → contains xs v ≡ false → ¬ (Among v xs)
not-Among_of_contains [] v h a = a
not-Among_of_contains (x ∷ xs) v h (inl e) = ground (arith, eq_iff x v)
not-Among_of_contains (x ∷ xs) v h (inr a) = not-Among_of_contains xs v (ground arith) a

elect-Fits :
    {members : List NodeId} {s : System} (inv : Inv members s) (i : NodeId) (now : ℕ)
    → Among i members
    → (s.nodes i).persistent.current_term + 1 < u64_mod
    → Fits inv i (start_election now (s.nodes i)).0
unfolding start_election
elect-Fits {members} {s} inv i now member room =
    let m = (start_election now (s.nodes i)).0 in
    record {
      named = inv.named i;
      sized = inv.sized i;
      keeps = start_election-KeepsVote now (s.nodes i) room;
      counted = λ v run. elim [
        | inl e ↦
            subst (λ u. Voted members (becomes s i m) u m.persistent.current_term i)
              (sym (e ∙ inv.named i)) (Voted-now members s i m i member (ap some (inv.named i)))
        | inr nobody ↦ absurd nobody
      ];
      distinct = λ run. (λ nobody. nobody, tt);
      won = λ lead. cc;
    }

count-Fits :
    {members : List NodeId} {s : System} (inv : Inv members s) (r : Reply)
    → Among r s.replies
    → Fits inv r.to (record_vote (s.nodes r.to) r.voter r.response).0
count-Fits {members} {s} inv r among = record {
  named = c.place.node_id ∙ inv.named i;
  sized = ap (λ (ps : List NodeId). length ps + 1) c.place.peers ∙ inv.sized i;
  keeps = k;
  counted = λ v run h. elim (c.votes run) [
    | inl same ↦ old_vote v run (subst (Among v) same h)
    | inr (granted, term, fresh, votes) ↦
        elim (Among-append v n.volatile.votes_received (r.voter ∷ []) (subst (Among v) votes h)) [
          | inl old ↦ old_vote v run old
          | inr (inl e) ↦
              subst (λ u. Voted members (becomes s i m) u m.persistent.current_term i) (sym e)
                (subst (λ t. Voted members (becomes s i m) r.voter t i) (term ∙ sym (c.term run))
                  (Voted-becomes inv i m k (inv.replied r among granted)))
          | inr (inr nobody) ↦ absurd nobody
        ]
  ];
  distinct = λ run. elim (c.votes run) [
    | inl same ↦ subst Distinct (sym same) (inv.distinct i (c.ran run))
    | inr (granted, term, fresh, votes) ↦ subst Distinct (sym votes) (
        Distinct-append n.volatile.votes_received (r.voter ∷ []) (inv.distinct i (c.ran run))
          (λ nobody. nobody, tt)
          (λ v old. elim [
            | inl e ↦
                not-Among_of_contains n.volatile.votes_received r.voter fresh
                  (subst (λ u. Among u n.volatile.votes_received) e old)
            | inr nobody ↦ nobody
          ]))
  ];
  won = λ lead. elim (c.won lead) [
    | inl enough ↦
        subst (λ (ps : List NodeId). (length ps + 1) / 2 + 1 ≤ length m.volatile.votes_received)
          (sym c.place.peers) enough
    | inr (led, same) ↦ rw (c.place.peers, same) (inv.won i led)
  ];
}
  where
    i : NodeId
    i = r.to

    n : RaftNode
    n = s.nodes i

    m : RaftNode
    m = (record_vote n r.voter r.response).0

    c : Counted n m r.voter r.response
    c = record_vote-Counted n r.voter r.response

    k : KeepsVote n m
    k = record_vote-KeepsVote n r.voter r.response

    old_vote :
        (v : NodeId)
        → IsRunning m
        → Among v n.volatile.votes_received
        → Voted members (becomes s i m) v m.persistent.current_term i
    old_vote v run h =
        subst (λ t. Voted members (becomes s i m) v t i) (sym (c.term run))
          (Voted-becomes inv i m k (inv.counted i v (c.ran run) h))

-- Every move keeps the invariant.
pub Move-Inv :
    {members : List NodeId} {s t : System} → Move members s t → Inv members s → Inv members t
Move-Inv {s} (elect i now member room) inv = becomes-Inv inv i _ (elect-Fits inv i now member room)
Move-Inv {members} {s} (vote i now req member) inv =
    let m = (handle_request_vote now (s.nodes i) req).0 in
    sends-Inv
      (becomes-Inv inv i m (
        quiet-Fits inv i m (vote-KeepsVote now (s.nodes i) req)
          (vote-KeepsRun now (s.nodes i) req)))
      _
      (λ granted.
        let (term, ballot) = vote_ballot now (s.nodes i) req granted in
        subst (λ t. Voted members (becomes s i m) i t req.candidate_id) (sym term)
          (Voted-now members s i m req.candidate_id member ballot))
Move-Inv {s} (count r among) inv = becomes-Inv inv r.to _ (count-Fits inv r among)
Move-Inv (other i step) inv =
    becomes-Inv inv i _ (quiet-Fits inv i _ (Other-KeepsVote step) (Other-KeepsRun step))

new_follows :
    (now : ℕ) (i : NodeId) (peers : List NodeId)
    → ((new now i peers).node_id ≡ i)
      × ((new now i peers).peers ≡ peers)
      × ((new now i peers).persistent.voted_for ≡ none)
      × ((new now i peers).volatile.role ≡ follower)
unfolding new
new_follows now i peers = (refl, refl, refl, init_indices_role peers 1 (new_volatile now 150 50))

boot-Inv :
    (members : List NodeId) (peers_of : NodeId → List NodeId)
    → ((i : NodeId) → length (peers_of i) + 1 ≡ length members)
    → Inv members (boot peers_of)
boot-Inv members peers_of sized = record {
  named = λ i. (new_follows 0 i (peers_of i)).0;
  sized = λ i. ap (λ (ps : List NodeId). length ps + 1) (new_follows 0 i (peers_of i)).1 ∙ sized i;
  current = λ i. sym (new_follows 0 i (peers_of i)).2;
  replied = λ r nothing. absurd nothing;
  counted = λ i v run. absurd (run (new_follows 0 i (peers_of i)).3);
  distinct = λ i run. absurd (run (new_follows 0 i (peers_of i)).3);
  won = λ i lead. cc (lead, (new_follows 0 i (peers_of i)).3);
}

-- The invariant holds in every state that a cluster of equally informed nodes reaches.
pub Reached-Inv :
    {members : List NodeId} {peers_of : NodeId → List NodeId} {s : System}
    → ((i : NodeId) → length (peers_of i) + 1 ≡ length members)
    → Reached members peers_of s
    → Inv members s
Reached-Inv {members} {peers_of} sized start = boot-Inv members peers_of sized
Reached-Inv sized (later r move) = Move-Inv move (Reached-Inv sized r)
