-- ===== src/Cluster/Votes.antt =====
-- cluster.rs: what a node answers to its own request for a vote, and what it makes of the answer.
use cassettedb.Prelude.{
  ℕ, ◌+◌, ◌≡◌, ◌<◌, ◌≤◌, refl, ap, subst, ◌∙◌, Bool, true, false, ◌&&◌, ◌||◌, some, [], ◌∷◌, ◌++◌,
  length, length-append, str_eq_self, ltb, leb, leb→le, if◌then◌else◌, arith, Bool-cases, inl, inr,
  ◌⊎◌, ◌==◌,
}
use cassettedb.Raft.Types.{
  NodeId, candidate, leader, RequestVoteRequest, RequestVoteResponse, RaftNode,
}
use cassettedb.Raft.Log.{last_index, last_term}
use cassettedb.Raft.Node.{
  handle_request_vote, newer_term, answer_vote, decide_vote, record_vote, count_vote, quorum,
  contains, can_vote,
}
use cassettedb.Raft.Elections.Counted.{init_indices_role}

-- The node has made this request and voted for itself.
pub record Asking (m : RaftNode) (req : RequestVoteRequest) : Type 0 where
  pub same_term : m.persistent.current_term ≡ req.term
  pub same_vote : m.persistent.voted_for ≡ some req.candidate_id
  pub same_last_term : last_term m.persistent.log ≡ req.last_log_term
  pub same_last_index : last_index m.persistent.log ≡ req.last_log_index

-- The node that has granted the request again.
abbrev pub granted : ℕ → RequestVoteRequest → RaftNode → RaftNode
granted now req m = record m {
  persistent = record m.persistent { voted_for = some req.candidate_id };
  volatile = record m.volatile { last_heartbeat = now };
}

abbrev pub yes_to : RaftNode → RequestVoteResponse
yes_to m = record { term = m.persistent.current_term; vote_granted = true }

pub granted-Asking :
    (now : ℕ) (m : RaftNode) (req : RequestVoteRequest)
    → Asking m req
    → Asking (granted now req m) req
granted-Asking now m req a = record {
  same_term = a.same_term;
  same_vote = refl;
  same_last_term = a.same_last_term;
  same_last_index = a.same_last_index;
}

ltb_self : (n : ℕ) → ltb n n ≡ false
ltb_self n = ground arith

newer_term-Asking :
    (m : RaftNode) (req : RequestVoteRequest) → Asking m req → newer_term req.term m ≡ m
unfolding newer_term
newer_term-Asking m req a = rw (← a.same_term, ltb_self m.persistent.current_term)

log_fits : (t i : ℕ) → (ltb t t || (t == t && leb i i)) ≡ true
log_fits t i = ground arith

decide_vote-Asking :
    (now : ℕ) (m : RaftNode) (req : RequestVoteRequest)
    → Asking m req
    → decide_vote now m req ≡ (granted now req m, yes_to m)
unfolding decide_vote
decide_vote-Asking now m req a =
    let voted : can_vote m.persistent.voted_for req.candidate_id ≡ true =
      ap (λ v. can_vote v req.candidate_id) a.same_vote ∙ str_eq_self req.candidate_id in
    let fits : (ltb (last_term m.persistent.log) req.last_log_term
          || (req.last_log_term == last_term m.persistent.log
              && leb (last_index m.persistent.log) req.last_log_index))
        ≡ true =
      subst
        (λ (t : ℕ).
          (ltb (last_term m.persistent.log) t
            || (t == last_term m.persistent.log
                && leb (last_index m.persistent.log) req.last_log_index))
          ≡ true)
        a.same_last_term
        (subst
          (λ (i : ℕ).
            (ltb (last_term m.persistent.log) (last_term m.persistent.log)
              || (last_term m.persistent.log == last_term m.persistent.log
                  && leb (last_index m.persistent.log) i))
            ≡ true)
          a.same_last_index
          (log_fits (last_term m.persistent.log) (last_index m.persistent.log))) in
    ap
      (λ (b : Bool). (
        (if b && can_vote m.persistent.voted_for req.candidate_id then granted now req m else m),
        record {
          term = m.persistent.current_term;
          vote_granted = b && can_vote m.persistent.voted_for req.candidate_id;
        },
      ))
      fits
    ∙ ap
        (λ (b : Bool). (
          (if b then granted now req m else m),
          record { term = m.persistent.current_term; vote_granted = b },
        ))
        voted

pub handle_request_vote-Asking :
    (now : ℕ) (m : RaftNode) (req : RequestVoteRequest)
    → Asking m req
    → handle_request_vote now m req ≡ (granted now req m, yes_to m)
unfolding handle_request_vote newer_term answer_vote decide_vote
handle_request_vote-Asking now m req a =
    ap (λ k. answer_vote now k req) (newer_term-Asking m req a)
    ∙ ap
        (λ b.
          if b
          then (m, record { term = m.persistent.current_term; vote_granted = false })
          else decide_vote now m req)
        (subst (λ t. ltb t m.persistent.current_term ≡ false) a.same_term
          (ltb_self m.persistent.current_term))
    ∙ decide_vote-Asking now m req a

-- What an answer does to a candidate that is short of its quorum, and to a leader.
pub record_vote_candidate :
    (m : RaftNode) (peer : NodeId)
    → m.volatile.role ≡ candidate
    → record_vote m peer (yes_to m) ≡ count_vote m peer true
unfolding record_vote
record_vote_candidate m peer role = rw (ltb_self m.persistent.current_term, role)

pub record_vote_leader :
    (m : RaftNode) (peer : NodeId)
    → m.volatile.role ≡ leader
    → record_vote m peer (yes_to m) ≡ (m, false)
unfolding record_vote
record_vote_leader m peer role = rw (ltb_self m.persistent.current_term, role)

leb_ltb : (a b : ℕ) → leb a b ≡ false → b < a
leb_ltb a b h = ground arith

-- The vote of a new peer elects the candidate or leaves it with one more vote.
pub count_vote_new :
    (m : RaftNode) (peer : NodeId)
    → contains m.volatile.votes_received peer ≡ false
    → ((quorum m ≤ length m.volatile.votes_received + 1)
        × ((count_vote m peer true).1 ≡ true)
        × ((count_vote m peer true).0.volatile.role ≡ leader)
        × ((count_vote m peer true).0.persistent ≡ m.persistent))
      ⊎ ((length m.volatile.votes_received + 1 < quorum m)
          × ((count_vote m peer true) ≡ (
            record m {
              volatile = record m.volatile {
                votes_received = m.volatile.votes_received ++ peer ∷ [];
              };
            },
            false,
          )))
unfolding count_vote
count_vote_new m peer fresh =
    let votes = m.volatile.votes_received ++ peer ∷ [] in
    let long : length votes ≡ length m.volatile.votes_received + 1 =
      omega (arith, length-append m.volatile.votes_received (peer ∷ [])) in
    elim (Bool-cases (leb (quorum m) (length votes))) [
      | inl e ↦ rw fresh (
          inl (
            omega (arith, leb→le (quorum m) (length votes) e, long),
            rw e refl,
            rw e (init_indices_role m.peers _ _),
            rw e refl,
          ))
      | inr e ↦ rw fresh (inr (omega (arith, leb_ltb (quorum m) (length votes) e, long), rw e refl))
    ]
