-- ===== src/Raft/Voting.antt =====
-- raft.rs, `handle_request_vote`: when a vote is granted, and what a node keeps of its vote.
use cassettedb.Prelude.{
  ℕ, ◌≤◌, ◌<◌, ◌≡◌, ◌↔◌, ◌⊎◌, true, Option, none, some, List, arith, eq_iff, ltb, Bool-cases, inl,
  inr,
}
use cassettedb.Raft.Types.{NodeId, LogEntry, RequestVoteRequest, RaftNode}
use cassettedb.Raft.Log.{last_index, last_term}
use cassettedb.Raft.Node.{handle_request_vote, can_vote, adopt_term, answer_vote}

-- The candidate's log is at least as up to date as `log`.
abbrev pub UpToDate : List LogEntry → RequestVoteRequest → Type 0
UpToDate log req =
    (last_term log < req.last_log_term)
    ⊎ ((req.last_log_term ≡ last_term log) × (last_index log ≤ req.last_log_index))

-- The node has not voted for another candidate in the request's term.
abbrev pub IsFree : RaftNode → RequestVoteRequest → Type 0
IsFree n req =
    (n.persistent.current_term < req.term)
    ⊎ ((n.persistent.voted_for ≡ none) ⊎ (n.persistent.voted_for ≡ some req.candidate_id))

answer_vote_grants :
    (now : ℕ) (n : RaftNode) (req : RequestVoteRequest)
    → ((answer_vote now n req).1.vote_granted ≡ true) ↔ (
        (n.persistent.current_term ≤ req.term)
        × UpToDate n.persistent.log req
        × (can_vote n.persistent.voted_for req.candidate_id ≡ true))
unfolding answer_vote
answer_vote_grants now n req = ground arith

can_vote_iff :
    (v : Option NodeId) (c : NodeId) → (can_vote v c ≡ true) ↔ ((v ≡ none) ⊎ (v ≡ some c))
can_vote_iff none c = ground arith
can_vote_iff (some d) c = ground (arith, eq_iff d c)

-- A vote is granted exactly if the request's term is not older, the candidate's log is at least as
-- up to date, and the node has not voted for another candidate in that term.
pub handle_request_vote_grants :
    (now : ℕ) (n : RaftNode) (req : RequestVoteRequest)
    → ((handle_request_vote now n req).1.vote_granted ≡ true)
      ↔ ((n.persistent.current_term ≤ req.term) × UpToDate n.persistent.log req × IsFree n req)
unfolding handle_request_vote
handle_request_vote_grants now n req = elim (Bool-cases (ltb n.persistent.current_term req.term)) [
  | inl e ↦ rw e (ground (arith, answer_vote_grants now (adopt_term req.term n) req))
  | inr e ↦ rw e (
      ground
        (arith, answer_vote_grants now n req, can_vote_iff n.persistent.voted_for req.candidate_id))
]
