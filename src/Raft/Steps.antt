-- ===== src/Raft/Steps.antt =====
-- raft.rs: one node under any sequence of its operations, with any messages and any clock.
use cassettedb.Prelude.{subst, ℕ, ◌+◌, ◌≤◌, ◌<◌, ◌≡◌, true, some, arith, eq_iff}
use cassettedb.Raft.Types.{
  NodeId, ClusterCommand, u64_mod, RequestVoteRequest, RequestVoteResponse, AppendEntriesRequest,
  AppendEntriesResponse, RaftNode,
}
use cassettedb.Raft.Node.{
  new, propose, start_election, newer_term, answer_vote, handle_request_vote, count_vote,
  record_vote,
}
use cassettedb.Raft.Voting.{handle_request_vote_grants}
use cassettedb.Prelude.Errors.{ok}
use cassettedb.Bytes.{Bytes}
use cassettedb.Raft.Saved.{StateCodec, serialize_state, deserialize_state, restored_lem}
use cassettedb.Raft.Append.{
  newer_leader, follow, accept_entries, check_entries, answer_entries, handle_append_entries,
  record_append_success, record_append_failure, add_peer, remove_peer, apply_committed,
}

-- The operations that neither start an election nor cast or count a vote. A state is restored only
-- from the bytes that serialize_state gives for the node itself, in the node or in one made anew.
pub data Other (n : RaftNode) : RaftNode → Type 0 where
  append : (now : ℕ) (req : AppendEntriesRequest) → Other n (handle_append_entries now n req).0
  succeed :
      (peer : NodeId) (res : AppendEntriesResponse) → Other n (record_append_success n peer res)
  fail : (peer : NodeId) (res : AppendEntriesResponse) → Other n (record_append_failure n peer res)
  offer : (command : ClusterCommand) → Other n (propose n command).0
  join : (peer : NodeId) → Other n (add_peer n peer)
  leave : (peer : NodeId) → Other n (remove_peer n peer)
  apply : Other n (apply_committed n).0
  restore :
      (codec : StateCodec) {bytes : Bytes} {m : RaftNode}
      → serialize_state codec n ≡ ok bytes
      → deserialize_state codec n bytes ≡ ok m
      → Other n m
  restart :
      (codec : StateCodec) (now : ℕ) {bytes : Bytes} {m : RaftNode}
      → serialize_state codec n ≡ ok bytes
      → deserialize_state codec (new now n.node_id n.peers) bytes ≡ ok m
      → Other n m

-- An election needs a term above the current one among the `u64`s.
pub data Step (n : RaftNode) : RaftNode → Type 0 where
  elect : (now : ℕ) → n.persistent.current_term + 1 < u64_mod → Step n (start_election now n).0
  vote : (now : ℕ) (req : RequestVoteRequest) → Step n (handle_request_vote now n req).0
  count : (voter : NodeId) (res : RequestVoteResponse) → Step n (record_vote n voter res).0
  other : {m : RaftNode} → Other n m → Step n m

pub data Reach (n : RaftNode) : RaftNode → Type 0 where
  here : Reach n n
  next : {m k : RaftNode} → Reach n m → Step m k → Reach n k

-- The term never falls, and a vote cast stands as long as the term does.
pub record KeepsVote (n m : RaftNode) : Type 0 where
  pub term_le : n.persistent.current_term ≤ m.persistent.current_term
  pub vote_kept :
      (c : NodeId)
      → m.persistent.current_term ≡ n.persistent.current_term
      → n.persistent.voted_for ≡ some c
      → m.persistent.voted_for ≡ some c

pub KeepsVote-refl : (n : RaftNode) → KeepsVote n n
KeepsVote-refl n = record { term_le = omega arith; vote_kept = λ c e h. h }

pub KeepsVote-trans : {n m k : RaftNode} → KeepsVote n m → KeepsVote m k → KeepsVote n k
KeepsVote-trans a b = record {
  term_le = omega (arith, a.term_le, b.term_le);
  vote_kept = λ c e h.
      b.vote_kept c (omega (arith, a.term_le, b.term_le))
        (a.vote_kept c (omega (arith, a.term_le, b.term_le)) h);
}

newer_term-KeepsVote : (term : ℕ) (n : RaftNode) → KeepsVote n (newer_term term n)
unfolding newer_term
newer_term-KeepsVote term n = record { term_le = ground arith; vote_kept = λ c e h. ground arith }

newer_leader-KeepsVote : (term : ℕ) (n : RaftNode) → KeepsVote n (newer_leader term n)
unfolding newer_leader
newer_leader-KeepsVote term n = record { term_le = ground arith; vote_kept = λ c e h. ground arith }

answer_vote-KeepsVote :
    (now : ℕ) (n : RaftNode) (req : RequestVoteRequest) → KeepsVote n (answer_vote now n req).0
unfolding answer_vote
answer_vote-KeepsVote now n req = record {
  term_le = ground arith;
  vote_kept = λ c e h. ground (arith, eq_iff c req.candidate_id);
}

answer_entries-KeepsVote :
    (now : ℕ) (n : RaftNode) (req : AppendEntriesRequest) → KeepsVote n (answer_entries now n req).0
unfolding answer_entries check_entries accept_entries follow
answer_entries-KeepsVote now n req = record {
  term_le = ground arith;
  vote_kept = λ c e h. ground arith;
}

pub start_election-KeepsVote :
    (now : ℕ) (n : RaftNode)
    → n.persistent.current_term + 1 < u64_mod
    → KeepsVote n (start_election now n).0
unfolding start_election
start_election-KeepsVote now n h = record {
  term_le = omega arith;
  vote_kept = λ c e v. absurd (omega arith);
}

pub record_vote-KeepsVote :
    (n : RaftNode) (voter : NodeId) (res : RequestVoteResponse)
    → KeepsVote n (record_vote n voter res).0
unfolding record_vote count_vote
record_vote-KeepsVote n voter res = record {
  term_le = ground arith;
  vote_kept = λ c e v. ground arith;
}

record_append_success-KeepsVote :
    (n : RaftNode) (peer : NodeId) (res : AppendEntriesResponse)
    → KeepsVote n (record_append_success n peer res)
unfolding record_append_success
record_append_success-KeepsVote n peer res = record {
  term_le = ground arith;
  vote_kept = λ c e v. ground arith;
}

record_append_failure-KeepsVote :
    (n : RaftNode) (peer : NodeId) (res : AppendEntriesResponse)
    → KeepsVote n (record_append_failure n peer res)
unfolding record_append_failure
record_append_failure-KeepsVote n peer res = record {
  term_le = ground arith;
  vote_kept = λ c e v. ground arith;
}

propose-KeepsVote : (n : RaftNode) (command : ClusterCommand) → KeepsVote n (propose n command).0
unfolding propose
propose-KeepsVote n command = record { term_le = ground arith; vote_kept = λ c e v. ground arith }

add_peer-KeepsVote : (n : RaftNode) (peer : NodeId) → KeepsVote n (add_peer n peer)
unfolding add_peer
add_peer-KeepsVote n peer = record { term_le = ground arith; vote_kept = λ c e v. ground arith }

pub vote-KeepsVote :
    (now : ℕ) (n : RaftNode) (req : RequestVoteRequest)
    → KeepsVote n (handle_request_vote now n req).0
unfolding handle_request_vote
vote-KeepsVote now n req =
    KeepsVote-trans (newer_term-KeepsVote req.term n)
      (answer_vote-KeepsVote now (newer_term req.term n) req)

pub Other-KeepsVote : {n m : RaftNode} → Other n m → KeepsVote n m
unfolding handle_append_entries remove_peer apply_committed
Other-KeepsVote {n} (append now req) =
    KeepsVote-trans (newer_leader-KeepsVote req.term n)
      (answer_entries-KeepsVote now (newer_leader req.term n) req)
Other-KeepsVote {n} (succeed peer res) = record_append_success-KeepsVote n peer res
Other-KeepsVote {n} (fail peer res) = record_append_failure-KeepsVote n peer res
Other-KeepsVote {n} (offer command) = propose-KeepsVote n command
Other-KeepsVote {n} (join peer) = add_peer-KeepsVote n peer
Other-KeepsVote {n} (leave peer) = record { term_le = omega arith; vote_kept = λ c e h. h }
Other-KeepsVote {n} apply = record { term_le = omega arith; vote_kept = λ c e h. h }
Other-KeepsVote {n} (restore codec saved done) =
    subst (KeepsVote n) (restored_lem codec n n saved done) (KeepsVote-refl n)
Other-KeepsVote {n} (restart codec now saved done) =
    subst (KeepsVote n) (restored_lem codec n (new now n.node_id n.peers) saved done)
      (record { term_le = omega arith; vote_kept = λ c e h. h })

Step-KeepsVote : {n m : RaftNode} → Step n m → KeepsVote n m
Step-KeepsVote {n} (elect now h) = start_election-KeepsVote now n h
Step-KeepsVote {n} (vote now req) = vote-KeepsVote now n req
Step-KeepsVote {n} (count voter res) = record_vote-KeepsVote n voter res
Step-KeepsVote (other s) = Other-KeepsVote s

-- Through any operations the term never falls, and as long as it is the same, a vote that was cast
-- stays cast for the same candidate.
pub Reach-KeepsVote : {n m : RaftNode} → Reach n m → KeepsVote n m
Reach-KeepsVote {n} here = KeepsVote-refl n
Reach-KeepsVote (next r s) = KeepsVote-trans (Reach-KeepsVote r) (Step-KeepsVote s)

-- A node that voted for a candidate, after any operations that leave its term, grants a request of
-- no later term only to that candidate.
pub one_vote_per_term :
    {n m : RaftNode} {c : NodeId}
    → n.persistent.voted_for ≡ some c
    → Reach n m
    → (now : ℕ) (req : RequestVoteRequest) → m.persistent.current_term ≡ n.persistent.current_term
    → req.term ≤ n.persistent.current_term
    → (handle_request_vote now m req).1.vote_granted ≡ true
    → req.candidate_id ≡ c
one_vote_per_term {m} {c} voted r now req same late granted =
    let kept = (Reach-KeepsVote r).vote_kept c same voted in
    ground (arith, (handle_request_vote_grants now m req).0 granted)
