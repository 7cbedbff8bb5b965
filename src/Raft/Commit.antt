-- ===== src/Raft/Commit.antt =====
-- raft.rs, `record_append_success` and `propose`: how a leader's log and commit index grow.
use native.Mathlib.Numerals.{add-one}
use cassettedb.Prelude.{
  ◌+◌, ◌/◌, ◌<◌, ◌≡◌, refl, ◌∙◌, ◌⊎◌, inl, inr, some, List, [], ◌∷◌, ◌++◌, length, arith,
  length-append, ltb, Bool-cases, get_elem?-append_length, take, take-append_length,
}
use cassettedb.Prelude.Map.{values}
use cassettedb.Prelude.Errors.{ok}
use cassettedb.Raft.Types.{
  LogIndex, NodeId, ClusterCommand, LogEntry, leader, is_leader_role, AppendEntriesResponse,
  RaftNode,
}
use cassettedb.Raft.Log.{entry, last_index, term_or_zero}
use cassettedb.Raft.Node.{propose}
use cassettedb.Raft.Append.{match_indices, quorum_match, advance_commit, record_append_success}
use cassettedb.Raft.Matching.{IsIndexed, IsIndexed-append, entry-get_elem?}
use cassettedb.Raft.Quorum.{count_ge, quorum_match_lem}

abbrev pub MajorityHas : RaftNode → LogIndex → Type 0
MajorityHas n i =
    length (match_indices n.volatile n.persistent.log) / 2
    < count_ge i (match_indices n.volatile n.persistent.log)

match_indices_pos : (n : RaftNode) → 0 < length (match_indices n.volatile n.persistent.log)
unfolding match_indices
match_indices_pos n =
    omega (arith, length-append (values n.volatile.match_index) (last_index n.persistent.log ∷ []))

-- The commit index stays, or it rises to an entry of the current term that a majority holds.
abbrev pub CommitRises : RaftNode → RaftNode → Type 0
CommitRises n m =
    (m.volatile.commit_index ≡ n.volatile.commit_index)
    ⊎ ((n.volatile.commit_index < m.volatile.commit_index)
        × (term_or_zero (entry m.persistent.log m.volatile.commit_index)
            ≡ m.persistent.current_term)
        × MajorityHas m m.volatile.commit_index)

advance_commit-CommitRises : (i : LogIndex) (n : RaftNode) → CommitRises n (advance_commit i n)
unfolding advance_commit match_indices
advance_commit-CommitRises i n =
    let indices = match_indices n.volatile n.persistent.log in
    ground (arith, quorum_match_lem (quorum_match indices) indices (match_indices_pos n))

-- record_append_success leaves the commit index, or raises it to an entry of the leader's current
-- term that more than half of the match indices, the leader's last index among them, have reached.
pub record_append_success_commit :
    (n : RaftNode) (peer : NodeId) (res : AppendEntriesResponse)
    → CommitRises n (record_append_success n peer res)
unfolding record_append_success
record_append_success_commit n peer res =
    elim (Bool-cases (ltb n.persistent.current_term res.term)) [
      | inl newer ↦ rw newer (inl refl)
      | inr current ↦ elim (Bool-cases (is_leader_role n.volatile.role)) [
        | inl leads ↦ rw (current, leads) (advance_commit-CommitRises res.match_index _)
        | inr follows ↦ rw (current, follows) (inl refl)
      ]
    ]

entry-append :
    (log : List LogEntry) (e : LogEntry) → entry (log ++ e ∷ []) (length log + 1) ≡ some e
entry-append log e =
    rw add-one (entry-get_elem? (log ++ e ∷ []) (length log) ∙ get_elem?-append_length log e)

propose_by_leader :
    (n : RaftNode) (command : ClusterCommand)
    → n.volatile.role ≡ leader
    → propose n command ≡ (
      record n {
        persistent = record n.persistent {
          log =
              n.persistent.log
              ++ record {
                index = last_index n.persistent.log + 1;
                term = n.persistent.current_term;
                command = command;
              }
                ∷ [];
        };
      },
      ok (last_index n.persistent.log + 1),
    )
unfolding propose
propose_by_leader n command h = ground arith

-- A leader's proposal is accepted at the index after its last, where entry then finds it with the
-- leader's term; the earlier entries stay, and indices from 1 stay so.
pub propose_lem :
    (n : RaftNode) (command : ClusterCommand)
    → n.volatile.role ≡ leader
    → ((propose n command).1 ≡ ok (last_index n.persistent.log + 1))
      × (entry (propose n command).0.persistent.log (last_index n.persistent.log + 1)
          ≡ some (record {
            index = last_index n.persistent.log + 1;
            term = n.persistent.current_term;
            command = command;
          }))
      × (take (last_index n.persistent.log) (propose n command).0.persistent.log ≡ n.persistent.log)
      × (IsIndexed 1 n.persistent.log → IsIndexed 1 (propose n command).0.persistent.log)
propose_lem n command h =
    let e : LogEntry = record {
      index = last_index n.persistent.log + 1;
      term = n.persistent.current_term;
      command = command;
    } in
    rw (propose_by_leader n command h) (
      refl,
      entry-append n.persistent.log e,
      take-append_length n.persistent.log (e ∷ []),
      IsIndexed-append 1 n.persistent.log e (omega arith),
    )
