-- ===== src/Raft/Replication.antt =====
-- raft.rs, `handle_append_entries`: when it succeeds, what it keeps, and what a success means.
use cassettedb.Prelude.{
  ℕ, ◌+◌, ◌%◌, ◌≤◌, ◌<◌, ◌≡◌, refl, ap, ◌∙◌, suc, ◌↔◌, inl, inr, true, false, some, List, [],
  length, take, min, if◌then◌else◌, arith, ltb, Option-cases, take-of_take, take-of_take,
}
use cassettedb.Raft.Types.{LogEntry, AppendEntriesRequest, RaftNode, u64_mod}
use cassettedb.Raft.Log.{entry, last_index}
use cassettedb.Raft.Append.{
  append_all, log_consistent, accept_entries, newer_leader, follow, check_entries, answer_entries,
  handle_append_entries,
}
use cassettedb.Raft.Matching.{IsIndexed, terms, Continues, append_all-Continues, append_all_twice}

-- What a success says of the logs: entry `prev_log_index` has the term that was sent, if the log
-- holds it; before the first entry the term is 0.
abbrev pub AgreesAt : List LogEntry → AppendEntriesRequest → Type 0
AgreesAt log req =
    (req.prev_log_index ≡ 0 → req.prev_log_term ≡ 0)
    × ((e : LogEntry) → entry log req.prev_log_index ≡ some e → e.term ≡ req.prev_log_term)

log_consistent_iff :
    (log : List LogEntry) (req : AppendEntriesRequest)
    → (log_consistent log req.prev_log_index req.prev_log_term ≡ true) ↔ AgreesAt log req
unfolding log_consistent
log_consistent_iff log req = (λ h. (ground arith, λ e found. ground arith), λ h. by_entry h)
  where
    by_entry : AgreesAt log req → log_consistent log req.prev_log_index req.prev_log_term ≡ true
    by_entry h = elim (Option-cases (entry log req.prev_log_index)) [
      | inl missing ↦ ground (arith, h.0, missing)
      | inr (e, found) ↦ ground (arith, h.0, found, h.1 e found)
    ]

newer_leader_log :
    (term : ℕ) (n : RaftNode) → (newer_leader term n).persistent.log ≡ n.persistent.log
unfolding newer_leader
newer_leader_log term n = ground arith

newer_leader_commit :
    (term : ℕ) (n : RaftNode)
    → (newer_leader term n).volatile.commit_index ≡ n.volatile.commit_index
unfolding newer_leader
newer_leader_commit term n = ground arith

newer_leader_fits :
    (term : ℕ) (n : RaftNode)
    → (ltb term (newer_leader term n).persistent.current_term ≡ false)
      ↔ (n.persistent.current_term ≤ term)
unfolding newer_leader
newer_leader_fits term n = ground arith

answer_entries_success :
    (now : ℕ) (n : RaftNode) (req : AppendEntriesRequest)
    → ((answer_entries now n req).1.success ≡ true) ↔ (
        (ltb req.term n.persistent.current_term ≡ false)
        × (log_consistent n.persistent.log req.prev_log_index req.prev_log_term ≡ true))
unfolding answer_entries check_entries accept_entries follow
answer_entries_success now n req = ground arith

handled :
    (now : ℕ) (n : RaftNode) (req : AppendEntriesRequest)
    → handle_append_entries now n req ≡ answer_entries now (newer_leader req.term n) req
unfolding handle_append_entries
handled now n req = refl

success_test :
    (now : ℕ) (n : RaftNode) (req : AppendEntriesRequest)
    → ((handle_append_entries now n req).1.success ≡ true) ↔ (
        (n.persistent.current_term ≤ req.term)
        × (log_consistent n.persistent.log req.prev_log_index req.prev_log_term ≡ true))
success_test now n req = ground (
  arith,
  handled now n req,
  answer_entries_success now (newer_leader req.term n) req,
  newer_leader_log req.term n,
  newer_leader_fits req.term n,
)

-- An AppendEntries answer is a success exactly if the sender's term is not older than the node's
-- and the logs agree at the previous entry, which a missing entry does.
pub handle_append_entries_success :
    (now : ℕ) (n : RaftNode) (req : AppendEntriesRequest)
    → ((handle_append_entries now n req).1.success ≡ true)
      ↔ ((n.persistent.current_term ≤ req.term) × AgreesAt n.persistent.log req)
handle_append_entries_success now n req =
    let test = success_test now n req in
    let agrees = log_consistent_iff n.persistent.log req in
    (λ h. ((test.0 h).0, agrees.0 (test.0 h).1), λ h. test.1 (h.0, agrees.1 h.1))

answer_entries_accepts :
    (now : ℕ) (n : RaftNode) (req : AppendEntriesRequest)
    → (answer_entries now n req).1.success ≡ true
    → ((answer_entries now n req).0.persistent.log ≡ append_all n.persistent.log req.entries)
      × ((answer_entries now n req).0.volatile.commit_index ≡ (
          if ltb n.volatile.commit_index req.leader_commit
          then min req.leader_commit (length (append_all n.persistent.log req.entries))
          else n.volatile.commit_index))
unfolding answer_entries check_entries accept_entries follow
answer_entries_accepts now n req h = ground arith

accepts :
    (now : ℕ) (n : RaftNode) (req : AppendEntriesRequest)
    → (handle_append_entries now n req).1.success ≡ true
    → ((handle_append_entries now n req).0.persistent.log ≡ append_all n.persistent.log req.entries)
      × ((handle_append_entries now n req).0.volatile.commit_index ≡ (
          if ltb n.volatile.commit_index req.leader_commit
          then min req.leader_commit (length (append_all n.persistent.log req.entries))
          else n.volatile.commit_index))
accepts now n req h = ground (
  arith,
  handled now n req,
  answer_entries_accepts now (newer_leader req.term n) req,
  newer_leader_log req.term n,
  newer_leader_commit req.term n,
)

-- A success of handle_append_entries with entries numbered from prev_log_index + 1, at a node that
-- holds entry prev_log_index, leaves a log that agrees with the old one up to prev_log_index and
-- continues with entries of the terms sent; a log with indices from 1 keeps them.
pub append_entries-Continues :
    (now : ℕ) (n : RaftNode) (req : AppendEntriesRequest)
    → req.prev_log_index ≤ last_index n.persistent.log
    → IsIndexed (suc req.prev_log_index) req.entries
    → (handle_append_entries now n req).1.success ≡ true
    → Continues req.prev_log_index n.persistent.log
        (handle_append_entries now n req).0.persistent.log
        (terms req.entries)
append_entries-Continues now n req held numbered h =
    rw ((accepts now n req h).0)
      (append_all-Continues n.persistent.log req.entries req.prev_log_index numbered held)

-- A success of handle_append_entries with entries numbered from prev_log_index + 1, at a node that
-- holds entry prev_log_index and has committed nothing past it, does not lower the commit index,
-- keeps it within the log and keeps every committed entry.
pub append_entries_commit :
    (now : ℕ) (n : RaftNode) (req : AppendEntriesRequest)
    → req.prev_log_index ≤ last_index n.persistent.log
    → IsIndexed (suc req.prev_log_index) req.entries
    → n.volatile.commit_index ≤ req.prev_log_index
    → (handle_append_entries now n req).1.success ≡ true
    → (n.volatile.commit_index ≤ (handle_append_entries now n req).0.volatile.commit_index)
      × ((handle_append_entries now n req).0.volatile.commit_index
          ≤ last_index (handle_append_entries now n req).0.persistent.log)
      × (take n.volatile.commit_index (handle_append_entries now n req).0.persistent.log
          ≡ take n.volatile.commit_index n.persistent.log)
append_entries_commit now n req held numbered committed h =
    let after = append_entries-Continues now n req held numbered h in
    let room = after.fits in
    let log = (accepts now n req h).0 in
    let commit = (accepts now n req h).1 in
    (
      ground (arith, log, commit, room),
      ground (arith, log, commit, room),
      take-of_take _ _ committed after.kept,
    )

-- Handling the same accepted AppendEntries request a second time, if that succeeds too, leaves the
-- log as the first time did, for entries numbered from prev_log_index + 1 at a node that holds
-- entry prev_log_index.
pub append_entries_twice :
    (now later : ℕ) (n : RaftNode) (req : AppendEntriesRequest)
    → req.prev_log_index ≤ last_index n.persistent.log
    → IsIndexed (suc req.prev_log_index) req.entries
    → (handle_append_entries now n req).1.success ≡ true
    → (handle_append_entries later (handle_append_entries now n req).0 req).1.success ≡ true
    → (handle_append_entries later (handle_append_entries now n req).0 req).0.persistent.log
      ≡ (handle_append_entries now n req).0.persistent.log
append_entries_twice now later n req held numbered h k =
    let first = (handle_append_entries now n req).0 in
    (accepts later first req k).0
    ∙ (rw ((accepts now n req h).0)
        (append_all_twice n.persistent.log req.entries req.prev_log_index numbered held))

answer_entries_refused :
    (now : ℕ) (n : RaftNode) (req : AppendEntriesRequest)
    → (answer_entries now n req).1.success ≡ false
    → ((answer_entries now n req).0.persistent.log ≡ n.persistent.log)
      × ((answer_entries now n req).0.volatile.commit_index ≡ n.volatile.commit_index)
      × ((answer_entries now n req).1.match_index ≡ 0)
unfolding answer_entries check_entries accept_entries follow
answer_entries_refused now n req h = ground arith

-- A refused AppendEntries request changes neither the log nor the commit index and reports the
-- match index 0.
pub append_entries_refused :
    (now : ℕ) (n : RaftNode) (req : AppendEntriesRequest)
    → (handle_append_entries now n req).1.success ≡ false
    → ((handle_append_entries now n req).0.persistent.log ≡ n.persistent.log)
      × ((handle_append_entries now n req).0.volatile.commit_index ≡ n.volatile.commit_index)
      × ((handle_append_entries now n req).1.match_index ≡ 0)
append_entries_refused now n req h = ground (
  arith,
  handled now n req,
  answer_entries_refused now (newer_leader req.term n) req,
  newer_leader_log req.term n,
  newer_leader_commit req.term n,
)

match_index_answered :
    (now : ℕ) (n : RaftNode) (req : AppendEntriesRequest)
    → (answer_entries now n req).1.success ≡ true
    → (answer_entries now n req).1.match_index ≡ (req.prev_log_index + length req.entries) % u64_mod
unfolding answer_entries check_entries accept_entries follow
match_index_answered now n req h = ground arith

past_consistent :
    (log : List LogEntry) (p t : ℕ) → last_index log < p → log_consistent log p t ≡ true
unfolding log_consistent
past_consistent log p t h = ground arith

-- A heartbeat of no older term that names a previous entry past the end of the log is answered as
-- a success with that entry as the match index, whatever its term, and the log does not change.
pub missing_prev_accepted :
    (now : ℕ) (n : RaftNode) (req : AppendEntriesRequest)
    → n.persistent.current_term ≤ req.term
    → last_index n.persistent.log < req.prev_log_index
    → req.prev_log_index < u64_mod
    → req.entries ≡ []
    → ((handle_append_entries now n req).1.success ≡ true)
      × ((handle_append_entries now n req).1.match_index ≡ req.prev_log_index)
      × ((handle_append_entries now n req).0.persistent.log ≡ n.persistent.log)
unfolding append_all
missing_prev_accepted now n req fits past small unsent =
    let granted =
      (success_test now n req).1
        (fits, past_consistent n.persistent.log req.prev_log_index req.prev_log_term past) in
    (
      granted,
      ground (
        arith,
        handled now n req,
        match_index_answered now (newer_leader req.term n) req,
        ap {B = ℕ} length unsent,
      ),
      (accepts now n req granted).0 ∙ ap (append_all n.persistent.log) unsent,
    )
