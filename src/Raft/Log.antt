-- ===== src/Raft/Log.antt =====
-- raft.rs, `impl PersistentState`. A `Vec` holds fewer than 2^63 entries, so `len() as u64 + 1` does
-- not wrap.
use cassettedb.Prelude.{
  ℕ, ◌+◌, ◌-◌, Option, none, some, List, [], ◌∷◌, ◌++◌, length, get_elem?, last?, ltb, ◌==◌, ◌||◌,
  if◌then◌else◌,
}
use cassettedb.Raft.Types.{Term, LogIndex, ClusterCommand, LogEntry, PersistentState}

-- `PersistentState::new`
abbrev pub new : PersistentState
new = record { current_term = 0; voted_for = none; log = [] }

-- `last_index`, `last_term` and `entry` read the log alone.
abbrev pub last_index : List LogEntry → LogIndex
last_index log = length log

abbrev pub term_or_zero : Option LogEntry → Term
term_or_zero none = 0
term_or_zero (some e) = e.term

unfoldable pub last_term : List LogEntry → Term
last_term log = term_or_zero (last? log)

unfoldable pub entry : List LogEntry → LogIndex → Option LogEntry
entry log index = if index == 0 || ltb (length log) index then none else get_elem? log (index - 1)

unfoldable pub append : PersistentState → Term → ClusterCommand → PersistentState × LogIndex
append p term command =
    let index : ℕ = length p.log + 1 in
    (
      record p { log = p.log ++ record { index = index; term = term; command = command } ∷ [] },
      index,
    )
