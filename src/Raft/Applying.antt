-- ===== src/Raft/Applying.antt =====
-- raft.rs, `apply_committed`: each committed command is handed out once, in the order of the log.
use native.Mathlib.Numerals.{add-one}
use mathlib.Core.List.{map-append}
use cassettedb.Prelude.{
  ℕ, zero, suc, ◌+◌, ◌-◌, ◌≤◌, ◌≡◌, refl, ap, ◌∙◌, none, some, List, [], ◌∷◌, ◌++◌, map, get_elem?,
  take, drop, arith, inl, inr, Option-cases, drop-of_none, drop-of_some, take-nil, take-add,
  get_elem?-none-suc,
}
use cassettedb.Raft.Types.{ClusterCommand, LogEntry, RaftNode}
use cassettedb.Raft.Append.{apply_loop, apply_committed}
use cassettedb.Raft.Matching.{entry-get_elem?}

abbrev pub commands : List LogEntry → List ClusterCommand
commands = map (λ e. e.command)

apply_loop_last :
    (rounds applied : ℕ) (log : List LogEntry)
    → (apply_loop rounds applied log).0 ≡ applied + rounds
unfolding apply_loop
apply_loop_last zero applied log = omega arith
apply_loop_last (suc r) applied log = omega (arith, apply_loop_last r (applied + 1) log)

apply_loop_skip :
    (r applied : ℕ) (log : List LogEntry)
    → get_elem? log applied ≡ none
    → (apply_loop (suc r) applied log).1 ≡ (apply_loop r (suc applied) log).1
unfolding apply_loop
apply_loop_skip r applied log h = ground (arith, add-one applied, entry-get_elem? log applied)

apply_loop_hit :
    (r applied : ℕ) (log : List LogEntry) {x : LogEntry}
    → get_elem? log applied ≡ some x
    → (apply_loop (suc r) applied log).1 ≡ x.command ∷ (apply_loop r (suc applied) log).1
unfolding apply_loop
apply_loop_hit r applied log h = ground (arith, add-one applied, entry-get_elem? log applied)

apply_loop-commands :
    (rounds applied : ℕ) (log : List LogEntry)
    → (apply_loop rounds applied log).1 ≡ commands (take rounds (drop applied log))
unfolding apply_loop
apply_loop-commands zero applied log = refl
apply_loop-commands (suc r) applied log = elim (Option-cases (get_elem? log applied)) [
  | inl missing ↦
      let rest : take (suc r) (drop applied log) ≡ [] =
        ap (take (suc r)) (drop-of_none log applied missing) in
      let later : take r (drop (suc applied) log) ≡ [] =
        ap (take r) (drop-of_none log (suc applied) (get_elem?-none-suc log applied missing))
        ∙ take-nil r in
      rw (
        apply_loop_skip r applied log missing,
        apply_loop-commands r (suc applied) log,
        rest,
        later,
      )
  | inr (x, found) ↦ rw (
    apply_loop_hit r applied log found,
    apply_loop-commands r (suc applied) log,
    drop-of_some log applied found,
  )
]

commands-take :
    (a k : ℕ) (log : List LogEntry)
    → commands (take a log) ++ commands (take k (drop a log)) ≡ commands (take (a + k) log)
commands-take a k log = rw (← map-append, take-add)

-- Where no more is applied than committed, the commands applied before followed by those that
-- apply_committed returns are those of the committed part of the log, all of it is then applied,
-- and a further call returns nothing.
pub apply_committed_prefix :
    (n : RaftNode)
    → n.volatile.last_applied ≤ n.volatile.commit_index
    → (commands (take n.volatile.last_applied n.persistent.log) ++ (apply_committed n).1
        ≡ commands (take n.volatile.commit_index n.persistent.log))
      × ((apply_committed n).0.volatile.last_applied ≡ n.volatile.commit_index)
      × ((apply_committed (apply_committed n).0).1 ≡ [])
unfolding apply_committed
apply_committed_prefix n h =
    let log = n.persistent.log in
    let a = n.volatile.last_applied in
    let c = n.volatile.commit_index in
    let meets : a + (c - a) ≡ c = omega arith in
    let last : (apply_loop (c - a) a log).0 ≡ c = apply_loop_last (c - a) a log ∙ meets in
    let nothing : c - (apply_loop (c - a) a log).0 ≡ 0 = omega (arith, last) in
    (
      ap (◌++◌ (commands (take a log))) (apply_loop-commands (c - a) a log)
          ∙ commands-take a (c - a) log
          ∙ ap (λ (k : ℕ). commands (take k log)) meets,
      last,
      rw nothing (apply_loop-commands 0 (apply_loop (c - a) a log).0 log),
    )
