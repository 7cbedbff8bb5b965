-- ===== src/DistTx/Examples.antt =====
-- Runs of dist_tx.rs on small inputs, after the tests of that file, and the theorems at such inputs.
use cassettedb.Prelude.{
  ◌≡◌, refl, ◌↔◌, ◌≢◌, inr, true, Option, none, some, String, List, [], ◌∷◌, All,
}
use cassettedb.Prelude.Map
use cassettedb.Prelude.Map.{get}
use cassettedb.Prelude.Names.{Among}
use cassettedb.Prelude.Errors.{ok, err, dist_tx}
use cassettedb.DistTx.Types
use cassettedb.DistTx.Types.{
  TxPhase, voting, prepared, committed, aborted, yes_vote, no_vote, TxOp, delete, Participant,
  PrepareResponse, DistributedTransaction, names,
}
use cassettedb.DistTx.Coordinator.{
  TwoPhaseCoordinator, new_coordinator, begin, add_operation, prepare, commit, abort, recover,
  decide, record_votes, find, store,
}
use cassettedb.DistTx.Votes.{last_vote}
use cassettedb.DistTx.Safety.{
  begins, prepares, commits, Reached, started, stepped, committed_unanimous,
}
use cassettedb.DistTx.Decisions.{stays, moves, leads, phase_advances}
use cassettedb.DistTx.Answers.{prepare_prepared, commit_prepared, abort_uncommitted, Recovers}

abbrev yes_from : String → PrepareResponse
yes_from n = record { tx_id = "t"; node_id = n; vote = yes_vote }

abbrev two_yes : List PrepareResponse
two_yes = yes_from "a" ∷ yes_from "b" ∷ []

abbrev tx_with : Option (List Participant) → TxPhase → DistributedTransaction String
tx_with votes phase = record {
  tx_id = "t";
  coordinator = "n";
  participants = elim votes [
    | none ↦ record { node_id = "a"; vote = none } ∷ record { node_id = "b"; vote = none } ∷ []
    | some ps ↦ ps
  ];
  operations = [];
  phase = phase;
}

abbrev all_yes : List Participant
all_yes =
    record { node_id = "a"; vote = some yes_vote }
    ∷ record { node_id = "b"; vote = some yes_vote }
    ∷ []

abbrev log_of : DistributedTransaction String → TwoPhaseCoordinator String
log_of tx = record { node_id = "n"; log = ("t", tx) ∷ [] }

abbrev begun : TwoPhaseCoordinator String
begun = log_of (tx_with none voting)

begin_run : (begin (new_coordinator "n") "t" ("a" ∷ "b" ∷ "a" ∷ [])).0 ≡ begun
unfolding begin Map.insert Types.add_participant Types.new
begin_run = refl

prepare_run : prepare begun "t" two_yes ≡ ok (log_of (tx_with (some all_yes) prepared), prepared)
unfolding prepare get decide record_votes Types.record_vote Types.set_vote Types.outcome store
    Map.contains_key Map.insert
prepare_run = refl

-- One answer is missing.
prepare_incomplete : prepare begun "t" (yes_from "a" ∷ []) ≡ err (dist_tx "votes not complete")
unfolding prepare get decide record_votes Types.record_vote Types.set_vote Types.outcome store
    Map.contains_key Map.insert
prepare_incomplete = refl

commit_run :
    commit (log_of (tx_with (some all_yes) prepared)) "t"
    ≡ ok (log_of (tx_with (some all_yes) committed))
unfolding commit get find Types.commit store Map.contains_key Map.insert
commit_run = refl

commit_unprepared : commit begun "t" ≡ err (dist_tx "transaction is not prepared")
unfolding commit get find Types.commit store Map.contains_key Map.insert
commit_unprepared = refl

-- An operation may be added after the decision.
add_operation_late :
    add_operation (log_of (tx_with (some all_yes) committed)) "t" (delete "c" "d")
    ≡ ok (log_of (record (tx_with (some all_yes) committed) { operations = delete "c" "d" ∷ [] }))
unfolding add_operation get find Types.add_operation store Map.contains_key Map.insert
add_operation_late = refl

reached_begun : Reached begun
unfolding begin Map.insert Types.add_participant Types.new
reached_begun = stepped (started "n") (begins (new_coordinator "n") "t" ("a" ∷ "b" ∷ "a" ∷ []))

reached_prepared : Reached (log_of (tx_with (some all_yes) prepared))
reached_prepared = stepped reached_begun (prepares "t" two_yes prepare_run)

reached_committed : Reached (log_of (tx_with (some all_yes) committed))
reached_committed = stepped reached_prepared (commits "t" commit_run)

found_in : (tx : DistributedTransaction String) → get (log_of tx).log "t" ≡ some tx
unfolding get
found_in tx = refl

committed_unanimous_example : All (λ p. p.vote ≡ some yes_vote) all_yes
committed_unanimous_example =
    committed_unanimous "t" (tx_with (some all_yes) committed) reached_committed
      (found_in (tx_with (some all_yes) committed)) (inr refl)

phase_advances_example :
    (tx' : DistributedTransaction String) × (get (log_of (tx_with (some all_yes) committed)).log "t"
      ≡ some tx')
    × (leads voting tx'.phase ≡ true)
phase_advances_example =
    phase_advances "t" (tx_with none voting) reached_begun (found_in (tx_with none voting))
      (moves (moves stays (prepares "t" two_yes prepare_run) tt) (commits "t" commit_run) tt)

prepare_prepared_example :
    ((c' : TwoPhaseCoordinator String) × (prepare begun "t" two_yes ≡ ok (c', prepared))) ↔ (
      All (λ r. Among r.node_id (names (tx_with none voting).participants)) two_yes
      × All (λ p. last_vote two_yes p.node_id ≡ some yes_vote) (tx_with none voting).participants)
prepare_prepared_example =
    prepare_prepared "t" two_yes (tx_with none voting) reached_begun
      (found_in (tx_with none voting)) refl

commit_prepared_example :
    (((c' : TwoPhaseCoordinator String) × (commit (log_of (tx_with (some all_yes) prepared)) "t"
          ≡ ok c'))
      ↔ (recover (log_of (tx_with (some all_yes) prepared)) "t" ≡ some prepared))
    × Recovers "t" committed (commit (log_of (tx_with (some all_yes) prepared)) "t")
commit_prepared_example = commit_prepared "t" reached_prepared

abort_uncommitted_example :
    (((c' : TwoPhaseCoordinator String) × (abort (log_of (tx_with (some all_yes) prepared)) "t"
          ≡ ok c'))
      ↔ ((phase : TxPhase) × (recover (log_of (tx_with (some all_yes) prepared)) "t" ≡ some phase)
          × (phase ≢ committed)))
    × Recovers "t" aborted (abort (log_of (tx_with (some all_yes) prepared)) "t")
abort_uncommitted_example = abort_uncommitted "t" reached_prepared
