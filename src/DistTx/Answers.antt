-- ===== src/DistTx/Answers.antt =====
-- dist_tx.rs: what prepare and commit answer.
use cassettedb.Prelude.{
  String, ◌≡◌, refl, sym, ap, ◌∙◌, ◌↔◌, inl, inr, true, Option, none, some, List, [], ◌∷◌, All, all,
  arith, eq_iff, Option-cases, subst, ◌≢◌,
}
use cassettedb.Prelude.Names.{Among, Distinct}
use cassettedb.Prelude.Map.{get, get-insert}
use cassettedb.Prelude.Errors.{Result, ok, err}
use cassettedb.DistTx.Types
use cassettedb.DistTx.Types.{
  TxPhase, voting, prepared, committed, aborted, TxOp, DistributedTransaction, PrepareResponse,
  Participant, names, is_yes, is_some, ParticipantVote, yes_vote, no_vote, outcome,
  all_votes_received, add_unless_known,
}
use cassettedb.DistTx.Coordinator.{
  TwoPhaseCoordinator, decide, is_voting, prepare, commit, abort, recover,
}
use cassettedb.DistTx.Votes.{with_votes, record_votes_known, last_vote, overridden}
use cassettedb.DistTx.Changes.{
  written, changing, changing-ok, prepare-ok, commit-ok, abort-ok, commit-changing, abort-changing,
  prepare_found, changing_found,
}
use cassettedb.DistTx.Invariant.{VotedYes, VotesOf, Unvoted, decide-ok, outcome-VotesOf}
use cassettedb.DistTx.Safety.{Reached, Reached-Consistent}

-- Every participant's last response is a yes.
abbrev pub AnsweredYes : List PrepareResponse → List Participant → Type 0
AnsweredYes rs = All (λ p. last_vote rs p.node_id ≡ some yes_vote)

answers_received :
    (rs : List PrepareResponse) (ps : List Participant)
    → AnsweredYes rs ps
    → (all (λ p. is_some p.vote) (with_votes rs ps) ≡ true)
      × (all (λ p. is_yes p.vote) (with_votes rs ps) ≡ true)
answers_received rs [] h = (refl, refl)
answers_received rs (p ∷ ps) h = rw h.0 (answers_received rs ps h.1)

overridden-none : (o : Option ParticipantVote) → overridden o none ≡ o
overridden-none none = refl
overridden-none (some v) = refl

votes_answered :
    (rs : List PrepareResponse) (ps : List Participant)
    → Unvoted ps
    → VotedYes (with_votes rs ps)
    → AnsweredYes rs ps
votes_answered rs [] u v = tt
votes_answered rs (p ∷ ps) u v = (
  sym (overridden-none (last_vote rs p.node_id))
      ∙ ap (overridden (last_vote rs p.node_id)) (sym u.0)
      ∙ v.0,
  votes_answered rs ps u.1 v.1,
)

module _ {V : Type 0} where
  outcome_yes :
      (tx : DistributedTransaction V)
      → (all (λ p. is_some p.vote) tx.participants ≡ true)
        × (all (λ p. is_yes p.vote) tx.participants ≡ true)
      → outcome tx ≡ some prepared
  unfolding outcome all_votes_received
  outcome_yes tx (complete, unanimous) = rw (complete, unanimous)

  decide_yes :
      (tx : DistributedTransaction V) (rs : List PrepareResponse)
      → tx.phase ≡ voting
      → Distinct (names tx.participants)
      → All (λ r. Among r.node_id (names tx.participants)) rs
      → AnsweredYes rs tx.participants
      → decide tx rs
        ≡ ok (record tx { participants = with_votes rs tx.participants; phase = prepared })
  unfolding decide
  decide_yes tx rs v d known answers =
      let t : DistributedTransaction V = record tx {
        participants = with_votes rs tx.participants;
      } in
      let out = outcome_yes t (answers_received rs tx.participants answers) in
      rw (ap is_voting v, record_votes_known tx rs d known, out)

  -- In a reached state, prepare answers prepared for a transaction in its voting phase exactly if
  -- all responses come from its participants and the last response of each participant is a yes.
  pub prepare_prepared :
      {c : TwoPhaseCoordinator V} (id : String) (rs : List PrepareResponse)
      (tx : DistributedTransaction V)
      → Reached c
      → get c.log id ≡ some tx
      → tx.phase ≡ voting
      → ((c' : TwoPhaseCoordinator V) × (prepare c id rs ≡ ok (c', prepared))) ↔ (
          All (λ r. Among r.node_id (names tx.participants)) rs
          × All (λ p. last_vote rs p.node_id ≡ some yes_vote) tx.participants)
  prepare_prepared {c} id rs tx reached found v =
      let s = Reached-Consistent reached id tx found in
      (
        (λ (c', done).
            let (t, t', there, decided, _, e) = prepare-ok c id rs done in
            let same : t ≡ tx = cc (there, found) in
            let decided_tx : decide tx rs ≡ ok t' =
              subst (λ (t : DistributedTransaction V). decide t rs ≡ ok t') same decided in
            let (phase, _, known, out, e') = decide-ok tx rs decided_tx s.distinct in
            let now : phase ≡ prepared =
              sym (e ∙ ap (λ (t : DistributedTransaction V). t.phase) e') in
            let unvoted = subst (λ ph. VotesOf ph tx.participants) v s.voted in
            let t'' : DistributedTransaction V = record tx {
              participants = with_votes rs tx.participants;
            } in
            (
              known,
              votes_answered rs tx.participants unvoted
                  (outcome-VotesOf t'' prepared (out ∙ ap some now)),
            )),
        λ (known, answers).
            let d = decide_yes tx rs v s.distinct known answers in
            (_, prepare_found c id rs found d s.keyed),
      )

  commit_of_prepared :
      (tx : DistributedTransaction V)
      → tx.phase ≡ prepared
      → Types.commit tx ≡ ok (record tx { phase = committed })
  unfolding Types.commit
  commit_of_prepared tx h = ground arith

  abort_of_open :
      (tx : DistributedTransaction V)
      → tx.phase ≢ committed
      → Types.abort tx ≡ ok (record tx { phase = aborted })
  unfolding Types.abort
  abort_of_open tx h = ground arith

  recover_found :
      (c : TwoPhaseCoordinator V) (id : String) {tx : DistributedTransaction V}
      → get c.log id ≡ some tx
      → recover c id ≡ some tx.phase
  unfolding recover
  recover_found c id h = ground (arith, h)

  recover-some :
      (c : TwoPhaseCoordinator V) (id : String) {phase : TxPhase}
      → recover c id ≡ some phase
      → (tx : DistributedTransaction V) × (get c.log id ≡ some tx) × (tx.phase ≡ phase)
  unfolding recover
  recover-some c id h = elim (Option-cases (get c.log id)) [
    | inl missing ↦ absurd (ground (arith, missing))
    | inr (tx, found) ↦ (tx, found, ground (arith, found))
  ]

  get-written :
      (c : TwoPhaseCoordinator V) (id : String) (tx : DistributedTransaction V)
      → tx.tx_id ≡ id
      → get (written c tx).log id ≡ some tx
  get-written c id tx e = get-insert c.log tx.tx_id id tx ∙ (rw ((eq_iff tx.tx_id id).1 e))

  -- What the coordinator recovers after a call that succeeded.
  abbrev pub Recovers : String → TxPhase → Result (TwoPhaseCoordinator V) → Type 0
  Recovers id phase (err e) = Unit
  Recovers id phase (ok c) = recover c id ≡ some phase

  -- Of a call that makes the change on the transaction found, with its answer.
  changed-Recovers :
      {c : TwoPhaseCoordinator V} (id : String) (phase : TxPhase)
      (change : DistributedTransaction V → Result (DistributedTransaction V))
      → Reached c
      → ((tx tx' : DistributedTransaction V)
          → change tx ≡ ok tx'
          → tx' ≡ record tx { phase = phase })
      → (r : Result (TwoPhaseCoordinator V)) → changing change c id ≡ r
      → Recovers id phase r
  changed-Recovers id phase change reached made (err e) h = tt
  changed-Recovers {c} id phase change reached made (ok c') done =
      let (tx, tx', found, changed, same) = changing-ok change c id done in
      let shape = made tx tx' changed in
      let keyed : tx'.tx_id ≡ id =
        ap (λ (t : DistributedTransaction V). t.tx_id) shape
        ∙ (Reached-Consistent reached id tx found).keyed in
      ap (λ d. recover d id) same
      ∙ recover_found (written c tx') id (get-written c id tx' keyed)
      ∙ ap (λ (t : DistributedTransaction V). some t.phase) shape

  -- In a reached state, a commit succeeds exactly if the transaction is prepared, and it is then
  -- recovered as committed.
  pub commit_prepared :
      {c : TwoPhaseCoordinator V} (id : String)
      → Reached c
      → (((c' : TwoPhaseCoordinator V) × (commit c id ≡ ok c')) ↔ (recover c id ≡ some prepared))
        × Recovers id committed (commit c id)
  commit_prepared {c} id reached = (
    (
      λ (c', done).
          let (tx, tx', found, made, same) =
            changing-ok Types.commit c id (sym (commit-changing c id) ∙ done) in
          recover_found c id found ∙ ap some (commit-ok tx made).0,
      λ h.
          let (tx, found, phase) = recover-some c id h in
          let keyed = (Reached-Consistent reached id tx found).keyed in
          (
            written c (record tx { phase = committed }),
            commit-changing c id
                ∙ changing_found Types.commit c id found (commit_of_prepared tx phase) keyed,
          ),
    ),
    changed-Recovers id committed Types.commit reached (λ tx tx' made. (commit-ok tx made).1)
        (commit c id) (sym (commit-changing c id)),
  )

  -- In a reached state, an abort succeeds exactly if the transaction is known and not committed,
  -- and it is then recovered as aborted.
  pub abort_uncommitted :
      {c : TwoPhaseCoordinator V} (id : String)
      → Reached c
      → (((c' : TwoPhaseCoordinator V) × (abort c id ≡ ok c'))
          ↔ ((phase : TxPhase) × (recover c id ≡ some phase) × (phase ≢ committed)))
        × Recovers id aborted (abort c id)
  abort_uncommitted {c} id reached = (
    (
      λ (c', done).
          let (tx, tx', found, made, same) =
            changing-ok Types.abort c id (sym (abort-changing c id) ∙ done) in
          (tx.phase, recover_found c id found, (abort-ok tx made).0),
      λ (phase, h, undecided).
          let (tx, found, e) = recover-some c id h in
          let keyed = (Reached-Consistent reached id tx found).keyed in
          (
            written c (record tx { phase = aborted }),
            abort-changing c id
                ∙ changing_found Types.abort c id found
                    (abort_of_open tx (λ k. undecided (sym e ∙ k))) keyed,
          ),
    ),
    changed-Recovers id aborted Types.abort reached (λ tx tx' made. (abort-ok tx made).1)
        (abort c id) (sym (abort-changing c id)),
  )
