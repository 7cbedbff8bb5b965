-- ===== src/DistTx/Safety.antt =====
-- dist_tx.rs: the runs of a coordinator, and what its decisions rest on.
use cassettedb.Prelude.{String, ◌≡◌, refl, sym, ◌∙◌, ◌⊎◌, inl, inr, some, List, All, subst}
use cassettedb.Prelude.Names.{Distinct}
use cassettedb.Prelude.Map.{get}
use cassettedb.Prelude.Errors.{ok}
use cassettedb.Raft.Types.{NodeId}
use cassettedb.DistTx.Types
use cassettedb.DistTx.Types.{
  TxPhase, voting, prepared, committed, aborted, TxOp, DistributedTransaction, PrepareResponse,
  Participant, names, is_yes, is_some, ParticipantVote, yes_vote, no_vote, outcome,
  all_votes_received, add_unless_known,
}
use cassettedb.DistTx.Coordinator.{
  TwoPhaseCoordinator, decide, begin, add_operation, prepare, commit, abort, new_coordinator,
  register,
}
use cassettedb.DistTx.Votes.{with_votes, names-with_votes}
use cassettedb.DistTx.Changes.{
  written, changing-ok, add_operation-changing, commit-changing, abort-changing, prepare-ok,
  commit-ok, abort-ok,
}
use cassettedb.DistTx.Invariant.{
  Sound, Consistent, VotesOf, written-Consistent, decide-ok, add_all-Sound, outcome-VotesOf,
}

-- One operation of the coordinator that succeeds.
pub data Step {V : Type 0} : TwoPhaseCoordinator V → TwoPhaseCoordinator V → Type 0 where
  begins :
      (c : TwoPhaseCoordinator V) (id : String) (participants : List NodeId)
      → Step c (begin c id participants).0
  adds :
      {c c' : TwoPhaseCoordinator V} (id : String) (op : TxOp V)
      → add_operation c id op ≡ ok c'
      → Step c c'
  prepares :
      {c c' : TwoPhaseCoordinator V} {phase : TxPhase} (id : String)
      (responses : List PrepareResponse)
      → prepare c id responses ≡ ok (c', phase)
      → Step c c'
  commits : {c c' : TwoPhaseCoordinator V} (id : String) → commit c id ≡ ok c' → Step c c'
  aborts : {c c' : TwoPhaseCoordinator V} (id : String) → abort c id ≡ ok c' → Step c c'

pub data Reached {V : Type 0} : TwoPhaseCoordinator V → Type 0 where
  started : (node_id : NodeId) → Reached (new_coordinator node_id)
  stepped : {c c' : TwoPhaseCoordinator V} → Reached c → Step c c' → Reached c'

module _ {V : Type 0} where
  decide-Sound :
      (tx : DistributedTransaction V) (rs : List PrepareResponse) {tx' : DistributedTransaction V}
      → Sound tx.tx_id tx
      → decide tx rs ≡ ok tx'
      → Sound tx'.tx_id tx'
  decide-Sound tx rs {tx'} s h =
      let (phase, _, _, out, same) = decide-ok tx rs h s.distinct in
      subst (λ (t : DistributedTransaction V). Sound t.tx_id t) (sym same)
        (record {
          keyed = refl;
          distinct = subst Distinct (sym (names-with_votes rs tx.participants)) s.distinct;
          voted =
              outcome-VotesOf (record tx { participants = with_votes rs tx.participants }) phase
                out;
        })

  commit-Sound :
      (tx : DistributedTransaction V) {tx' : DistributedTransaction V}
      → Sound tx.tx_id tx
      → Types.commit tx ≡ ok tx'
      → Sound tx'.tx_id tx'
  commit-Sound tx s h =
      let (was_prepared, same) = commit-ok tx h in
      subst (λ (t : DistributedTransaction V). Sound t.tx_id t) (sym same)
        (record {
          keyed = refl;
          distinct = s.distinct;
          voted = subst (λ ph. VotesOf ph tx.participants) was_prepared s.voted;
        })

  abort-Sound :
      (tx : DistributedTransaction V) {tx' : DistributedTransaction V}
      → Sound tx.tx_id tx
      → Types.abort tx ≡ ok tx'
      → Sound tx'.tx_id tx'
  abort-Sound tx s h =
      subst (λ (t : DistributedTransaction V). Sound t.tx_id t) (sym (abort-ok tx h).1)
        (record { keyed = refl; distinct = s.distinct; voted = tt })

  add_operation-Sound :
      (tx : DistributedTransaction V) (op : TxOp V)
      → Sound tx.tx_id tx
      → Sound (Types.add_operation tx op).tx_id (Types.add_operation tx op)
  unfolding Types.add_operation
  add_operation-Sound tx op s = record { keyed = refl; distinct = s.distinct; voted = s.voted }

  begin-Sound :
      (c : TwoPhaseCoordinator V) (id : String) (ns : List NodeId) → Sound id (begin c id ns).1
  unfolding begin Types.new
  begin-Sound c id ns =
      add_all-Sound (Types.new id c.node_id) ns refl
        (record { keyed = refl; distinct = tt; voted = tt })

  pub begin_tx_id :
      (c : TwoPhaseCoordinator V) (id : String) (ns : List NodeId) → (begin c id ns).1.tx_id ≡ id
  begin_tx_id c id ns = (begin-Sound c id ns).keyed

  pub begin-written :
      (c : TwoPhaseCoordinator V) (id : String) (ns : List NodeId)
      → (begin c id ns).0 ≡ written c (begin c id ns).1
  unfolding begin register
  begin-written c id ns = refl

  -- What a transaction found in a consistent log is changed to keeps the log consistent.
  changed-Consistent :
      (c : TwoPhaseCoordinator V) {c' : TwoPhaseCoordinator V} (id : String)
      (tx tx' : DistributedTransaction V)
      → Consistent c
      → get c.log id ≡ some tx
      → (Sound tx.tx_id tx → Sound tx'.tx_id tx')
      → c' ≡ written c tx'
      → Consistent c'
  changed-Consistent c id tx tx' h found keeps same =
      let s = h id tx found in
      subst Consistent (sym same)
        (written-Consistent c tx' h (keeps (subst (λ i. Sound i tx) (sym s.keyed) s)))

  pub Step-Consistent : {c c' : TwoPhaseCoordinator V} → Step c c' → Consistent c → Consistent c'
  Step-Consistent (begins c id participants) h =
      let s = begin-Sound c id participants in
      let tx = (begin c id participants).1 in
      subst Consistent (sym (begin-written c id participants))
        (written-Consistent c tx h (subst (λ i. Sound i tx) (sym s.keyed) s))
  Step-Consistent {c} (adds id op done) h =
      let (tx, tx', found, made, same) =
        changing-ok (λ tx. ok (Types.add_operation tx op)) c id
          (sym (add_operation-changing c id op) ∙ done) in
      changed-Consistent c id tx tx' h found
        (λ s.
          subst (λ (t : DistributedTransaction V). Sound t.tx_id t) (cc made)
            (add_operation-Sound tx op s))
        same
  Step-Consistent {c} (prepares id responses done) h =
      let (tx, tx', found, decided, same, _) = prepare-ok c id responses done in
      changed-Consistent c id tx tx' h found (λ s. decide-Sound tx responses s decided) same
  Step-Consistent {c} (commits id done) h =
      let (tx, tx', found, made, same) =
        changing-ok Types.commit c id (sym (commit-changing c id) ∙ done) in
      changed-Consistent c id tx tx' h found (λ s. commit-Sound tx s made) same
  Step-Consistent {c} (aborts id done) h =
      let (tx, tx', found, made, same) =
        changing-ok Types.abort c id (sym (abort-changing c id) ∙ done) in
      changed-Consistent c id tx tx' h found (λ s. abort-Sound tx s made) same

  new-Consistent : (node_id : NodeId) → Consistent {V = V} (new_coordinator node_id)
  unfolding get
  new-Consistent node_id id tx found = cc found

  pub Reached-Consistent : {c : TwoPhaseCoordinator V} → Reached c → Consistent c
  Reached-Consistent (started node_id) = new-Consistent node_id
  Reached-Consistent (stepped before step) = Step-Consistent step (Reached-Consistent before)

  -- In every state that the operations of a new coordinator reach, each participant of a
  -- transaction that is prepared or committed has voted yes.
  pub committed_unanimous :
      {c : TwoPhaseCoordinator V} (id : String) (tx : DistributedTransaction V)
      → Reached c
      → get c.log id ≡ some tx
      → (tx.phase ≡ prepared) ⊎ (tx.phase ≡ committed)
      → All (λ p. p.vote ≡ some yes_vote) tx.participants
  committed_unanimous id tx reached found (inl e) =
      subst (λ ph. VotesOf ph tx.participants) e (Reached-Consistent reached id tx found).voted
  committed_unanimous id tx reached found (inr e) =
      subst (λ ph. VotesOf ph tx.participants) e (Reached-Consistent reached id tx found).voted
