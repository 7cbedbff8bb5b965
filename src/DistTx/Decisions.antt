-- ===== src/DistTx/Decisions.antt =====
-- dist_tx.rs: how phases follow each other, and what prepare, commit and abort answer.
use cassettedb.Prelude.{
  String, ◌≡◌, refl, sym, ap, ◌∙◌, inl, inr, Bool, true, false, some, List, arith, eq_iff, str_eq,
  Bool-cases, subst, str_eq_ne, ◌≢◌,
}
use cassettedb.Prelude.Names.{Distinct}
use cassettedb.Prelude.Map.{get, get-insert}
use cassettedb.Prelude.Errors.{ok}
use cassettedb.DistTx.Types
use cassettedb.DistTx.Types.{
  TxPhase, voting, prepared, committed, aborted, TxOp, DistributedTransaction, PrepareResponse,
  Participant, names, is_yes, is_some, ParticipantVote, yes_vote, no_vote, outcome,
  all_votes_received, add_unless_known,
}
use cassettedb.DistTx.Coordinator.{TwoPhaseCoordinator, decide, is_voting, begin}
use cassettedb.DistTx.Changes.{
  written, changing-ok, prepare-ok, commit-ok, abort-ok, add_operation-changing, commit-changing,
  abort-changing,
}
use cassettedb.DistTx.Invariant.{Consistent, decide-ok}
use cassettedb.DistTx.Safety.{
  Step, begins, adds, prepares, commits, aborts, Reached, Reached-Consistent, Step-Consistent,
  begin-written, begin_tx_id,
}

-- The phases that may follow a phase.
abbrev pub leads : TxPhase → TxPhase → Bool
leads voting _ = true
leads prepared voting = false
leads prepared _ = true
leads committed committed = true
leads committed _ = false
leads aborted aborted = true
leads aborted _ = false

leads_trans : (a b c : TxPhase) → leads a b ≡ true → leads b c ≡ true → leads a c ≡ true
leads_trans a b c h k = ground arith

leads_self : (a : TxPhase) → leads a a ≡ true
leads_self a = ground arith

voting_leads : (a b : TxPhase) → is_voting a ≡ true → leads a b ≡ true
voting_leads voting b h = refl
voting_leads prepared b h = cc h
voting_leads committed b h = cc h
voting_leads aborted b h = cc h

-- A step that does not begin the transaction `id` anew.
abbrev pub Spares : {V : Type 0} {c c' : TwoPhaseCoordinator V} → String → Step c c' → Type 0
Spares id (begins c other ns) = other ≢ id
Spares id _ = Unit

pub data Runs {V : Type 0} (id : String) (c : TwoPhaseCoordinator V)
    : TwoPhaseCoordinator V → Type 0 where
  stays : Runs id c c
  moves :
      {c' c'' : TwoPhaseCoordinator V}
      → Runs id c c'
      → (s : Step c' c'') → Spares id s
      → Runs id c c''

module _ {V : Type 0} where
  decide-leads :
      (tx : DistributedTransaction V) (rs : List PrepareResponse) {tx' : DistributedTransaction V}
      → Distinct (names tx.participants)
      → decide tx rs ≡ ok tx'
      → leads tx.phase tx'.phase ≡ true
  decide-leads tx rs {tx'} d h =
      let (_, voting_now, _, _, _) = decide-ok tx rs h d in
      voting_leads tx.phase tx'.phase voting_now

  commit-leads :
      (tx : DistributedTransaction V) {tx' : DistributedTransaction V}
      → Types.commit tx ≡ ok tx'
      → leads tx.phase tx'.phase ≡ true
  unfolding Types.commit
  commit-leads tx h = ground arith

  abort-leads :
      (tx : DistributedTransaction V) {tx' : DistributedTransaction V}
      → Types.abort tx ≡ ok tx'
      → leads tx.phase tx'.phase ≡ true
  unfolding Types.abort
  abort-leads tx h = ground arith

  -- What a transaction became.
  abbrev Follows : TwoPhaseCoordinator V → String → DistributedTransaction V → Type 0
  Follows c id tx =
      (tx' : DistributedTransaction V) × (get c.log id ≡ some tx')
      × (leads tx.phase tx'.phase ≡ true)

  -- Another transaction written leaves it, the same one moves on.
  written-Follows :
      (c : TwoPhaseCoordinator V) {c' : TwoPhaseCoordinator V} (id other : String)
      (tx found_tx new_tx : DistributedTransaction V)
      → get c.log id ≡ some tx
      → get c.log other ≡ some found_tx
      → new_tx.tx_id ≡ other
      → leads found_tx.phase new_tx.phase ≡ true
      → c' ≡ written c new_tx
      → Follows c' id tx
  written-Follows c id other tx found_tx new_tx here there named l same =
      let seen = get-insert c.log new_tx.tx_id id new_tx in
      elim (Bool-cases (str_eq new_tx.tx_id id)) [
        | inl e ↦
            let alike : id ≡ other = sym ((eq_iff new_tx.tx_id id).0 e) ∙ named in
            let old : some tx ≡ some found_tx = sym here ∙ ap (get c.log) alike ∙ there in
            (
              new_tx,
              ap (λ (d : TwoPhaseCoordinator V). get d.log id) same ∙ (rw e at seen),
              (let e' : found_tx ≡ tx = cc old in
                  subst (λ (t : DistributedTransaction V). leads t.phase new_tx.phase ≡ true) e' l),
            )
        | inr e ↦ (
          tx,
          ap (λ (d : TwoPhaseCoordinator V). get d.log id) same ∙ (rw e at seen) ∙ here,
          leads_self tx.phase,
        )
      ]

  added :
      (tx : DistributedTransaction V) (op : TxOp V) {tx' : DistributedTransaction V}
      → ok (Types.add_operation tx op) ≡ ok tx'
      → (tx'.tx_id ≡ tx.tx_id) × (leads tx.phase tx'.phase ≡ true)
  unfolding Types.add_operation
  added tx op {tx'} h =
      let e : Types.add_operation tx op ≡ tx' = cc h in
      (
        ap (λ (t : DistributedTransaction V). t.tx_id) (sym e),
        subst (λ (t : DistributedTransaction V). leads tx.phase t.phase ≡ true) e
            (leads_self tx.phase),
      )

  Step-Follows :
      {c c' : TwoPhaseCoordinator V} (id : String) (tx : DistributedTransaction V)
      → Consistent c
      → get c.log id ≡ some tx
      → (s : Step c c') → Spares id s
      → Follows c' id tx
  Step-Follows id tx h found (begins c other ns) spared =
      let seen = get-insert c.log other id (begin c other ns).1 in
      let apart = str_eq_ne other id spared in
      let now : get (begin c other ns).0.log id ≡ get c.log id =
        rw (begin-written c other ns, begin_tx_id c other ns) (rw apart at seen) in
      (tx, now ∙ found, leads_self tx.phase)
  Step-Follows {c} id tx h found (adds other op done) spared =
      let (t, t', there, made, same) =
        changing-ok (λ tx. ok (Types.add_operation tx op)) c other
          (sym (add_operation-changing c other op) ∙ done) in
      written-Follows c id other tx t t' found there ((added t op made).0 ∙ (h other t there).keyed)
        (added t op made).1 same
  Step-Follows {c} id tx h found (prepares other rs done) spared =
      let (t, t', there, decided, same, _) = prepare-ok c other rs done in
      let (_, _, _, _, e) = decide-ok t rs decided (h other t there).distinct in
      written-Follows c id other tx t t' found there
        (ap (λ (t : DistributedTransaction V). t.tx_id) e ∙ (h other t there).keyed)
        (decide-leads t rs (h other t there).distinct decided) same
  Step-Follows {c} id tx h found (commits other done) spared =
      let (t, t', there, made, same) =
        changing-ok Types.commit c other (sym (commit-changing c other) ∙ done) in
      written-Follows c id other tx t t' found there
        (ap (λ (t : DistributedTransaction V). t.tx_id) (commit-ok t made).1
          ∙ (h other t there).keyed)
        (commit-leads t made) same
  Step-Follows {c} id tx h found (aborts other done) spared =
      let (t, t', there, made, same) =
        changing-ok Types.abort c other (sym (abort-changing c other) ∙ done) in
      written-Follows c id other tx t t' found there
        (ap (λ (t : DistributedTransaction V). t.tx_id) (abort-ok t made).1
          ∙ (h other t there).keyed)
        (abort-leads t made) same

  Runs-Consistent :
      (id : String) {c c' : TwoPhaseCoordinator V} → Runs id c c' → Consistent c → Consistent c'
  Runs-Consistent id stays h = h
  Runs-Consistent id (moves before s spared) h = Step-Consistent s (Runs-Consistent id before h)

  -- From a state that a new coordinator reaches, operations that do not begin the transaction anew
  -- keep it in the log, never take it back to the voting phase once it has left that, and leave a
  -- committed transaction committed and an aborted one aborted.
  pub phase_advances :
      (id : String) {c : TwoPhaseCoordinator V} (tx : DistributedTransaction V)
      → Reached c
      → get c.log id ≡ some tx
      → {c' : TwoPhaseCoordinator V} → Runs id c c'
      → (tx' : DistributedTransaction V) × (get c'.log id ≡ some tx')
        × (leads tx.phase tx'.phase ≡ true)
  phase_advances id tx reached found stays = (tx, found, leads_self tx.phase)
  phase_advances id tx reached found (moves before s spared) =
      let (mid, there, first) = phase_advances id tx reached found before in
      let h = Runs-Consistent id before (Reached-Consistent reached) in
      let (tx', now, second) = Step-Follows id mid h there s spared in
      (tx', now, leads_trans tx.phase mid.phase tx'.phase first second)
