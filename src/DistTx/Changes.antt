-- ===== src/DistTx/Changes.antt =====
-- dist_tx.rs: the operations of the coordinator as changes of one transaction of its log.
use cassettedb.Prelude.{◌≢◌, String, ◌≡◌, refl, sym, ap, ◌∙◌, some, List, arith}
use cassettedb.Prelude.Map.{get, insert, contains_key-of_some}
use cassettedb.Prelude.Errors.{Result, ok, ◌>>=◌, >>=-ok, ok_or-ok}
use cassettedb.DistTx.Types
use cassettedb.DistTx.Types.{
  TxPhase, voting, prepared, committed, aborted, TxOp, DistributedTransaction, PrepareResponse,
}
use cassettedb.DistTx.Coordinator.{
  TwoPhaseCoordinator, find, update, store, decide, add_operation, prepare, commit, abort,
}

module _ {V : Type 0} where
  -- `c` with the transaction written to its log.
  abbrev pub written : TwoPhaseCoordinator V → DistributedTransaction V → TwoPhaseCoordinator V
  written c tx = record c { log = insert c.log tx.tx_id tx }

  -- A stored transaction replaces one that the log has.
  store-ok :
      (c : TwoPhaseCoordinator V) (tx : DistributedTransaction V) {c' : TwoPhaseCoordinator V}
      → store c tx ≡ ok c'
      → c' ≡ written c tx
  unfolding store update
  store-ok c tx h = ground arith

  store_known :
      (c : TwoPhaseCoordinator V) (tx : DistributedTransaction V) {old : DistributedTransaction V}
      → get c.log tx.tx_id ≡ some old
      → store c tx ≡ ok (written c tx)
  unfolding store update
  store_known c tx h = rw (contains_key-of_some c.log tx.tx_id h)

  -- An operation that computes a transaction from the one found and stores it.
  module _ (f : DistributedTransaction V → Result (DistributedTransaction V)) where
    abbrev pub changing : TwoPhaseCoordinator V → String → Result (TwoPhaseCoordinator V)
    changing c id = do tx ← find c id; tx' ← f tx; store c tx'

    pub changing-ok :
        (c : TwoPhaseCoordinator V) (id : String) {c' : TwoPhaseCoordinator V}
        → changing c id ≡ ok c'
        → (tx : DistributedTransaction V) × (tx' : DistributedTransaction V) × (get c.log id
            ≡ some tx)
          × (f tx ≡ ok tx')
          × (c' ≡ written c tx')
    unfolding find
    changing-ok c id h =
        let (tx, found, k) = >>=-ok (find c id) (λ t. f t >>= store c) h in
        let (tx', made, stored) = >>=-ok (f tx) (store c) k in
        (tx, tx', ok_or-ok (get c.log id) _ found, made, store-ok c tx' stored)

    pub changing_found :
        (c : TwoPhaseCoordinator V) (id : String) {tx tx' : DistributedTransaction V}
        → get c.log id ≡ some tx
        → f tx ≡ ok tx'
        → tx'.tx_id ≡ id
        → changing c id ≡ ok (written c tx')
    unfolding find
    changing_found c id {tx} {tx'} found made named =
        rw (found, made) (store_known c tx' (ap (get c.log) named ∙ found))

  pub add_operation-changing :
      (c : TwoPhaseCoordinator V) (id : String) (op : TxOp V)
      → add_operation c id op ≡ changing (λ tx. ok (Types.add_operation tx op)) c id
  unfolding add_operation
  add_operation-changing c id op = refl

  pub commit-changing :
      (c : TwoPhaseCoordinator V) (id : String) → commit c id ≡ changing Types.commit c id
  unfolding commit
  commit-changing c id = refl

  pub abort-changing :
      (c : TwoPhaseCoordinator V) (id : String) → abort c id ≡ changing Types.abort c id
  unfolding abort
  abort-changing c id = refl

  pub prepare-ok :
      (c : TwoPhaseCoordinator V) (id : String) (rs : List PrepareResponse)
      {c' : TwoPhaseCoordinator V} {phase : TxPhase}
      → prepare c id rs ≡ ok (c', phase)
      → (tx : DistributedTransaction V) × (tx' : DistributedTransaction V) × (get c.log id
          ≡ some tx)
        × (decide tx rs ≡ ok tx')
        × (c' ≡ written c tx')
        × (phase ≡ tx'.phase)
  unfolding prepare find
  prepare-ok c id rs {c'} {phase} h =
      let answer : DistributedTransaction V → Result (TwoPhaseCoordinator V × TxPhase) =
        λ tx. (do c'' ← store c tx; ok (c'', tx.phase)) in
      let (tx, found, k) = >>=-ok (find c id) (λ tx. decide tx rs >>= answer) h in
      let (tx', decided, l) = >>=-ok (decide tx rs) answer k in
      let (c'', stored, same) = >>=-ok (store c tx') (λ c''. ok (c'', tx'.phase)) l in
      let coordinator : c'' ≡ c' = cc same in
      let result : phase ≡ tx'.phase = cc same in
      (
        tx,
        tx',
        ok_or-ok (get c.log id) _ found,
        decided,
        sym coordinator ∙ store-ok c tx' stored,
        result,
      )

  pub prepare_found :
      (c : TwoPhaseCoordinator V) (id : String) (rs : List PrepareResponse)
      {tx tx' : DistributedTransaction V}
      → get c.log id ≡ some tx
      → decide tx rs ≡ ok tx'
      → tx'.tx_id ≡ id
      → prepare c id rs ≡ ok (written c tx', tx'.phase)
  unfolding prepare find
  prepare_found c id rs {tx} {tx'} found made named =
      rw (found, made, store_known c tx' (ap (get c.log) named ∙ found))

  pub commit-ok :
      (tx : DistributedTransaction V) {tx' : DistributedTransaction V}
      → Types.commit tx ≡ ok tx'
      → (tx.phase ≡ prepared) × (tx' ≡ record tx { phase = committed })
  unfolding Types.commit
  commit-ok tx h = ground arith

  pub abort-ok :
      (tx : DistributedTransaction V) {tx' : DistributedTransaction V}
      → Types.abort tx ≡ ok tx'
      → (tx.phase ≢ committed) × (tx' ≡ record tx { phase = aborted })
  unfolding Types.abort
  abort-ok tx h = ground arith
