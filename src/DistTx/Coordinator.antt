-- ===== src/DistTx/Coordinator.antt =====
-- dist_tx.rs: the transaction log and the coordinator. An operation returns the coordinator after it
-- and its result; on an error the log is as before.
use cassettedb.Prelude.{
  String, Bool, true, false, not, Option, none, some, List, [], ◌∷◌, retain, if◌then◌else◌,
}
use cassettedb.Prelude.Map
use cassettedb.Prelude.Map.{Map, values}
use cassettedb.Prelude.Errors.{Result, ok, err, dist_tx, ok_or, ◌>>=◌}
use cassettedb.Raft.Types.{NodeId}
use cassettedb.DistTx.Types
use cassettedb.DistTx.Types.{
  TxPhase, voting, prepared, committed, aborted, TxOp, DistributedTransaction, PrepareResponse,
  record_vote, outcome,
}

pub record TwoPhaseCoordinator (V : Type 0) : Type 0 where
  pub node_id : NodeId
  pub log : Map (DistributedTransaction V)

abbrev pub is_active : TxPhase → Bool
is_active committed = false
is_active aborted = false
is_active _ = true

abbrev pub is_voting : TxPhase → Bool
is_voting voting = true
is_voting _ = false

module _ {V : Type 0} where
  abbrev pub new_coordinator : NodeId → TwoPhaseCoordinator V
  new_coordinator node_id = record { node_id = node_id; log = [] }

  -- `DistTxLog::register`
  unfoldable pub register :
      Map (DistributedTransaction V) → DistributedTransaction V → Map (DistributedTransaction V)
  register log tx = Map.insert log tx.tx_id tx

  -- `DistTxLog::update`
  unfoldable pub update :
      Map (DistributedTransaction V)
      → DistributedTransaction V
      → Result (Map (DistributedTransaction V))
  update log tx =
      if not (Map.contains_key log tx.tx_id)
      then err (dist_tx "transaction not found")
      else ok (Map.insert log tx.tx_id tx)

  -- `DistTxLog::active`
  unfoldable pub active : Map (DistributedTransaction V) → List (DistributedTransaction V)
  active log = retain (λ tx. is_active tx.phase) (values log)

  -- `log.get(tx_id).ok_or_else(…)`
  unfoldable pub find : TwoPhaseCoordinator V → String → Result (DistributedTransaction V)
  find c tx_id = ok_or (Map.get c.log tx_id) (dist_tx "transaction not found")

  -- `self.log.update(tx)` at the end of an operation.
  unfoldable pub store :
      TwoPhaseCoordinator V → DistributedTransaction V → Result (TwoPhaseCoordinator V)
  unfolding update
  store c tx = do log ← update c.log tx; ok (record c { log = log })

  unfoldable pub add_all : DistributedTransaction V → List NodeId → DistributedTransaction V
  add_all tx [] = tx
  add_all tx (p ∷ ps) = add_all (Types.add_participant tx p) ps

  unfoldable pub begin :
      TwoPhaseCoordinator V
      → String
      → List NodeId
      → TwoPhaseCoordinator V × DistributedTransaction V
  unfolding register add_all
  begin c tx_id participants =
      let tx = add_all (Types.new tx_id c.node_id) participants in
      (record c { log = register c.log tx }, tx)

  unfoldable pub add_operation :
      TwoPhaseCoordinator V → String → TxOp V → Result (TwoPhaseCoordinator V)
  unfolding find
  add_operation c tx_id op = do tx ← find c tx_id; store c (Types.add_operation tx op)

  -- `for resp in responses { tx.record_vote(…)?; }`
  unfoldable pub record_votes :
      DistributedTransaction V → List PrepareResponse → Result (DistributedTransaction V)
  record_votes tx [] = ok tx
  record_votes tx (resp ∷ rest) = do
    tx' ← record_vote tx resp.node_id resp.vote
    record_votes tx' rest

  -- The votes and their outcome, on the copy of the transaction that `prepare` works on.
  unfoldable pub decide :
      DistributedTransaction V → List PrepareResponse → Result (DistributedTransaction V)
  decide tx responses =
      if not (is_voting tx.phase) then err (dist_tx "transaction is not in voting phase") else (do
        tx' ← record_votes tx responses
        phase ← ok_or (outcome tx') (dist_tx "votes not complete")
        ok (record tx' { phase = phase }))

  unfoldable pub prepare :
      TwoPhaseCoordinator V
      → String
      → List PrepareResponse
      → Result (TwoPhaseCoordinator V × TxPhase)
  unfolding find
  prepare c tx_id responses = do
    tx ← find c tx_id
    tx' ← decide tx responses
    c' ← store c tx'
    ok (c', tx'.phase)

  unfoldable pub commit : TwoPhaseCoordinator V → String → Result (TwoPhaseCoordinator V)
  unfolding find
  commit c tx_id = do tx ← find c tx_id; tx' ← Types.commit tx; store c tx'

  unfoldable pub abort : TwoPhaseCoordinator V → String → Result (TwoPhaseCoordinator V)
  unfolding find
  abort c tx_id = do tx ← find c tx_id; tx' ← Types.abort tx; store c tx'

  unfoldable pub recover : TwoPhaseCoordinator V → String → Option TxPhase
  recover c tx_id = elim (Map.get c.log tx_id) [ none ↦ none | some tx ↦ some tx.phase ]
