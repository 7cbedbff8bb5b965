-- ===== src/DistTx/Local.antt =====
-- dist_tx.rs: `LocalParticipant` over the router of shard.rs. `uuids` are the identifiers that the
-- engine would make for the documents of the operations, by position.
use cassettedb.Prelude.{ℕ, suc, String, List, [], ◌∷◌, if◌then◌else◌}
use cassettedb.Prelude.Map
use cassettedb.Prelude.Errors.{Result, ok, err, is_ok}
use cassettedb.Raft.Types.{NodeId}
use cassettedb.Json.{Value}
use cassettedb.Engine.Operations
use cassettedb.Engine.Operations.{Services}
use cassettedb.Shard.Router.{Hashing, ShardRouter, on_engine}
use cassettedb.DistTx.Types.{TxOp, ParticipantVote, PrepareResponse}

pub record PrepareRequest : Type 0 where
  pub tx_id : String
  pub coordinator : NodeId
  pub operations : List (TxOp Value)

pub record LocalParticipant (C : Type 0) : Type 0 where
  pub node_id : NodeId
  pub router : ShardRouter C

module _ (hashing : Hashing) {V C : Type 0} (svc : Services V C) where
  -- The `?` after a call of an engine.
  abbrev without_id : ShardRouter C × Result String → ShardRouter C × Result (Unit {0})
  without_id (r, err reason) = (r, err reason)
  without_id (r, ok id) = (r, ok tt)

  unfoldable pub apply_op :
      ShardRouter C → String → ℕ → TxOp Value → ShardRouter C × Result (Unit {0})
  apply_op r uuid now (TxOp.insert doc shard) = without_id (
      on_engine hashing svc r (λ e. Operations.insert svc e doc uuid now) shard
        (Map.get r.engines shard))
  apply_op r uuid now (TxOp.update id content shard) =
      on_engine hashing svc r (λ e. Operations.update svc e id content now) shard
        (Map.get r.engines shard)
  apply_op r uuid now (TxOp.delete id shard) =
      on_engine hashing svc r (λ e. Operations.delete svc e id now) shard (Map.get r.engines shard)

  abbrev pub unless_failed :
      (ShardRouter C → ShardRouter C × Result (Unit {0}))
      → ShardRouter C × Result (Unit {0})
      → ShardRouter C × Result (Unit {0})
  unless_failed again (r, err reason) = (r, err reason)
  unless_failed again (r, ok t) = again r

  unfoldable pub apply_ops :
      ShardRouter C → (ℕ → String) → ℕ → ℕ → List (TxOp Value) → ShardRouter C × Result (Unit {0})
  apply_ops r uuids now i [] = (r, ok tt)
  apply_ops r uuids now i (op ∷ ops) =
      unless_failed (λ r'. apply_ops r' uuids now (suc i) ops) (apply_op r (uuids i) now op)

  unfoldable pub prepare :
      LocalParticipant C → (ℕ → String) → ℕ → PrepareRequest → LocalParticipant C × PrepareResponse
  prepare p uuids now req =
      let (router, result) = apply_ops p.router uuids now 0 req.operations in
      (
        record p { router = router },
        record {
          tx_id = req.tx_id;
          node_id = p.node_id;
          vote = if is_ok result then ParticipantVote.yes_vote else ParticipantVote.no_vote;
        },
      )
