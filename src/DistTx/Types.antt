-- ===== src/DistTx/Types.antt =====
-- dist_tx.rs: a distributed transaction and its methods. `V` stands for `serde_json::Value`.
use cassettedb.Prelude.{
  String, Bool, true, false, not, Option, none, some, List, [], ◌∷◌, ◌++◌, map, all, any, str_eq,
  if◌then◌else◌,
}
use cassettedb.Prelude.Errors.{Result, ok, err, dist_tx}
use cassettedb.Document.{Document}
use cassettedb.Raft.Types.{NodeId}

pub data TxPhase : Type 0 where
  voting prepared committed aborted : TxPhase

pub data ParticipantVote : Type 0 where
  yes_vote no_vote : ParticipantVote

pub data TxOp (V : Type 0) : Type 0 where
  insert : Document V → String → TxOp V
  update : String → V → String → TxOp V
  delete : String → String → TxOp V

pub record Participant : Type 0 where
  pub node_id : NodeId
  pub vote : Option ParticipantVote

pub record DistributedTransaction (V : Type 0) : Type 0 where
  pub tx_id : String
  pub coordinator : NodeId
  pub participants : List Participant
  pub operations : List (TxOp V)
  pub phase : TxPhase

pub record PrepareResponse : Type 0 where
  pub tx_id : String
  pub node_id : NodeId
  pub vote : ParticipantVote

abbrev pub is_some : {A : Type 0} → Option A → Bool
is_some none = false
is_some (some a) = true

abbrev pub is_yes : Option ParticipantVote → Bool
is_yes (some ParticipantVote.yes_vote) = true
is_yes _ = false

abbrev pub names : List Participant → List NodeId
names = map (λ p. p.node_id)

-- The search of `record_vote`, which writes the vote of the first participant of that name.
unfoldable pub set_vote : List Participant → NodeId → ParticipantVote → Option (List Participant)
set_vote [] node_id vote = none
set_vote (p ∷ ps) node_id vote =
    if str_eq p.node_id node_id
    then some (record p { vote = some vote } ∷ ps)
    else elim (set_vote ps node_id vote) [ none ↦ none | some qs ↦ some (p ∷ qs) ]

unfoldable pub add_unless_known : List Participant → NodeId → List Participant
add_unless_known ps node_id =
    if not (any (λ p. str_eq p.node_id node_id) ps)
    then ps ++ record { node_id = node_id; vote = none } ∷ []
    else ps

module _ {V : Type 0} where
  unfoldable pub new : String → NodeId → DistributedTransaction V
  new tx_id coordinator = record {
    tx_id = tx_id;
    coordinator = coordinator;
    participants = [];
    operations = [];
    phase = voting;
  }

  unfoldable pub add_participant : DistributedTransaction V → NodeId → DistributedTransaction V
  unfolding add_unless_known
  add_participant tx node_id = record tx { participants = add_unless_known tx.participants node_id }

  unfoldable pub add_operation : DistributedTransaction V → TxOp V → DistributedTransaction V
  add_operation tx op = record tx { operations = tx.operations ++ op ∷ [] }

  abbrev voted :
      DistributedTransaction V → Option (List Participant) → Result (DistributedTransaction V)
  voted tx none = err (dist_tx "unknown participant")
  voted tx (some ps) = ok (record tx { participants = ps })

  unfoldable pub record_vote :
      DistributedTransaction V → NodeId → ParticipantVote → Result (DistributedTransaction V)
  record_vote tx node_id vote = voted tx (set_vote tx.participants node_id vote)

  unfoldable pub all_votes_received : DistributedTransaction V → Bool
  all_votes_received tx = all (λ p. is_some p.vote) tx.participants

  unfoldable pub outcome : DistributedTransaction V → Option TxPhase
  unfolding all_votes_received
  outcome tx =
      if not (all_votes_received tx)
      then none
      else if all (λ p. is_yes p.vote) tx.participants
      then some prepared
      else some aborted

  abbrev commit_at : DistributedTransaction V → TxPhase → Result (DistributedTransaction V)
  commit_at tx prepared = ok (record tx { phase = committed })
  commit_at tx _ = err (dist_tx "transaction is not prepared")

  unfoldable pub commit : DistributedTransaction V → Result (DistributedTransaction V)
  commit tx = commit_at tx tx.phase

  abbrev abort_at : DistributedTransaction V → TxPhase → Result (DistributedTransaction V)
  abort_at tx committed = err (dist_tx "cannot abort a committed transaction")
  abort_at tx _ = ok (record tx { phase = aborted })

  unfoldable pub abort : DistributedTransaction V → Result (DistributedTransaction V)
  abort tx = abort_at tx tx.phase

  unfoldable pub participant_ids : DistributedTransaction V → List NodeId
  participant_ids tx = names tx.participants
