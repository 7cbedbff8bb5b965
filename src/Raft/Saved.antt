-- ===== src/Raft/Saved.antt =====
-- raft.rs: saving and restoring the persistent state of a node. serde_json is a parameter.
use cassettedb.Prelude.{◌≡◌, ap, sym, ◌∙◌}
use cassettedb.Prelude.Errors.{Result, ok, ◌>>=◌}
use cassettedb.Bytes.{Bytes}
use cassettedb.Raft.Types.{PersistentState, RaftNode}

pub record StateCodec : Type 0 where
  pub to_vec : PersistentState → Result Bytes
  pub from_slice : Bytes → Result PersistentState
  pub from_slice-to_vec :
      (p : PersistentState) {bytes : Bytes} → to_vec p ≡ ok bytes → from_slice bytes ≡ ok p

ok_eq : {n m : RaftNode} → ok n ≡ ok m → n ≡ m
ok_eq h = cc h

module _ (codec : StateCodec) where
  unfoldable pub serialize_state : RaftNode → Result Bytes
  serialize_state n = codec.to_vec n.persistent

  -- The volatile state stays as it is.
  unfoldable pub deserialize_state : RaftNode → Bytes → Result RaftNode
  deserialize_state n bytes = do
    state ← codec.from_slice bytes
    ok (record n { persistent = state })

  -- A node that restores what another saved has its persistent state.
  pub deserialize_state-serialize_state :
      (n m : RaftNode) {bytes : Bytes}
      → serialize_state n ≡ ok bytes
      → deserialize_state m bytes ≡ ok (record m { persistent = n.persistent })
  unfolding serialize_state deserialize_state
  deserialize_state-serialize_state n m saved =
      ap (λ r. r >>= λ state. ok (record m { persistent = state }))
        (codec.from_slice-to_vec n.persistent saved)

  -- A node that restores what another saved becomes that node up to its persistent state.
  pub restored_lem :
      (n m : RaftNode) {bytes : Bytes} {k : RaftNode}
      → serialize_state n ≡ ok bytes
      → deserialize_state m bytes ≡ ok k
      → record m { persistent = n.persistent } ≡ k
  restored_lem n m saved done = ok_eq (sym (deserialize_state-serialize_state n m saved) ∙ done)
