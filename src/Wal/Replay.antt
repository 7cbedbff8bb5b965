-- ===== src/Wal/Replay.antt =====
-- wal.rs: `Wal::replay`. The callback is a function on a state of the caller; the state that it
-- had reached when it failed is not kept.
use cassettedb.Prelude.{
  ℕ, zero, suc, List, [], ◌∷◌, ◌++◌, length, drop, if◌then◌else◌, Bool, false, ◌==◌, Option, none,
  some,
}
use cassettedb.Prelude.Errors.{Result, ok, err, io, unexpected_eof, ◌>>=◌}
use cassettedb.Bytes.{Bytes}
use cassettedb.Wal.Records.{
  tx_entry_op, op_code, WalEntry, begin, insert, update, delete, commit, abort, Codec, Wal,
  RawRecord, read_fields,
}

pub record ReplayState (V : Type 0) : Type 0 where
  pub current_tx : Option ℕ
  pub pending : List (WalEntry V)

-- `current_tx == Some(tx_id)`
abbrev pub is_current : Option ℕ → ℕ → Bool
is_current none tx_id = false
is_current (some t) tx_id = t == tx_id

abbrev pub idle : {V : Type 0} → ReplayState V
idle = record { current_tx = none; pending = [] }

module _ {V : Type 0} (codec : Codec V) where
  -- The end of the file before a record ends the loop.
  abbrev after_op : Result (ℕ × Bytes) → Result (Option (RawRecord × Bytes))
  after_op (err (io unexpected_eof)) = ok none
  after_op (err e) = err e
  after_op (ok (op, r)) = read_fields codec op r >>= λ x. ok (some x)

  unfoldable pub read_record : Bytes → Result (Option (RawRecord × Bytes))
  read_record bytes = after_op (codec.order.read_u8 bytes)

module _ {V S : Type 0} (f : S → WalEntry V → Result S) where
  -- `for e in &pending { f(e)?; }`
  unfoldable pub apply_all : S → List (WalEntry V) → Result S
  apply_all s [] = ok s
  apply_all s (e ∷ es) = f s e >>= λ s'. apply_all s' es

  -- The arm of an insert, an update or a delete.
  abbrev on_operation : ReplayState V → S → WalEntry V → Option ℕ → Result (ReplayState V × S)
  on_operation st s e (some t) = ok (record st { pending = st.pending ++ e ∷ [] }, s)
  on_operation st s e none = do s' ← f s e; ok (st, s')

  unfoldable pub on_entry : ReplayState V → S → WalEntry V → Result (ReplayState V × S)
  on_entry st s (begin tx_id) = ok (record { current_tx = some tx_id; pending = [] }, s)
  on_entry st s (commit tx_id) = do
    s' ← (if is_current st.current_tx tx_id then apply_all s st.pending else ok s)
    ok (idle, s')
  on_entry st s (abort tx_id) = ok (idle, s)
  on_entry st s (insert tx_id collection doc) =
      on_operation st s (insert tx_id collection doc) st.current_tx
  on_entry st s (update tx_id collection id doc) =
      on_operation st s (update tx_id collection id doc) st.current_tx
  on_entry st s (delete tx_id collection id) =
      on_operation st s (delete tx_id collection id) st.current_tx

  -- The entries handled one after the other.
  abbrev pub run_entries : ReplayState V → S → List (WalEntry V) → Result S
  run_entries st s [] = ok s
  run_entries st s (e ∷ es) = on_entry st s e >>= λ (st', s'). run_entries st' s' es

  module _ (codec : Codec V) where
    abbrev on_payload : ReplayState V → S → Option (WalEntry V) → Result (ReplayState V × S)
    on_payload st s none = ok (st, s)
    on_payload st s (some e) = on_entry st s e

    unfoldable pub on_record : ReplayState V → S → RawRecord → Result (ReplayState V × S)
    on_record st s r =
        if r.op == op_code tx_entry_op
        then on_payload st s (codec.from_slice r.payload)
        else ok (st, s)

    -- What a round of the loop does with what it read; `next` is the rest of the loop.
    abbrev pub continued :
        (ReplayState V → S → Bytes → Option (Result S))
        → Bytes
        → Result (ReplayState V × S)
        → Option (Result S)
    continued next rest (err e) = some (err e)
    continued next rest (ok (st, s)) = next st s rest

    abbrev pub replay_read :
        (ReplayState V → S → Bytes → Option (Result S))
        → ReplayState V
        → S
        → Result (Option (RawRecord × Bytes))
        → Option (Result S)
    replay_read next st s (err e) = some (err e)
    replay_read next st s (ok none) = some (ok s)
    replay_read next st s (ok (some (r, rest))) = continued next rest (on_record st s r)

    -- The loop, on fuel: none is a loop that has not ended.
    unfoldable pub replay_loop : ℕ → ReplayState V → S → Bytes → Option (Result S)
    replay_loop zero st s bytes = none
    replay_loop (suc n) st s bytes = replay_read (replay_loop n) st s (read_record codec bytes)

    unfoldable pub replay : Wal → S → Option (Result S)
    replay w s = replay_loop (suc (length w.file)) idle s (drop 6 w.file)
