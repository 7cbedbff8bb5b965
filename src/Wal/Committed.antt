-- ===== src/Wal/Committed.antt =====
-- wal.rs: the commit flag of a single record, and the iterator over the committed records.
use cassettedb.Prelude.{
  ℕ, zero, suc, ◌+◌, [], ◌∷◌, length, drop, if◌then◌else◌, ◌==◌, Option, none, some, String,
}
use cassettedb.Prelude.Errors.{CassetteError, Result, ok, err, wal, ◌>>=◌}
use cassettedb.Bytes.{Bytes, read_exact, write_at}
use cassettedb.Wal.Records.{
  WalOp, insert_op, update_op, delete_op, WalRecord, Codec, Wal, RawRecord, append_record,
}
use cassettedb.Wal.Replay.{read_record}

-- What the iterator makes of a record that it has read.
pub data Visit : Type 0 where
  skipped unknown : Visit
  yielded : WalRecord → Visit

-- A call of `next`: the end, an error, or a record and the rest of the file.
pub data Next : Type 0 where
  finished : Next
  failed : CassetteError → Next
  item : WalRecord → Bytes → Next

module _ {V : Type 0} (codec : Codec V) where
  -- `Wal::commit_record`
  unfoldable pub commit_record : Wal → ℕ → Result Wal
  commit_record w offset = do
    (op, r) ← read_exact 1 (drop offset w.file)
    (id_len, r1) ← codec.order.read_u32 r
    (payload_len, r2) ← codec.order.read_u32 (drop id_len r1)
    ok (record w {
      file = write_at w.file (offset + (1 + 4 + id_len + 4 + payload_len + 4)) (1 ∷ []);
    })

  -- `append_record` and `commit_record` at its offset, as the engine calls them.
  unfoldable pub log_record : Wal → WalOp → String → Bytes → Result Wal
  unfolding append_record commit_record
  log_record w op doc_id payload =
      (let (w', offset) = append_record codec w op doc_id payload in commit_record w' offset)

  abbrev yield_as : WalOp → RawRecord → Visit
  yield_as op r =
      yielded (record { op = op; doc_id = codec.from_utf8_lossy r.id; payload = r.payload })

  unfoldable pub visit : RawRecord → Visit
  visit r =
      if r.commit_flag == 0
      then skipped
      else if r.op == 1
      then yield_as insert_op r
      else if r.op == 2
      then yield_as update_op r
      else if r.op == 3
      then yield_as delete_op r
      else if r.op == 4
      then skipped
      else unknown

  -- `return self.next()` is the call of `again`.
  abbrev pub after_visit : (Bytes → Option Next) → Bytes → Visit → Option Next
  after_visit again rest skipped = again rest
  after_visit again rest unknown = some (failed (wal "Unknown op"))
  after_visit again rest (yielded r) = some (item r rest)

  abbrev pub after_read : (Bytes → Option Next) → Result (Option (RawRecord × Bytes)) → Option Next
  after_read again (err e) = some (failed e)
  after_read again (ok none) = some finished
  after_read again (ok (some (r, rest))) = after_visit again rest (visit r)

  -- `WalIter::next`, on fuel: none is a call that has not ended.
  unfoldable pub next : ℕ → Bytes → Option Next
  next zero bytes = none
  next (suc n) bytes = after_read (next n) (read_record codec bytes)

  module _ {S : Type 0} (f : S → WalRecord → Result S) where
    -- What the body of the loop makes of a call of `next`; `again` is the rest of the loop.
    abbrev pub looped : (S → Bytes → Option (Result S)) → S → Option Next → Option (Result S)
    looped again s none = none
    looped again s (some finished) = some (ok s)
    looped again s (some (failed e)) = some (err e)
    looped again s (some (item r rest)) = elim (f s r) [
      | err e ↦ some (err e)
      | ok s' ↦ again s' rest
    ]

    -- `for record in iter { let record = record?; … }`, whose body is `f`.
    unfoldable pub for_committed : ℕ → S → Bytes → Option (Result S)
    for_committed zero s bytes = none
    for_committed (suc n) s bytes = looped (for_committed n) s (next (suc (length bytes)) bytes)

    -- The same over `iter_committed` of the log.
    unfoldable pub iter_committed : Wal → S → Option (Result S)
    iter_committed w s = for_committed (suc (length w.file)) s (drop 6 w.file)
