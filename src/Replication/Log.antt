-- ===== src/Replication/Log.antt =====
-- replication.rs: `ReplicationLog` and `ChangeIter` over the bytes of the file. serde_json is a
-- parameter; `to_le_bytes` and `from_le_bytes` are those of Bytes/Little.
use cassettedb.Prelude.{
  ℕ, zero, suc, ◌+◌, ◌*◌, ◌%◌, ◌^◌, ◌≡◌, [], ◌∷◌, ◌++◌, length, drop, if◌then◌else◌, max, ◌==◌, not,
  leb, Option, none, some, String,
}
use cassettedb.Prelude.Errors.{
  CassetteError, Result, ok, err, io, unexpected_eof, corrupt, serialization, ◌>>=◌,
}
use cassettedb.Prelude.Integers.{ℤ, pos}
use cassettedb.Bytes.{Bytes, read_exact, resize}
use cassettedb.Prelude.Integers.{ℤ, pos}
use cassettedb.Bytes.Little.{put_u32}
use cassettedb.Storage.Header.{bytes_eq}
use cassettedb.Wal.Records.{WalOp}

pub record ChangeRecord : Type 0 where
  pub sequence : ℕ
  pub op : WalOp
  pub doc_id : String
  pub payload : Bytes
  pub timestamp : ℤ

pub record ChangeCodec : Type 0 where
  pub to_vec : ChangeRecord → Result Bytes
  pub from_slice : Bytes → Option ChangeRecord
  pub from_slice-to_vec :
      (r : ChangeRecord) {bytes : Bytes} → to_vec r ≡ ok bytes → from_slice bytes ≡ some r

-- "CRL1"
abbrev pub repl_magic : Bytes
repl_magic = 67 ∷ 82 ∷ 76 ∷ 49 ∷ []

abbrev pub u64_mod : ℕ
u64_mod = 2 ^ 64

pub record ReplicationLog : Type 0 where
  pub file : Bytes
  pub next_sequence : ℕ

-- A call of `ChangeIter::next`: the end, an error, or a record and the rest of the file.
pub data Change : Type 0 where
  finished : Change
  failed : CassetteError → Change
  item : ChangeRecord → Bytes → Change

-- `u32::from_le_bytes`
abbrev pub from_le_bytes : Bytes → ℕ
from_le_bytes (a ∷ b ∷ c ∷ d ∷ rest) = a + 256 * b + 65536 * c + 16777216 * d
from_le_bytes _ = 0

abbrev frame_after : Result (Bytes × Bytes) → Result (Option (Bytes × Bytes))
frame_after (err (io unexpected_eof)) = ok none
frame_after (err e) = err e
frame_after (ok (len_bytes, r)) = read_exact (from_le_bytes len_bytes) r >>= λ x. ok (some x)

-- A length and as many bytes; the end of the file in or before the length ends the records.
unfoldable pub read_frame : Bytes → Result (Option (Bytes × Bytes))
read_frame bytes = frame_after (read_exact 4 bytes)

-- What `append` writes for the bytes of a record.
unfoldable pub frame : Bytes → Bytes
frame bytes = put_u32 (length bytes % 2 ^ 32) ++ bytes

module _ (codec : ChangeCodec) where
  abbrev pub greater : ℕ → Option ChangeRecord → ℕ
  greater max_seq none = max_seq
  greater max_seq (some r) = max max_seq r.sequence

  abbrev pub scanned :
      (ℕ → Bytes → Option (Result ℕ)) → ℕ → Result (Option (Bytes × Bytes)) → Option (Result ℕ)
  scanned again max_seq (err e) = some (err e)
  scanned again max_seq (ok none) = some (ok max_seq)
  scanned again max_seq (ok (some (buf, rest))) =
      again (greater max_seq (codec.from_slice buf)) rest

  -- The loop of `compute_next_sequence`, on fuel.
  unfoldable pub scan : ℕ → ℕ → Bytes → Option (Result ℕ)
  scan zero max_seq bytes = none
  scan (suc n) max_seq bytes = scanned (scan n) max_seq (read_frame bytes)

  abbrev incremented : Option (Result ℕ) → Option (Result ℕ)
  incremented none = none
  incremented (some (err e)) = some (err e)
  incremented (some (ok max_seq)) = some (ok ((max_seq + 1) % u64_mod))

  unfoldable pub compute_next_sequence : Bytes → Option (Result ℕ)
  compute_next_sequence file = incremented (scan (suc (length file)) 0 (drop 6 file))

  abbrev check_version : ℕ × ℕ → Result (Unit {0})
  check_version (low, high) =
      if not (low + 256 * high == 1)
      then err (corrupt "Unsupported replication log version")
      else ok tt

  abbrev two : Bytes → ℕ × ℕ
  two (a ∷ b ∷ rest) = (a, b)
  two _ = (0, 0)

  abbrev check_magic : Bytes → Bytes → Result (Unit {0})
  check_magic magic r =
      if not (bytes_eq magic repl_magic)
      then err (corrupt "Invalid replication log magic")
      else read_exact 2 r >>= λ (version, _). check_version (two version)

  unfoldable pub check_header : Bytes → Result (Unit {0})
  check_header file = do (magic, r) ← read_exact 4 file; check_magic magic r

  abbrev pub opened : Bytes → Option (Result ℕ) → Option (Result ReplicationLog)
  opened file none = none
  opened file (some (err e)) = some (err e)
  opened file (some (ok next_sequence)) =
      some (ok (record { file = file; next_sequence = next_sequence }))

  abbrev pub open_checked : Bytes → Result (Unit {0}) → Option (Result ReplicationLog)
  open_checked file (err e) = some (err e)
  open_checked file (ok h) = opened file (compute_next_sequence file)

  abbrev pub repl_header : Bytes
  repl_header = repl_magic ++ 1 ∷ 0 ∷ []

  unfoldable pub open_log : Bytes → Option (Result ReplicationLog)
  open_log [] = some (ok (record { file = repl_header; next_sequence = 1 }))
  open_log (b ∷ bs) = open_checked (b ∷ bs) (check_header (b ∷ bs))

  abbrev pub change_of : ReplicationLog → WalOp → String → Bytes → ℕ → ChangeRecord
  change_of log op doc_id payload now = record {
    sequence = log.next_sequence;
    op = op;
    doc_id = doc_id;
    payload = payload;
    timestamp = pos now;
  }

  -- `ReplicationLog::append` at the time `now`: the log and the sequence number.
  unfoldable pub append_change :
      ReplicationLog → WalOp → String → Bytes → ℕ → Result (ReplicationLog × ℕ)
  append_change log op doc_id payload now = do
    bytes ← codec.to_vec (change_of log op doc_id payload now)
    ok (
      record { file = log.file ++ frame bytes; next_sequence = (log.next_sequence + 1) % u64_mod },
      log.next_sequence,
    )

  unfoldable pub reset_log : ReplicationLog → ReplicationLog
  reset_log log = record { file = resize 6 log.file; next_sequence = 1 }

  abbrev pub chosen : (Bytes → Option Change) → ℕ → Bytes → Option ChangeRecord → Option Change
  chosen again start rest none = some (failed serialization)
  chosen again start rest (some r) = if leb start r.sequence then some (item r rest) else again rest

  abbrev pub after_frame :
      (Bytes → Option Change) → ℕ → Result (Option (Bytes × Bytes)) → Option Change
  after_frame again start (err e) = some (failed e)
  after_frame again start (ok none) = some finished
  after_frame again start (ok (some (buf, rest))) = chosen again start rest (codec.from_slice buf)

  -- `ChangeIter::next`, on fuel.
  unfoldable pub next_change : ℕ → ℕ → Bytes → Option Change
  next_change zero start bytes = none
  next_change (suc n) start bytes = after_frame (next_change n start) start (read_frame bytes)

  module _ {S : Type 0} (f : S → ChangeRecord → S) where
    -- What the loop has gathered when it ends, and the error that ended it, if one did.
    abbrev pub Gathered : Type 0
    Gathered = Option (S × Result (Unit {0}))

    abbrev pub gathered : (S → Bytes → Gathered) → S → Option Change → Gathered
    gathered again s none = none
    gathered again s (some finished) = some (s, ok tt)
    gathered again s (some (failed e)) = some (s, err e)
    gathered again s (some (item r rest)) = again (f s r) rest

    -- `for record in log.iter_from(start)? { let record = record?; … }`, on fuel.
    unfoldable pub for_changes : ℕ → ℕ → S → Bytes → Gathered
    for_changes zero start s bytes = none
    for_changes (suc n) start s bytes =
        gathered (for_changes n start) s (next_change (suc (length bytes)) start bytes)
