-- ===== src/Db/Recovery.antt =====
-- db.rs: opening and saving the database file, and `open_with_wal`. Of the directory only the database
-- file and the file beside it with the extension "wal" are kept; the path of the former ends otherwise.
use cassettedb.Prelude.{ℕ, suc, Option, none, some, []}
use cassettedb.Prelude.Errors.{Result, ok, err, serialization}
use cassettedb.Bytes.{Bytes}
use cassettedb.Json.{Value}
use cassettedb.Wal.Records.{WalEntry, insert, update, delete, Codec, Wal, open_wal}
use cassettedb.Wal.Replay.{replay}
use cassettedb.Db.Types.{Cassette, Library}
use cassettedb.Db.Operations
use cassettedb.Db.Operations.{Stamp, new}

pub record Files : Type 0 where
  pub database : Option Bytes
  pub log : Option Bytes

-- What the file is read and written with, and the clock: what the n-th call of it is given.
pub record Disk : Type 0 where
  pub codec : Codec Value
  pub from_file : Bytes → Option Cassette
  pub to_file : Cassette → Bytes
  pub clock : ℕ → Stamp

abbrev pub read_back : Option Cassette → Result Cassette
read_back none = err serialization
read_back (some c) = ok c

-- The database and the number of calls of the clock so far.
abbrev pub Replayed : Type 0
Replayed = Cassette × ℕ

abbrev pub changed : {A : Type 0} → Replayed → Option (Cassette × A) → Result Replayed
changed (c, n) none = ok (c, suc n)
changed (c, n) (some (after, answer)) = ok (after, suc n)

-- `Wal::open(path)` is given the path of the database, and creates a file that is missing.
abbrev pub bytes_at : Option Bytes → Bytes
bytes_at none = []
bytes_at (some bytes) = bytes

module _ (disk : Disk) where
  abbrev pub open_file : Option Bytes → Result Cassette
  open_file none = ok new
  open_file (some bytes) = read_back (disk.from_file bytes)

  unfoldable pub open_cassette : Files → Result Cassette
  open_cassette files = open_file files.database

  unfoldable pub save : Files → Cassette → Files
  save files c = record files { database = some (disk.to_file c) }

  unfoldable pub init : Files → Files
  init files = save files new

  abbrev pub saved : Files → Option (Result Replayed) → Option (Result (Cassette × Files))
  saved files none = none
  saved files (some (err e)) = some (err e)
  saved files (some (ok (c, n))) = some (ok (c, save files c))

module _ (lib : Library) (disk : Disk) where
  -- The callback of the replay: an operation that fails is passed over.
  unfoldable pub apply_entry : Replayed → WalEntry Value → Result Replayed
  apply_entry (c, n) (insert tx_id collection doc) =
      ok ((Operations.insert lib c (disk.clock n) collection doc).0, suc n)
  apply_entry (c, n) (update tx_id collection id doc) =
      changed (c, n) (Operations.update lib c (disk.clock n).updated_at collection id doc)
  apply_entry (c, n) (delete tx_id collection id) =
      changed (c, n) (Operations.delete c (disk.clock n).updated_at collection id)
  apply_entry s _ = ok s

  abbrev pub recovered : Files → Cassette → Result Wal → Option (Result (Cassette × Files))
  recovered files c (err e) = some (err e)
  recovered files c (ok w) =
      saved disk (record files { database = some w.file }) (replay apply_entry disk.codec w (c, 0))

  abbrev pub with_log : Files → Option Bytes → Cassette → Option (Result (Cassette × Files))
  with_log files none c = some (ok (c, files))
  with_log files (some log) c = recovered files c (open_wal disk.codec (bytes_at files.database))

  abbrev pub opened : Files → Result Cassette → Option (Result (Cassette × Files))
  opened files (err e) = some (err e)
  opened files (ok c) = with_log files files.log c

  -- None is a replay that has not ended.
  unfoldable pub open_with_wal : Files → Option (Result (Cassette × Files))
  open_with_wal files = opened files (open_cassette disk files)
