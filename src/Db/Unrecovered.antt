-- ===== src/Db/Unrecovered.antt =====
-- db.rs: what `open_with_wal` does with a log.
use cassettedb.Prelude.{
  ℕ, suc, leb, append_nil, ◌≡◌, refl, sym, ap, ◌∙◌, Option, none, some, [], ◌∷◌, ◌++◌, length,
  Bool-cases, inl, inr, Option-cases,
}
use cassettedb.Prelude.Errors.{Result, ok, err, serialization, wal, io, unexpected_eof}
use cassettedb.Bytes.{Bytes, read_exact}
use cassettedb.Wal.Records.{Wal, open_wal, wal_magic}
use cassettedb.Wal.Replay.{replay}
use cassettedb.Wal.Logged.{replay_entries}
use cassettedb.Db.Types.{Cassette, Library}
use cassettedb.Db.Operations.{new}
use cassettedb.Db.Recovery.{
  Files, Disk, open_cassette, save, saved, recovered, bytes_at, opened, open_file, with_log,
  read_back, open_with_wal, apply_entry, Replayed,
}

-- There is no file, or its first byte is `{`, as in the text of a struct.
abbrev pub IsObject : Option Bytes → Type 0
IsObject none = Unit
IsObject (some bytes) = (rest : Bytes) × (bytes ≡ 123 ∷ rest)

module _ (disk : Disk) where
  -- Without a database file the new database, and else an error: whatever the log holds.
  abbrev pub Unrecovered : Files → Option Bytes → Option (Result (Cassette × Files)) → Type 0
  Unrecovered files none result = result ≡ some (ok (new, save disk files new))
  Unrecovered files (some bytes) result = (reason : _) × (result ≡ some (err reason))

  abbrev empty_log : Wal
  empty_log = record { file = wal_magic ++ disk.codec.order.write_u16 1; tx_counter = 0 }

module _ (lib : Library) (disk : Disk) where
  replay_empty :
      (s : Replayed) → replay (apply_entry lib disk) disk.codec (empty_log disk) s ≡ some (ok s)
  replay_empty s =
      replay_entries disk.codec (apply_entry lib disk) (empty_log disk) s
        (wal_magic ++ disk.codec.order.write_u16 1) [] []
        (ap {B = ℕ} (λ n. suc (suc (suc (suc n)))) (disk.codec.order.length-write_u16 1))
        (sym (append_nil _)) refl

  refused : (rest : Bytes) → (reason : _) × (open_wal disk.codec (123 ∷ rest) ≡ err reason)
  unfolding open_wal read_exact
  refused rest = elim (Bool-cases (leb 4 (length (123 ∷ rest)))) [
    | inl long ↦ (wal "Invalid WAL magic", rw long refl)
    | inr short ↦ (io unexpected_eof, rw short refl)
  ]

  recovered_empty :
      (files : Files) (c : Cassette)
      → recovered lib disk files c (ok (empty_log disk)) ≡ some (ok (c, save disk files c))
  unfolding save
  recovered_empty files c =
      ap (saved disk (record files { database = some (empty_log disk).file })) (replay_empty (c, 0))

  module _ (files : Files) {log : Bytes} (there : files.log ≡ some log) where
    -- The log that is read is the database file.
    read_as_log :
        (database : Option Bytes)
        → files.database ≡ database
        → (c : Cassette)
        → opened lib disk files (ok c)
          ≡ recovered lib disk files c (open_wal disk.codec (bytes_at database))
    read_as_log database e c =
        ap (λ l. with_log lib disk files l c) there
        ∙ ap (λ d. recovered lib disk files c (open_wal disk.codec (bytes_at d))) e

    opened-Unrecovered :
        (database : Option Bytes)
        → files.database ≡ database
        → IsObject database
        → Unrecovered disk files database (opened lib disk files (open_file disk database))
    unfolding open_wal
    opened-Unrecovered none missing object =
        read_as_log none missing new ∙ recovered_empty files new
    opened-Unrecovered (some bytes) present (rest, brace) =
        elim (Option-cases (disk.from_file bytes)) [
          | inl e ↦ (serialization, rw e refl)
          | inr (c, e) ↦
              (let (reason, fails) = refused rest in
                (
                  reason,
                  ap (λ o. opened lib disk files (read_back o)) e
                      ∙ read_as_log (some bytes) present c
                      ∙ ap (λ b. recovered lib disk files c (open_wal disk.codec b)) brace
                      ∙ ap (recovered lib disk files c) fails,
                ))
        ]

  -- Where there is a log beside the database, open_with_wal recovers nothing from it: without a
  -- database file it gives the new database, which it saves, and it fails on a database file whose
  -- first byte is `{`.
  pub open_with_wal-Unrecovered :
      (files : Files) {log : Bytes}
      → files.log ≡ some log
      → IsObject files.database
      → Unrecovered disk files files.database (open_with_wal lib disk files)
  unfolding open_with_wal open_cassette
  open_with_wal-Unrecovered files {log} there object =
      opened-Unrecovered files there files.database refl object
