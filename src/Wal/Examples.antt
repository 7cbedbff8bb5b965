-- ===== src/Wal/Examples.antt =====
-- wal.rs on a small log, with an encoding of entries that knows operations of one collection.
use cassettedb.Prelude.{
  ℕ, zero, suc, ◌≡◌, refl, List, [], ◌∷◌, ◌++◌, true, false, Option, none, some, String, arith,
  str_eq, if◌then◌else◌, eq_iff, ap, ◌∙◌, sym, Bool-cases, inl, inr,
}
use cassettedb.Prelude.Errors.{Result, ok, err, serialization}
use cassettedb.Bytes.{Bytes}
use cassettedb.Bytes.Little.{little}
use cassettedb.Bytes.Text.{text_bytes, text_of, text_of-text_bytes}
use cassettedb.Wal.Records.{
  WalEntry, begin, insert, update, delete, commit, abort, Codec, raw_of, encode_raw, tx_entry_op,
  insert_op, delete_op, WalRecord, append, append_record, wal_magic,
}
use cassettedb.Wal.Replay.{idle, apply_all, run_entries, replay}
use cassettedb.Wal.Logged.{Holds, replay-append}
use cassettedb.Wal.Committed.{iter_committed}
use cassettedb.Wal.Records.{update_op}
use cassettedb.Prelude.{true, false}
use cassettedb.Wal.Marking.{handle_all}
use cassettedb.Wal.Flags.{Entry, Written, raw_entry, iter_committed-Written}
use cassettedb.Wal.Ending.{replay_total}
use cassettedb.Wal.Recovery.{Transaction, log_of, unfinished, replay_committed}

abbrev pub to_vec : WalEntry ℕ → Result Bytes
to_vec (begin t) = ok (0 ∷ t ∷ [])
to_vec (commit t) = ok (1 ∷ t ∷ [])
to_vec (abort t) = ok (2 ∷ t ∷ [])
to_vec (insert t collection doc) =
    if str_eq collection "c" then ok (3 ∷ t ∷ doc ∷ []) else err serialization
to_vec _ = err serialization

abbrev pub from_slice : Bytes → Option (WalEntry ℕ)
from_slice (zero ∷ t ∷ []) = some (begin t)
from_slice (suc zero ∷ t ∷ []) = some (commit t)
from_slice (suc (suc zero) ∷ t ∷ []) = some (abort t)
from_slice (suc (suc (suc zero)) ∷ t ∷ doc ∷ []) = some (insert t "c" doc)
from_slice _ = none

pub from_slice_of :
    (e : WalEntry ℕ) {payload : Bytes} → to_vec e ≡ ok payload → from_slice payload ≡ some e
from_slice_of (begin t) {payload} h =
    (let same : 0 ∷ t ∷ [] ≡ payload = cc h in ap from_slice (sym same))
from_slice_of (commit t) {payload} h =
    (let same : 1 ∷ t ∷ [] ≡ payload = cc h in ap from_slice (sym same))
from_slice_of (abort t) {payload} h =
    (let same : 2 ∷ t ∷ [] ≡ payload = cc h in ap from_slice (sym same))
from_slice_of (insert t collection doc) {payload} h = elim (Bool-cases (str_eq collection "c")) [
  | inl e ↦
      (let now : ok (3 ∷ t ∷ doc ∷ []) ≡ ok payload = rw e at h in
        let same : 3 ∷ t ∷ doc ∷ [] ≡ payload = cc now in
        ap from_slice (sym same)
        ∙ ap (λ (c : String). some (insert t c doc)) (sym ((eq_iff collection "c").0 e)))
  | inr e ↦ (let now : err serialization ≡ ok payload = rw e at h in cc now)
]
from_slice_of (update t collection id doc) h = cc h
from_slice_of (delete t collection id) h = cc h

abbrev pub codec : Codec ℕ
codec = record {
  order = little;
  crc32 = λ payload. 0;
  to_vec = to_vec;
  from_slice = from_slice;
  as_bytes = text_bytes;
  from_utf8_lossy = text_of;
  from_utf8_lossy-as_bytes = text_of-text_bytes;
  as_bytes_tx = refl;
  crc32_lt = λ payload. omega arith;
  from_slice-to_vec = from_slice_of;
}

-- The documents inserted, the last first.
abbrev collect : List ℕ → WalEntry ℕ → Result (List ℕ)
collect docs (insert t collection doc) = ok (doc ∷ docs)
collect docs _ = ok docs

-- One committed transaction, one aborted, one cut off.
abbrev transactions : List (Transaction ℕ)
transactions =
    record { id = 1; body = insert 1 "c" 10 ∷ insert 1 "c" 11 ∷ []; committed = true }
    ∷ record { id = 2; body = insert 2 "c" 20 ∷ []; committed = false }
    ∷ []

abbrev cut_off : Option (Transaction ℕ)
cut_off = some (record { id = 3; body = insert 3 "c" 30 ∷ []; committed = true })

abbrev record_of : Bytes → Bytes
record_of payload = encode_raw codec (raw_of codec tx_entry_op "tx" payload)

abbrev records_of : List Bytes → Bytes
records_of [] = []
records_of (p ∷ ps) = record_of p ++ records_of ps

abbrev log_bytes : Bytes
log_bytes = records_of (
    (0 ∷ 1 ∷ [])
    ∷ (3 ∷ 1 ∷ 10 ∷ [])
    ∷ (3 ∷ 1 ∷ 11 ∷ [])
    ∷ (1 ∷ 1 ∷ [])
    ∷ (0 ∷ 2 ∷ [])
    ∷ (3 ∷ 2 ∷ 20 ∷ [])
    ∷ (2 ∷ 2 ∷ [])
    ∷ (0 ∷ 3 ∷ [])
    ∷ (3 ∷ 3 ∷ 30 ∷ [])
    ∷ [])

abbrev header : Bytes
header = wal_magic ++ (1 ∷ 0 ∷ [])

log_bytes-Holds : Holds codec log_bytes (log_of transactions ++ unfinished cut_off)
log_bytes-Holds = (
  _,
  _,
  refl,
  omega arith,
  refl,
  (
    _,
    _,
    refl,
    omega arith,
    refl,
    (
      _,
      _,
      refl,
      omega arith,
      refl,
      (
        _,
        _,
        refl,
        omega arith,
        refl,
        (
          _,
          _,
          refl,
          omega arith,
          refl,
          (
            _,
            _,
            refl,
            omega arith,
            refl,
            (
              _,
              _,
              refl,
              omega arith,
              refl,
              (_, _, refl, omega arith, refl, (_, _, refl, omega arith, refl, refl)),
            ),
          ),
        ),
      ),
    ),
  ),
)

replay_committed_example :
    replay collect codec (record { file = header ++ log_bytes; tx_counter = 0 }) []
    ≡ some (apply_all collect [] (insert 1 "c" 10 ∷ insert 1 "c" 11 ∷ []))
replay_committed_example =
    replay_committed collect codec (record { file = header ++ log_bytes; tx_counter = 0 }) [] header
      log_bytes transactions cut_off refl refl log_bytes-Holds
      ((refl, (refl, tt)), ((refl, tt), tt)) (refl, tt)

append_run :
    append codec (record { file = header; tx_counter = 0 }) (insert 1 "c" 5)
    ≡ ok (record { file = header ++ record_of (3 ∷ 1 ∷ 5 ∷ []); tx_counter = 0 })
unfolding append append_record
append_run = refl

replay-append_example :
    replay collect codec (record { file = header ++ record_of (3 ∷ 1 ∷ 5 ∷ []); tx_counter = 0 }) []
    ≡ some (run_entries collect idle [] (insert 1 "c" 5 ∷ []))
replay-append_example =
    replay-append codec collect (record { file = header; tx_counter = 0 }) [] header [] []
      (insert 1 "c" 5) (3 ∷ 1 ∷ 5 ∷ []) refl refl refl refl (omega arith) append_run

-- A file cut off inside its second record.
replay_total_example :
    (result : Result (List ℕ)) × (replay collect codec
        (record { file = header ++ (record_of (0 ∷ 1 ∷ []) ++ (4 ∷ 2 ∷ [])); tx_counter = 0 })
        []
      ≡ some result)
replay_total_example =
    replay_total codec collect
      (record { file = header ++ (record_of (0 ∷ 1 ∷ []) ++ (4 ∷ 2 ∷ [])); tx_counter = 0 }) []

-- The payloads of the records, the last first.
abbrev payloads : List Bytes → WalRecord → Result (List Bytes)
payloads ps r = ok (r.payload ∷ ps)

-- A record that was committed, one that was not, and another that was.
abbrev entries : List Entry
entries =
    record { of = record { op = insert_op; doc_id = "a"; payload = 7 ∷ [] }; committed = true }
    ∷ record { of = record { op = update_op; doc_id = "a"; payload = 8 ∷ [] }; committed = false }
    ∷ record { of = record { op = delete_op; doc_id = "a"; payload = [] }; committed = true }
    ∷ []

abbrev entry_bytes : List Entry → Bytes
entry_bytes [] = []
entry_bytes (e ∷ es) = encode_raw codec (raw_entry codec e) ++ entry_bytes es

entry_bytes-Written : Written codec (entry_bytes entries) entries
entry_bytes-Written = (
  _,
  (omega arith, omega arith),
  refl,
  (_, (omega arith, omega arith), refl, ([], (omega arith, omega arith), refl, refl)),
)

iter_committed-Written_example :
    iter_committed codec payloads
      (record { file = header ++ entry_bytes entries; tx_counter = 0 })
      []
    ≡ some (
        handle_all codec payloads [] (
          record { op = insert_op; doc_id = "a"; payload = 7 ∷ [] }
          ∷ record { op = delete_op; doc_id = "a"; payload = [] }
          ∷ []))
iter_committed-Written_example =
    iter_committed-Written codec payloads
      (record { file = header ++ entry_bytes entries; tx_counter = 0 }) [] header
      (entry_bytes entries) entries refl refl entry_bytes-Written
