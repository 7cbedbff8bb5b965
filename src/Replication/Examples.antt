-- ===== src/Replication/Examples.antt =====
-- replication.rs on a small log.
use cassettedb.Prelude.{
  ℕ, zero, suc, ◌≡◌, refl, sym, ap, ◌∙◌, List, [], ◌∷◌, ◌++◌, Option, none, some, String, arith,
  length, take, drop, take-append_length, drop-append_length,
}
use cassettedb.Prelude.Errors.{ok}
use cassettedb.Bytes.{Bytes}
use cassettedb.Bytes.Text.{text_bytes, text_of, text_of-text_bytes}
use cassettedb.Wal.Records.{WalOp, insert_op, update_op, delete_op, tx_entry_op, op_code}
use cassettedb.Replication.Log.{ChangeRecord, ChangeCodec, ReplicationLog, repl_header, frame}
use cassettedb.Prelude.Integers.{ℤ, pos, sign_of, size_of, int_of, int_of-sign_of}
use cassettedb.Replication.Feed.{ChangeFeed, publish, poll}
use cassettedb.Replication.Stored.{Stores}
use cassettedb.Replication.Following.{poll-Stores, publish-poll}

abbrev op_of : ℕ → WalOp
op_of (suc zero) = insert_op
op_of (suc (suc zero)) = update_op
op_of (suc (suc (suc zero))) = delete_op
op_of _ = tx_entry_op

op_of-op_code : (op : WalOp) → op_of (op_code op) ≡ op
op_of-op_code insert_op = refl
op_of-op_code update_op = refl
op_of-op_code delete_op = refl
op_of-op_code tx_entry_op = refl

abbrev to_bytes : ChangeRecord → Bytes
to_bytes r =
    r.sequence
    ∷ op_code r.op
    ∷ sign_of r.timestamp
    ∷ size_of r.timestamp
    ∷ length (text_bytes r.doc_id)
    ∷ (text_bytes r.doc_id ++ r.payload)

abbrev from_slice : Bytes → Option ChangeRecord
from_slice (sequence ∷ op ∷ sign ∷ size ∷ n ∷ rest) = some (record {
  sequence = sequence;
  op = op_of op;
  doc_id = text_of (take n rest);
  payload = drop n rest;
  timestamp = int_of sign size;
})
from_slice _ = none

abbrev record_of : ℕ → ℕ → ℤ → Bytes → Bytes → ChangeRecord
record_of sequence op timestamp id payload = record {
  sequence = sequence;
  op = op_of op;
  doc_id = text_of id;
  payload = payload;
  timestamp = timestamp;
}

from_slice-to_bytes : (r : ChangeRecord) → from_slice (to_bytes r) ≡ some r
from_slice-to_bytes r =
    let id = text_bytes r.doc_id in
    ap
      (λ (b : Bytes). some (
        record_of r.sequence (op_code r.op) (int_of (sign_of r.timestamp) (size_of r.timestamp)) b
          (drop (length id) (id ++ r.payload))))
      (take-append_length id r.payload)
    ∙ ap
        (λ (z : ℤ).
          some (record_of r.sequence (op_code r.op) z id (drop (length id) (id ++ r.payload))))
        (int_of-sign_of r.timestamp)
    ∙ ap (λ (b : Bytes). some (record_of r.sequence (op_code r.op) r.timestamp id b))
        (drop-append_length id r.payload)
    ∙ ap
        (λ (d : String). some (record {
          sequence = r.sequence;
          op = op_of (op_code r.op);
          doc_id = d;
          payload = r.payload;
          timestamp = r.timestamp;
        }))
        (text_of-text_bytes r.doc_id)
    ∙ ap
        (λ (o : WalOp). some (record {
          sequence = r.sequence;
          op = o;
          doc_id = r.doc_id;
          payload = r.payload;
          timestamp = r.timestamp;
        }))
        (op_of-op_code r.op)

pub from_slice_of :
    (r : ChangeRecord) {bytes : Bytes} → ok (to_bytes r) ≡ ok bytes → from_slice bytes ≡ some r
from_slice_of r {bytes} h =
    (let same : to_bytes r ≡ bytes = cc h in ap from_slice (sym same) ∙ from_slice-to_bytes r)

abbrev pub codec : ChangeCodec
codec = record {
  to_vec = λ r. ok (to_bytes r);
  from_slice = from_slice;
  from_slice-to_vec = from_slice_of;
}

abbrev change : ℕ → WalOp → String → ChangeRecord
change sequence op doc_id = record {
  sequence = sequence;
  op = op;
  doc_id = doc_id;
  payload = 7 ∷ [];
  timestamp = pos 0;
}

abbrev changes : List ChangeRecord
changes = change 1 insert_op "a" ∷ change 2 update_op "a" ∷ change 3 delete_op "a" ∷ []

abbrev frames : List ChangeRecord → Bytes
frames [] = []
frames (r ∷ rs) = frame (to_bytes r) ++ frames rs

abbrev three : ReplicationLog
three = record { file = repl_header codec ++ frames changes; next_sequence = 4 }

three-Stores : Stores codec three changes
unfolding frame
three-Stores = record {
  bytes = frames changes;
  file_lem = refl;
  holds = (
    _,
    _,
    refl,
    omega arith,
    refl,
    (_, _, refl, omega arith, refl, (_, _, refl, omega arith, refl, refl)),
  );
  numbered = (refl, (refl, (refl, tt)));
  next = refl;
}

poll-Stores_example :
    poll codec 1 three.file ≡ some (3, ok (change 2 update_op "a" ∷ change 3 delete_op "a" ∷ []))
poll-Stores_example = poll-Stores codec three changes 1 three-Stores (omega arith) (omega arith)

abbrev feed : ChangeFeed (List ChangeRecord)
feed = record { log = three; subscribers = [] ∷ [] }

abbrev send : List ChangeRecord → ChangeRecord → Option (List ChangeRecord)
send received r = some (received ++ r ∷ [])

publish-poll_example :
    (feed' : ChangeFeed (List ChangeRecord)) × (publish codec send feed insert_op "b" (7 ∷ []) 0
      ≡ ok (feed', 4))
    × (poll codec 3 feed'.log.file ≡ some (4, ok (change 4 insert_op "b" ∷ [])))
    × (poll codec 4 feed'.log.file ≡ some (4, ok []))
publish-poll_example =
    publish-poll codec send feed changes insert_op "b" (7 ∷ []) 0
      (to_bytes (change 4 insert_op "b")) three-Stores (omega arith) refl (omega arith)
