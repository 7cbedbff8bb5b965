-- ===== src/Wal/Logging.antt =====
-- wal.rs: append_record and commit_record at its offset, as the engine calls them.
use cassettedb.Prelude.{
  ℕ, ◌+◌, ◌<◌, ◌^◌, ◌≡◌, sym, ap, ◌∙◌, [], ◌∷◌, ◌++◌, length, drop, arith, String, append_assoc,
  append_nil, length-append, drop-append_length,
}
use cassettedb.Prelude.Errors.{ok}
use cassettedb.Bytes.{Bytes, write_at, read_exact-append, write_at_last}
use cassettedb.Wal.Records.{
  WalOp, insert_op, update_op, delete_op, tx_entry_op, op_code, Codec, Wal, RawRecord, raw_of,
  encode_raw, Fits, tail_of, encode_raw-tail_of,
}
use cassettedb.Wal.Committed.{log_record}

module _ {V : Type 0} (codec : Codec V) where
  -- A record as it stands in the file when it is marked.
  abbrev pub marked : WalOp → String → Bytes → RawRecord
  marked op doc_id payload = record (raw_of codec op doc_id payload) { commit_flag = 1 }

  abbrev pub Loggable : String → Bytes → Type 0
  Loggable doc_id payload = (length (codec.as_bytes doc_id) < 2 ^ 32) × (length payload < 2 ^ 32)

  op_code_lt : (op : WalOp) → op_code op < 256
  op_code_lt insert_op = omega arith
  op_code_lt update_op = omega arith
  op_code_lt delete_op = omega arith
  op_code_lt tx_entry_op = omega arith

  -- A record up to its flag.
  abbrev head_of : RawRecord → Bytes
  head_of r =
      r.op
      ∷ (codec.order.write_u32 (length r.id)
          ++ (r.id
              ++ (codec.order.write_u32 (length r.payload)
                  ++ (r.payload ++ codec.order.write_u32 r.checksum))))

  encode_raw-head_of :
      (r : RawRecord) → Fits codec r → encode_raw codec r ≡ head_of r ++ r.commit_flag ∷ []
  encode_raw-head_of r f =
      sym (append_nil (encode_raw codec r))
      ∙ encode_raw-tail_of codec r [] f
      ∙ sym (
          rw (
            append_assoc (codec.order.write_u32 (length r.id)) _ (r.commit_flag ∷ []),
            append_assoc r.id _ (r.commit_flag ∷ []),
            append_assoc (codec.order.write_u32 (length r.payload)) _ (r.commit_flag ∷ []),
            append_assoc r.payload (codec.order.write_u32 r.checksum) (r.commit_flag ∷ []),
          ))

  length-head_of :
      (r : RawRecord) → length (head_of r) ≡ 1 + 4 + length r.id + 4 + length r.payload + 4
  length-head_of r = omega (
    arith,
    length-append (codec.order.write_u32 (length r.id)) (
        r.id
        ++ (codec.order.write_u32 (length r.payload)
            ++ (r.payload ++ codec.order.write_u32 r.checksum))),
    length-append r.id (
        codec.order.write_u32 (length r.payload)
        ++ (r.payload ++ codec.order.write_u32 r.checksum)),
    length-append (codec.order.write_u32 (length r.payload))
        (r.payload ++ codec.order.write_u32 r.checksum),
    length-append r.payload (codec.order.write_u32 r.checksum),
    codec.order.length-write_u32 (length r.id),
    codec.order.length-write_u32 (length r.payload),
    codec.order.length-write_u32 r.checksum,
  )

  pub raw-Fits :
      (op : WalOp) (doc_id : String) (payload : Bytes) (flag : ℕ)
      → flag < 256
      → Loggable doc_id payload
      → Fits codec (record (raw_of codec op doc_id payload) { commit_flag = flag })
  raw-Fits op doc_id payload flag h (id_lt, payload_lt) = record {
    op_lt = op_code_lt op;
    id_lt = id_lt;
    payload_lt = payload_lt;
    checksum_lt = codec.crc32_lt payload;
    commit_flag_lt = h;
  }

  remarked :
      (w : Wal) (r : RawRecord)
      → Fits codec r
      → Fits codec (record r { commit_flag = 1 })
      → write_at
          (w.file ++ encode_raw codec r)
          (length w.file + (5 + length r.id + 4 + length r.payload + 4))
          (1 ∷ [])
        ≡ w.file ++ encode_raw codec (record r { commit_flag = 1 })
  remarked w r fits fits' =
      let n = length w.file + (5 + length r.id + 4 + length r.payload + 4) in
      let front = w.file ++ head_of r in
      let place : n ≡ length front =
        omega (arith, length-append w.file (head_of r), length-head_of r) in
      ap (λ e. write_at (w.file ++ e) n (1 ∷ [])) (encode_raw-head_of r fits)
      ∙ ap (λ (e : Bytes). write_at e n (1 ∷ []))
          (sym (append_assoc w.file (head_of r) (r.commit_flag ∷ [])))
      ∙ write_at_last front r.commit_flag 1 n place
      ∙ append_assoc w.file (head_of r) (1 ∷ [])
      ∙ ap (λ (e : Bytes). w.file ++ e)
          (sym (encode_raw-head_of (record r { commit_flag = 1 }) fits'))

  -- Marking the record just appended leaves the file with the record marked.
  pub log_record_file :
      (w : Wal) (op : WalOp) (doc_id : String) (payload : Bytes)
      → Loggable doc_id payload
      → log_record codec w op doc_id payload
        ≡ ok (record w { file = w.file ++ encode_raw codec (marked op doc_id payload) })
  unfolding log_record
  log_record_file w op doc_id payload h =
      let r = raw_of codec op doc_id payload in
      let fits = raw-Fits op doc_id payload 0 (omega arith) h in
      let written : encode_raw codec r ≡ r.op ∷ tail_of codec r [] =
        sym (append_nil (encode_raw codec r)) ∙ encode_raw-tail_of codec r [] fits in
      let tail = tail_of codec r [] in
      let start : drop (length w.file) (w.file ++ encode_raw codec r) ≡ r.op ∷ tail =
        drop-append_length w.file (encode_raw codec r) ∙ written in
      let body : Bytes =
        codec.order.write_u32 (length r.payload)
        ++ (r.payload ++ (codec.order.write_u32 r.checksum ++ (0 ∷ []))) in
      rw
        (
          start,
          read_exact-append (r.op ∷ []) tail,
          codec.order.read_u32-write_u32 (length r.id) (r.id ++ body) h.0,
          drop-append_length r.id body,
          codec.order.read_u32-write_u32 (length r.payload) _ h.1,
        )
        (ap (λ (file : Bytes). ok (record w { file = file }))
          (remarked w r fits (raw-Fits op doc_id payload 1 (omega arith) h)))
