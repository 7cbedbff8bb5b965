-- ===== src/Wal/Records.antt =====
-- wal.rs: the log file, its records and their bytes. The crates crc32fast and serde_json, and the
-- conversion of strings, are parameters. The file is the list of its bytes.
use cassettedb.Prelude.{
  append_assoc, ℕ, ◌+◌, ◌%◌, ◌≤◌, ◌<◌, ◌^◌, ◌≡◌, [], ◌∷◌, ◌++◌, length, if◌then◌else◌, arith,
  length-append, ◌==◌, not, Option, some, String,
}
use cassettedb.Prelude.Errors.{Result, ok, err, wal, ◌>>=◌}
use cassettedb.Bytes.{Bytes, ByteOrder, read_exact, read_exact-append, resize}
use cassettedb.Storage.Header.{bytes_eq}

pub data WalOp : Type 0 where
  insert_op update_op delete_op tx_entry_op : WalOp

-- The discriminants of `#[repr(u8)]`.
abbrev pub op_code : WalOp → ℕ
op_code insert_op = 1
op_code update_op = 2
op_code delete_op = 3
op_code tx_entry_op = 4

pub record WalRecord : Type 0 where
  pub op : WalOp
  pub doc_id : String
  pub payload : Bytes

pub data WalEntry (V : Type 0) : Type 0 where
  begin : ℕ → WalEntry V
  insert : ℕ → String → V → WalEntry V
  update : ℕ → String → String → V → WalEntry V
  delete : ℕ → String → String → WalEntry V
  commit : ℕ → WalEntry V
  abort : ℕ → WalEntry V

-- What the log asks of other crates and of the conversion of strings to UTF-8.
pub record Codec (V : Type 0) : Type 0 where
  pub order : ByteOrder
  pub crc32 : Bytes → ℕ
  pub to_vec : WalEntry V → Result Bytes
  pub from_slice : Bytes → Option (WalEntry V)
  pub as_bytes : String → Bytes
  pub from_utf8_lossy : Bytes → String
  pub from_utf8_lossy-as_bytes : (s : String) → from_utf8_lossy (as_bytes s) ≡ s
  pub as_bytes_tx : as_bytes "tx" ≡ 116 ∷ 120 ∷ []
  pub crc32_lt : (payload : Bytes) → crc32 payload < 2 ^ 32
  pub from_slice-to_vec :
      (e : WalEntry V) {payload : Bytes} → to_vec e ≡ ok payload → from_slice payload ≡ some e

-- "CWL1"
abbrev pub wal_magic : Bytes
wal_magic = 67 ∷ 87 ∷ 76 ∷ 49 ∷ []

pub record Wal : Type 0 where
  pub file : Bytes
  pub tx_counter : ℕ

-- The fields of a record as they stand in the file.
pub record RawRecord : Type 0 where
  pub op : ℕ
  pub id : Bytes
  pub payload : Bytes
  pub checksum : ℕ
  pub commit_flag : ℕ

module _ {V : Type 0} (codec : Codec V) where
  abbrev le : ByteOrder
  le = codec.order

  abbrev check_version : ℕ → Bytes → Result Wal
  check_version version file =
      if not (version == 1)
      then err (wal "Unsupported WAL version")
      else ok (record { file = file; tx_counter = 0 })

  abbrev check_magic : Bytes → Bytes → Bytes → Result Wal
  check_magic magic r file =
      if not (bytes_eq magic wal_magic)
      then err (wal "Invalid WAL magic")
      else le.read_u16 r >>= λ (version, _). check_version version file

  abbrev check_header : Bytes → Result Wal
  check_header file = read_exact 4 file >>= λ (magic, r). check_magic magic r file

  unfoldable pub open_wal : Bytes → Result Wal
  open_wal [] = ok (record { file = wal_magic ++ le.write_u16 1; tx_counter = 0 })
  open_wal (b ∷ bs) = check_header (b ∷ bs)

  -- A length of type `usize` is written as a `u32`.
  unfoldable pub encode_raw : RawRecord → Bytes
  encode_raw r =
      le.write_u8 r.op
      ++ (le.write_u32 (length r.id % 2 ^ 32)
          ++ (r.id
              ++ (le.write_u32 (length r.payload % 2 ^ 32)
                  ++ (r.payload ++ (le.write_u32 r.checksum ++ le.write_u8 r.commit_flag)))))

  abbrev pub raw_of : WalOp → String → Bytes → RawRecord
  raw_of op doc_id payload = record {
    op = op_code op;
    id = codec.as_bytes doc_id;
    payload = payload;
    checksum = codec.crc32 payload;
    commit_flag = 0;
  }

  unfoldable pub append_record : Wal → WalOp → String → Bytes → Wal × ℕ
  append_record w op doc_id payload =
      (record w { file = w.file ++ encode_raw (raw_of op doc_id payload) }, length w.file)

  unfoldable pub append : Wal → WalEntry V → Result Wal
  append w e = do payload ← codec.to_vec e; ok (append_record w tx_entry_op "tx" payload).0

  unfoldable pub begin_tx : Wal → Result (Wal × ℕ)
  begin_tx w =
      let tx_id : ℕ = (w.tx_counter + 1) % 2 ^ 64 in
      append (record w { tx_counter = tx_id }) (begin tx_id) >>= λ w'. ok (w', tx_id)

  unfoldable pub commit_tx : Wal → ℕ → Result Wal
  commit_tx w tx_id = append w (commit tx_id)

  unfoldable pub abort_tx : Wal → ℕ → Result Wal
  abort_tx w tx_id = append w (abort tx_id)

  -- `set_len(6)`: a shorter file is filled up with zeros.
  unfoldable pub reset : Wal → Wal
  reset w = record w { file = resize 6 w.file }

  -- The reads of one record after its first byte, which `replay` and `WalIter::next` share.
  unfoldable pub read_fields : ℕ → Bytes → Result (RawRecord × Bytes)
  read_fields op bytes = do
    (id_len, r1) ← le.read_u32 bytes
    (id, r2) ← read_exact id_len r1
    (payload_len, r3) ← le.read_u32 r2
    (payload, r4) ← read_exact payload_len r3
    (checksum, r5) ← le.read_u32 r4
    (commit_flag, r6) ← le.read_u8 r5
    ok (
      record {
        op = op;
        id = id;
        payload = payload;
        checksum = checksum;
        commit_flag = commit_flag;
      },
      r6,
    )

  -- The lengths and numbers of a record are of their Rust types.
  pub record Fits (r : RawRecord) : Type 0 where
    pub op_lt : r.op < 256
    pub id_lt : length r.id < 2 ^ 32
    pub payload_lt : length r.payload < 2 ^ 32
    pub checksum_lt : r.checksum < 2 ^ 32
    pub commit_flag_lt : r.commit_flag < 256

  -- A length that fits is written unchanged.
  length_mod : (xs : Bytes) → length xs < 2 ^ 32 → length xs % 2 ^ 32 ≡ length xs
  length_mod xs h = omega arith

  -- The bytes of a record after the first.
  abbrev pub tail_of : RawRecord → Bytes → Bytes
  tail_of r rest =
      le.write_u32 (length r.id)
      ++ (r.id
          ++ (le.write_u32 (length r.payload)
              ++ (r.payload ++ (le.write_u32 r.checksum ++ (r.commit_flag ∷ rest)))))

  pub encode_raw-tail_of :
      (r : RawRecord) (rest : Bytes) → Fits r → encode_raw r ++ rest ≡ r.op ∷ tail_of r rest
  unfolding encode_raw
  encode_raw-tail_of r rest f = rw (
    length_mod r.id f.id_lt,
    length_mod r.payload f.payload_lt,
    le.write_u8_lem r.op f.op_lt,
    le.write_u8_lem r.commit_flag f.commit_flag_lt,
    append_assoc (le.write_u32 (length r.id)) _ rest,
    append_assoc r.id _ rest,
    append_assoc (le.write_u32 (length r.payload)) _ rest,
    append_assoc r.payload _ rest,
    append_assoc (le.write_u32 r.checksum) _ rest,
  )

  -- A record is read as it was written, and the reader stands after it.
  pub read_fields-tail_of :
      (r : RawRecord) (rest : Bytes) → Fits r → read_fields r.op (tail_of r rest) ≡ ok (r, rest)
  unfolding read_fields
  read_fields-tail_of r rest f = rw (
    le.read_u32-write_u32 (length r.id) _ f.id_lt,
    read_exact-append r.id _,
    le.read_u32-write_u32 (length r.payload) _ f.payload_lt,
    read_exact-append r.payload _,
    le.read_u32-write_u32 r.checksum _ f.checksum_lt,
    le.read_u8_cons r.commit_flag rest,
  )

  pub length-tail_of : (r : RawRecord) (rest : Bytes) → length rest ≤ length (tail_of r rest)
  length-tail_of r rest = omega (
    arith,
    length-append (le.write_u32 (length r.id)) (
        r.id
        ++ (le.write_u32 (length r.payload)
            ++ (r.payload ++ (le.write_u32 r.checksum ++ (r.commit_flag ∷ rest))))),
    length-append r.id (
        le.write_u32 (length r.payload)
        ++ (r.payload ++ (le.write_u32 r.checksum ++ (r.commit_flag ∷ rest)))),
    length-append (le.write_u32 (length r.payload))
        (r.payload ++ (le.write_u32 r.checksum ++ (r.commit_flag ∷ rest))),
    length-append r.payload (le.write_u32 r.checksum ++ (r.commit_flag ∷ rest)),
    length-append (le.write_u32 r.checksum) (r.commit_flag ∷ rest),
  )
