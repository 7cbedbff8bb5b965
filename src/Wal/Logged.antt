-- ===== src/Wal/Logged.antt =====
-- wal.rs: what replay makes of a file that append wrote.
use cassettedb.Prelude.{
  drop-append_length, append_assoc, append_nil, ℕ, zero, suc, ◌≤◌, ◌<◌, ◌^◌, ◌≡◌, refl, sym, ap,
  ◌∙◌, List, [], ◌∷◌, ◌++◌, length, drop, arith, length-append, subst, Option, none, some,
}
use cassettedb.Prelude.Errors.{Result, ok, err, ◌>>=◌}
use cassettedb.Bytes.{Bytes}
use cassettedb.Wal.Records.{
  tx_entry_op, WalEntry, Codec, Wal, RawRecord, raw_of, encode_raw, Fits, tail_of,
  encode_raw-tail_of, read_fields-tail_of, length-tail_of, append, append_record,
}
use cassettedb.Wal.Replay.{
  ReplayState, idle, on_entry, read_record, on_record, replay_loop, continued, run_entries, replay,
}

module _ {V : Type 0} (codec : Codec V) where
  -- The record that append writes for an entry with this payload.
  abbrev entry_record : Bytes → RawRecord
  entry_record payload = raw_of codec tx_entry_op "tx" payload

  -- The bytes are those of the records of the entries, with payloads whose length fits.
  abbrev pub Holds : Bytes → List (WalEntry V) → Type 0
  Holds bytes [] = bytes ≡ []
  Holds bytes (e ∷ es) =
      (payload : Bytes) × (rest : Bytes) × (codec.to_vec e ≡ ok payload)
      × (length payload < 2 ^ 32)
      × (bytes ≡ encode_raw codec (entry_record payload) ++ rest)
      × Holds rest es

  entry_record-Fits :
      (payload : Bytes) → length payload < 2 ^ 32 → Fits codec (entry_record payload)
  entry_record-Fits payload h = record {
    op_lt = omega arith;
    id_lt = rw codec.as_bytes_tx (omega arith);
    payload_lt = h;
    checksum_lt = codec.crc32_lt payload;
    commit_flag_lt = omega arith;
  }

  pub Holds-append :
      (bytes : Bytes) (es : List (WalEntry V)) (e : WalEntry V) (payload : Bytes)
      → Holds bytes es
      → codec.to_vec e ≡ ok payload
      → length payload < 2 ^ 32
      → Holds (bytes ++ encode_raw codec (entry_record payload)) (es ++ e ∷ [])
  Holds-append bytes [] e payload h made fits = (
    payload,
    [],
    made,
    fits,
    ap (λ b. b ++ encode_raw codec (entry_record payload)) h ∙ sym (append_nil _),
    refl,
  )
  Holds-append bytes (e' ∷ es) e payload (payload', rest, made', fits', same, h) made fits = (
    payload',
    rest ++ encode_raw codec (entry_record payload),
    made',
    fits',
    ap (λ b. b ++ encode_raw codec (entry_record payload)) same
        ∙ append_assoc (encode_raw codec (entry_record payload')) rest _,
    Holds-append rest es e payload h made fits,
  )

  append_file :
      (w : Wal) (e : WalEntry V) (payload : Bytes) {w' : Wal}
      → codec.to_vec e ≡ ok payload
      → append codec w e ≡ ok w'
      → w'.file ≡ w.file ++ encode_raw codec (entry_record payload)
  unfolding append append_record
  append_file w e payload {w'} made done =
      let now : ok (append_record codec w tx_entry_op "tx" payload).0 ≡ ok w' = rw made at done in
      let same : (append_record codec w tx_entry_op "tx" payload).0 ≡ w' = cc now in
      ap (λ (v : Wal). v.file) (sym same)

  module _ {S : Type 0} (f : S → WalEntry V → Result S) where
    read_entry :
        (payload rest : Bytes)
        → length payload < 2 ^ 32
        → read_record codec (encode_raw codec (entry_record payload) ++ rest)
          ≡ ok (some (entry_record payload, rest))
    unfolding read_record
    read_entry payload rest h =
        let fits = entry_record-Fits payload h in
        rw (
          encode_raw-tail_of codec (entry_record payload) rest fits,
          codec.order.read_u8_cons 4 (tail_of codec (entry_record payload) rest),
          read_fields-tail_of codec (entry_record payload) rest fits,
        )

    on_entry_record :
        (st : ReplayState V) (s : S) (e : WalEntry V) (payload : Bytes)
        → codec.to_vec e ≡ ok payload
        → on_record f codec st s (entry_record payload) ≡ on_entry f st s e
    unfolding on_record
    on_entry_record st s e payload made = rw (codec.from_slice-to_vec e made)

    read_end : read_record codec [] ≡ ok none
    unfolding read_record
    read_end = rw codec.order.read_u8_nil

    continued_run :
        (next : ReplayState V → S → Bytes → Option (Result S)) (run : ReplayState V × S → Result S)
        (rest : Bytes) (r : Result (ReplayState V × S))
        → ((st : ReplayState V) (s : S) → next st s rest ≡ some (run (st, s)))
        → continued f codec next rest r ≡ some (r >>= run)
    continued_run next run rest (err e) h = refl
    continued_run next run rest (ok (st, s)) h = h st s

    -- The loop handles the entries that the bytes hold, if its fuel is more than their number.
    pub replay_loop-Holds :
        (n : ℕ) (st : ReplayState V) (s : S) (bytes : Bytes) (es : List (WalEntry V))
        → Holds bytes es
        → length es < n
        → replay_loop f codec n st s bytes ≡ some (run_entries f st s es)
    unfolding replay_loop
    replay_loop-Holds zero st s bytes es h k = absurd (omega arith)
    replay_loop-Holds (suc n) st s bytes [] h k = rw (h, read_end)
    replay_loop-Holds (suc n) st s bytes (e ∷ es) (payload, rest, made, fits, same, h) k =
        rw (same, read_entry payload rest fits, on_entry_record st s e payload made)
          (continued_run (replay_loop f codec n) (λ (st', s'). run_entries f st' s' es) rest
            (on_entry f st s e) (λ st' s'. replay_loop-Holds n st' s' rest es h (omega arith)))

    pub length-Holds :
        (bytes : Bytes) (es : List (WalEntry V)) → Holds bytes es → length es ≤ length bytes
    length-Holds bytes [] h = omega arith
    length-Holds bytes (e ∷ es) (payload, rest, made, fits, same, h) =
        let r = entry_record payload in
        let bytes_of = same ∙ encode_raw-tail_of codec r rest (entry_record-Fits payload fits) in
        omega
          (arith, length-Holds rest es h, ap {B = ℕ} length bytes_of, length-tail_of codec r rest)

    -- The entries that the bytes after the header hold are replayed in their order.
    pub replay_entries :
        (w : Wal) (s : S) (header bytes : Bytes) (es : List (WalEntry V))
        → length header ≡ 6
        → w.file ≡ header ++ bytes
        → Holds bytes es
        → replay f codec w s ≡ some (run_entries f idle s es)
    unfolding replay
    replay_entries w s header bytes es six same h =
        let behind : drop 6 w.file ≡ bytes =
          ap (drop 6) same
          ∙ subst (λ n. drop n (header ++ bytes) ≡ bytes) six (drop-append_length header bytes) in
        let enough : length es < suc (length w.file) =
          omega
            (arith, length-Holds bytes es h, ap {B = ℕ} length same, length-append header bytes) in
        replay_loop-Holds (suc (length w.file)) idle s (drop 6 w.file) es
          (subst (λ b. Holds b es) (sym behind) h) enough

    -- An entry appended to a log is replayed after those that the log held, for a payload of fewer
    -- than 2^32 bytes.
    pub replay-append :
        (w : Wal) (s : S) (header bytes : Bytes) (es : List (WalEntry V)) (e : WalEntry V)
        (payload : Bytes) {w' : Wal}
        → length header ≡ 6
        → w.file ≡ header ++ bytes
        → Holds bytes es
        → codec.to_vec e ≡ ok payload
        → length payload < 2 ^ 32
        → append codec w e ≡ ok w'
        → replay f codec w' s ≡ some (run_entries f idle s (es ++ e ∷ []))
    replay-append w s header bytes es e payload {w'} six same h made fits done =
        let new = encode_raw codec (entry_record payload) in
        let written : w'.file ≡ header ++ (bytes ++ new) =
          append_file w e payload made done
          ∙ ap (λ b. b ++ new) same
          ∙ append_assoc header bytes new in
        replay_entries w' s header (bytes ++ new) (es ++ e ∷ []) six written
          (Holds-append bytes es e payload h made fits)
