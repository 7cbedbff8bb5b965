-- ===== src/Wal/Ending.antt =====
-- wal.rs: every run of replay ends.
use cassettedb.Prelude.{
  ℕ, zero, suc, ◌≤◌, ◌<◌, ◌≡◌, refl, ap, [], ◌∷◌, length, drop, arith, Option, none, some,
}
use cassettedb.Prelude.Errors.{Result, ok, err, >>=-ok}
use cassettedb.Bytes.{Bytes, ByteOrder, read_exact, length-drop}
use cassettedb.Wal.Records.{WalEntry, Codec, Wal, RawRecord, read_fields}
use cassettedb.Wal.Replay.{
  ReplayState, idle, read_record, on_record, replay_loop, replay_read, continued, replay,
}

-- The rest after a read is no longer than what was read.
read_exact_rest :
    (n : ℕ) (bytes : Bytes) {front rest : Bytes}
    → read_exact n bytes ≡ ok (front, rest)
    → length rest ≤ length bytes
unfolding read_exact
read_exact_rest n bytes {front} {rest} h = ground (arith, length-drop n bytes)

ok_rest :
    {A : Type 0} {a a' : A} {b b' : Bytes}
    → ◌≡◌ {A = Result (A × Bytes)} (ok (a, b)) (ok (a', b'))
    → b ≡ b'
ok_rest h = cc h

module _ (order : ByteOrder) where
  read_u8_rest :
      (bytes : Bytes) {n : ℕ} {rest : Bytes}
      → order.read_u8 bytes ≡ ok (n, rest)
      → length rest < length bytes
  read_u8_rest [] h = cc (h, order.read_u8_nil)
  read_u8_rest (b ∷ bytes) {n} {rest} h =
      let same : bytes ≡ rest = cc (h, order.read_u8_cons b bytes) in
      omega (arith, ap {B = ℕ} length same)

module _ {V : Type 0} (codec : Codec V) where
  read_fields_rest :
      (op : ℕ) (bytes : Bytes) {r : RawRecord} {rest : Bytes}
      → read_fields codec op bytes ≡ ok (r, rest)
      → length rest ≤ length bytes
  unfolding read_fields
  read_fields_rest op bytes {r} {rest} h =
      let ((id_len, r1), h1, k1) = >>=-ok (codec.order.read_u32 bytes) _ h in
      let ((id, r2), h2, k2) = >>=-ok (read_exact id_len r1) _ k1 in
      let ((payload_len, r3), h3, k3) = >>=-ok (codec.order.read_u32 r2) _ k2 in
      let ((payload, r4), h4, k4) = >>=-ok (read_exact payload_len r3) _ k3 in
      let ((checksum, r5), h5, k5) = >>=-ok (codec.order.read_u32 r4) _ k4 in
      let ((commit_flag, r6), h6, k6) = >>=-ok (codec.order.read_u8 r5) _ k5 in
      let same : r6 ≡ rest = ok_rest k6 in
      omega (
        arith,
        codec.order.read_u32_rest bytes h1,
        read_exact_rest id_len r1 h2,
        codec.order.read_u32_rest r2 h3,
        read_exact_rest payload_len r3 h4,
        codec.order.read_u32_rest r4 h5,
        read_u8_rest codec.order r5 h6,
        ap {B = ℕ} length same,
      )

  module _ {S : Type 0} (f : S → WalEntry V → Result S) where
    read_record_rest :
        (bytes : Bytes) {r : RawRecord} {rest : Bytes}
        → read_record codec bytes ≡ ok (some (r, rest))
        → length rest < length bytes
    unfolding read_record
    read_record_rest [] {r} {rest} h =
        let ended : ok none ≡ ok (some (r, rest)) = rw codec.order.read_u8_nil at h in cc ended
    read_record_rest (b ∷ bytes) {r} {rest} h =
        let found = rw (codec.order.read_u8_cons b bytes) at h in
        let ((r', rest'), read, k) = >>=-ok (read_fields codec b bytes) (λ x. ok (some x)) found in
        let same : rest' ≡ rest = cc k in
        omega (arith, read_fields_rest b bytes read, ap {B = ℕ} length same)

    continued_ends :
        (next : ReplayState V → S → Bytes → Option (Result S)) (rest : Bytes)
        (handled : Result (ReplayState V × S))
        → ((st : ReplayState V) (s : S) → (result : Result S) × (next st s rest ≡ some result))
        → (result : Result S) × (continued f codec next rest handled ≡ some result)
    continued_ends next rest (err e) h = (err e, refl)
    continued_ends next rest (ok (st, s)) h = h st s

    -- A round ends the loop, or leaves less to read.
    round_ends :
        (next : ReplayState V → S → Bytes → Option (Result S)) (st : ReplayState V) (s : S)
        (found : Result (Option (RawRecord × Bytes)))
        → ((r : RawRecord) (rest : Bytes)
            → found ≡ ok (some (r, rest))
            → (st : ReplayState V) (s : S) → (result : Result S) × (next st s rest ≡ some result))
        → (result : Result S) × (replay_read f codec next st s found ≡ some result)
    round_ends next st s (err e) h = (err e, refl)
    round_ends next st s (ok none) h = (ok s, refl)
    round_ends next st s (ok (some (r, rest))) h =
        continued_ends next rest (on_record f codec st s r) (h r rest refl)

    replay_loop_ends :
        (n : ℕ) (st : ReplayState V) (s : S) (bytes : Bytes)
        → length bytes < n
        → (result : Result S) × (replay_loop f codec n st s bytes ≡ some result)
    unfolding replay_loop
    replay_loop_ends zero st s bytes h = absurd (omega arith)
    replay_loop_ends (suc n) st s bytes h =
        round_ends (replay_loop f codec n) st s (read_record codec bytes) (λ r rest found st' s'.
          replay_loop_ends n st' s' rest (omega (arith, read_record_rest bytes found)))

    -- Replay ends with a result on every file, whatever its bytes.
    pub replay_total : (w : Wal) (s : S) → (result : Result S) × (replay f codec w s ≡ some result)
    unfolding replay
    replay_total w s =
        replay_loop_ends (suc (length w.file)) idle s (drop 6 w.file)
          (omega (arith, length-drop 6 w.file))
