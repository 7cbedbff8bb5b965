-- ===== src/Wal/Marking.antt =====
-- wal.rs: records that are appended and marked as committed are those that the iterator yields.
use cassettedb.Prelude.{
  ℕ, zero, suc, ◌≤◌, ◌<◌, ◌≡◌, refl, sym, ap, ◌∙◌, List, [], ◌∷◌, ◌++◌, length, drop, arith, Option,
  none, some, String, append_assoc, append_nil, length-append, drop-append_length, subst, ◌≢◌,
}
use cassettedb.Prelude.Errors.{Result, ok, err, ◌>>=◌}
use cassettedb.Bytes.{Bytes}
use cassettedb.Wal.Records.{
  WalOp, insert_op, update_op, delete_op, tx_entry_op, WalRecord, Codec, Wal, encode_raw, tail_of,
  encode_raw-tail_of, read_fields-tail_of, length-tail_of,
}
use cassettedb.Wal.Replay.{read_record}
use cassettedb.Wal.Committed.{
  visit, yielded, next, for_committed, looped, iter_committed, finished, item,
}
use cassettedb.Wal.Logging.{marked, Loggable, raw-Fits}

module _ {V : Type 0} (codec : Codec V) where
  -- The file after the header holds marked records of these operations.
  abbrev pub Marked : Bytes → List WalRecord → Type 0
  Marked bytes [] = bytes ≡ []
  Marked bytes (r ∷ rs) =
      (rest : Bytes) × Loggable codec r.doc_id r.payload
      × (r.op ≢ tx_entry_op)
      × (bytes ≡ encode_raw codec (marked codec r.op r.doc_id r.payload) ++ rest)
      × Marked rest rs

  pub Marked-append :
      (bytes : Bytes) (rs : List WalRecord) (r : WalRecord)
      → Marked bytes rs
      → Loggable codec r.doc_id r.payload
      → r.op ≢ tx_entry_op
      → Marked (bytes ++ encode_raw codec (marked codec r.op r.doc_id r.payload)) (rs ++ r ∷ [])
  Marked-append bytes [] r h fits op = (
    [],
    fits,
    op,
    ap (λ b. b ++ encode_raw codec (marked codec r.op r.doc_id r.payload)) h ∙ sym (append_nil _),
    refl,
  )
  Marked-append bytes (q ∷ rs) r (rest, fits', op', same, h) fits op = (
    rest ++ encode_raw codec (marked codec r.op r.doc_id r.payload),
    fits',
    op',
    ap (λ b. b ++ encode_raw codec (marked codec r.op r.doc_id r.payload)) same
        ∙ append_assoc (encode_raw codec (marked codec q.op q.doc_id q.payload)) rest _,
    Marked-append rest rs r h fits op,
  )

  visit_op :
      (op : WalOp) (doc_id : String) (payload : Bytes)
      → op ≢ tx_entry_op
      → visit codec (marked codec op doc_id payload)
        ≡ yielded (record { op = op; doc_id = doc_id; payload = payload })
  unfolding visit
  visit_op insert_op doc_id payload h = rw (codec.from_utf8_lossy-as_bytes doc_id)
  visit_op update_op doc_id payload h = rw (codec.from_utf8_lossy-as_bytes doc_id)
  visit_op delete_op doc_id payload h = rw (codec.from_utf8_lossy-as_bytes doc_id)
  visit_op tx_entry_op doc_id payload h = absurd (h refl)

  visit-marked :
      (r : WalRecord)
      → r.op ≢ tx_entry_op
      → visit codec (marked codec r.op r.doc_id r.payload) ≡ yielded r
  visit-marked r h = visit_op r.op r.doc_id r.payload h

  read_marked :
      (op : WalOp) (doc_id : String) (payload rest : Bytes)
      → Loggable codec doc_id payload
      → read_record codec (encode_raw codec (marked codec op doc_id payload) ++ rest)
        ≡ ok (some (marked codec op doc_id payload, rest))
  unfolding read_record
  read_marked op doc_id payload rest h =
      let r = marked codec op doc_id payload in
      let fits = raw-Fits codec op doc_id payload 1 (omega arith) h in
      rw (
        encode_raw-tail_of codec r rest fits,
        codec.order.read_u8_cons r.op (tail_of codec r rest),
        read_fields-tail_of codec r rest fits,
      )

  read_nothing : read_record codec [] ≡ ok none
  unfolding read_record
  read_nothing = rw codec.order.read_u8_nil

  -- The next committed record is the first that the bytes hold.
  next_marked :
      (n : ℕ) (bytes rest : Bytes) (r : WalRecord)
      → Loggable codec r.doc_id r.payload
      → r.op ≢ tx_entry_op
      → bytes ≡ encode_raw codec (marked codec r.op r.doc_id r.payload) ++ rest
      → next codec (suc n) bytes ≡ some (item r rest)
  unfolding next
  next_marked n bytes rest r fits op same =
      rw (same, read_marked r.op r.doc_id r.payload rest fits, visit-marked r op)

  next_end : (n : ℕ) → next codec (suc n) [] ≡ some finished
  unfolding next
  next_end n = rw read_nothing

  module _ {S : Type 0} (f : S → WalRecord → Result S) where
    -- The records handled one after the other.
    abbrev pub handle_all : S → List WalRecord → Result S
    handle_all s [] = ok s
    handle_all s (r ∷ rs) = f s r >>= λ s'. handle_all s' rs

    looped_on :
        (done : Result S) (again : S → Bytes → Option (Result S)) (run : S → Result S)
        (rest : Bytes)
        → ((s' : S) → again s' rest ≡ some (run s'))
        → ◌≡◌ {A = Option (Result S)}
            (elim done [ err e ↦ some (err e) | ok s' ↦ again s' rest ])
            (some (done >>= run))
    looped_on (err e) again run rest h = refl
    looped_on (ok s) again run rest h = h s

    pub loop_step :
        (again : S → Bytes → Option (Result S)) (run : S → Result S) (s : S) (r : WalRecord)
        (rest : Bytes)
        → ((s' : S) → again s' rest ≡ some (run s'))
        → looped codec f again s (some (item r rest)) ≡ some (f s r >>= run)
    loop_step again run s r rest h = looped_on (f s r) again run rest h

    -- The loop over the committed records handles those that the bytes hold.
    pub for_committed-Marked :
        (n : ℕ) (s : S) (bytes : Bytes) (rs : List WalRecord)
        → Marked bytes rs
        → length rs < n
        → for_committed codec f n s bytes ≡ some (handle_all s rs)
    unfolding for_committed
    for_committed-Marked zero s bytes rs h k = absurd (omega arith)
    for_committed-Marked (suc n) s bytes [] h k = rw (h, next_end 0)
    for_committed-Marked (suc n) s bytes (r ∷ rs) (rest, fits, op, same, h) k =
        rw (next_marked (length bytes) bytes rest r fits op same) (
          loop_step (for_committed codec f n) (λ s'. handle_all s' rs) s r rest
            (λ s'. for_committed-Marked n s' rest rs h (omega arith)))

    length-Marked :
        (bytes : Bytes) (rs : List WalRecord) → Marked bytes rs → length rs ≤ length bytes
    length-Marked bytes [] h = omega arith
    length-Marked bytes (r ∷ rs) (rest, fits, op, same, h) =
        let raw = marked codec r.op r.doc_id r.payload in
        let bytes_of =
          same
          ∙ encode_raw-tail_of codec raw rest
              (raw-Fits codec r.op r.doc_id r.payload 1 (omega arith) fits) in
        omega (
          arith,
          length-Marked rest rs h,
          ap {B = ℕ} length bytes_of,
          length-tail_of codec raw rest,
        )

    -- Where the log after its header of 6 bytes holds encoded operations that are marked as
    -- committed, the loop over iter_committed ends, and handles exactly these operations in their
    -- order.
    pub iter_committed-Marked :
        (w : Wal) (s : S) (header bytes : Bytes) (rs : List WalRecord)
        → length header ≡ 6
        → w.file ≡ header ++ bytes
        → Marked bytes rs
        → iter_committed codec f w s ≡ some (handle_all s rs)
    unfolding iter_committed
    iter_committed-Marked w s header bytes rs six same h =
        let behind : drop 6 w.file ≡ bytes =
          ap (drop 6) same
          ∙ subst (λ n. drop n (header ++ bytes) ≡ bytes) six (drop-append_length header bytes) in
        let enough : length rs < suc (length w.file) =
          omega
            (arith, length-Marked bytes rs h, ap {B = ℕ} length same, length-append header bytes) in
        for_committed-Marked (suc (length w.file)) s (drop 6 w.file) rs
          (subst (λ b. Marked b rs) (sym behind) h) enough
