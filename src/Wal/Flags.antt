-- ===== src/Wal/Flags.antt =====
-- wal.rs: the iterator over a log whose records are in part committed.
use cassettedb.Prelude.{
  ℕ, zero, suc, ◌≤◌, ◌<◌, ◌≡◌, refl, sym, ap, ◌∙◌, List, [], ◌∷◌, ◌++◌, length, drop, arith, Option,
  none, some, String, length-append, drop-append_length, subst, Bool, true, false, if◌then◌else◌,
}
use cassettedb.Prelude.Errors.{Result, ok}
use cassettedb.Bytes.{Bytes}
use cassettedb.Wal.Records.{
  WalOp, insert_op, update_op, delete_op, tx_entry_op, WalRecord, Codec, Wal, RawRecord, raw_of,
  encode_raw, tail_of, encode_raw-tail_of, read_fields-tail_of, length-tail_of,
}
use cassettedb.Wal.Replay.{read_record}
use cassettedb.Wal.Committed.{
  Visit, skipped, yielded, visit, Next, next, for_committed, iter_committed, finished, item,
  after_visit,
}
use cassettedb.Wal.Logging.{Loggable, raw-Fits}
use cassettedb.Wal.Marking.{handle_all, loop_step}

-- A record and whether it was marked as committed.
pub record Entry : Type 0 where
  pub of : WalRecord
  pub committed : Bool

abbrev pub is_tx_entry : WalOp → Bool
is_tx_entry tx_entry_op = true
is_tx_entry _ = false

-- The operations that are marked, in their order; the records of transactions are not among them.
abbrev pub committed_of : List Entry → List WalRecord
committed_of [] = []
committed_of (e ∷ es) =
    let rest = committed_of es in
    if e.committed then (if is_tx_entry e.of.op then rest else e.of ∷ rest) else rest

abbrev pub flag : Bool → ℕ
flag true = 1
flag false = 0

module _ {V : Type 0} (codec : Codec V) where
  abbrev pub raw_entry : Entry → RawRecord
  raw_entry e = record (raw_of codec e.of.op e.of.doc_id e.of.payload) {
    commit_flag = flag e.committed;
  }

  -- The file after the header holds the records of these entries.
  abbrev pub Written : Bytes → List Entry → Type 0
  Written bytes [] = bytes ≡ []
  Written bytes (e ∷ es) =
      (rest : Bytes) × Loggable codec e.of.doc_id e.of.payload
      × (bytes ≡ encode_raw codec (raw_entry e) ++ rest)
      × Written rest es

  abbrev visit_entry : Entry → Visit
  visit_entry e =
      if e.committed then (if is_tx_entry e.of.op then skipped else yielded e.of) else skipped

  visit-raw_entry :
      (op : WalOp) (doc_id : String) (payload : Bytes) (committed : Bool)
      → visit codec (
          raw_entry (record {
            of = record { op = op; doc_id = doc_id; payload = payload };
            committed = committed;
          }))
        ≡ visit_entry (record {
          of = record { op = op; doc_id = doc_id; payload = payload };
          committed = committed;
        })
  unfolding visit
  visit-raw_entry op doc_id payload false = refl
  visit-raw_entry insert_op doc_id payload true = rw (codec.from_utf8_lossy-as_bytes doc_id)
  visit-raw_entry update_op doc_id payload true = rw (codec.from_utf8_lossy-as_bytes doc_id)
  visit-raw_entry delete_op doc_id payload true = rw (codec.from_utf8_lossy-as_bytes doc_id)
  visit-raw_entry tx_entry_op doc_id payload true = refl

  flag_lt : (b : Bool) → flag b < 256
  flag_lt true = omega arith
  flag_lt false = omega arith

  read_entry :
      (e : Entry) (rest : Bytes)
      → Loggable codec e.of.doc_id e.of.payload
      → read_record codec (encode_raw codec (raw_entry e) ++ rest) ≡ ok (some (raw_entry e, rest))
  unfolding read_record
  read_entry e rest h =
      let r = raw_entry e in
      let fits =
        raw-Fits codec e.of.op e.of.doc_id e.of.payload (flag e.committed) (flag_lt e.committed)
          h in
      rw (
        encode_raw-tail_of codec r rest fits,
        codec.order.read_u8_cons r.op (tail_of codec r rest),
        read_fields-tail_of codec r rest fits,
      )

  read_nothing : read_record codec [] ≡ ok none
  unfolding read_record
  read_nothing = rw codec.order.read_u8_nil

  -- What a call of `next` comes to: the first of the operations, and a file that holds the others.
  abbrev NextOf : List WalRecord → ℕ → Next → Type 0
  NextOf [] n next = next ≡ finished
  NextOf (r ∷ rs) n next =
      (rest : Bytes) × (es : List Entry) × (next ≡ item r rest)
      × Written rest es
      × (committed_of es ≡ rs)
      × (length es < n)

  next_read :
      (n : ℕ) (e : Entry) (bytes rest : Bytes)
      → Loggable codec e.of.doc_id e.of.payload
      → bytes ≡ encode_raw codec (raw_entry e) ++ rest
      → next codec (suc n) bytes ≡ after_visit codec (next codec n) rest (visit_entry e)
  unfolding next
  next_read n e bytes rest fits same =
      rw (same, read_entry e rest fits)
        (ap (after_visit codec (next codec n) rest)
          (visit-raw_entry e.of.op e.of.doc_id e.of.payload e.committed))

  NextOf-weaken :
      (rs : List WalRecord) (n : ℕ) (out : Next) → NextOf rs n out → NextOf rs (suc n) out
  NextOf-weaken [] n out h = h
  NextOf-weaken (r ∷ rs) n out (rest, es, same, written, of, bound) =
      (rest, es, same, written, of, omega arith)

  abbrev Found : Option Next → List WalRecord → ℕ → Type 0
  Found o rs n = (out : Next) × (o ≡ some out) × NextOf rs n out

  -- One entry: it is passed over, or it is the next operation.
  visited-Found :
      (is_committed is_tx : Bool) (r : WalRecord) (again : Bytes → Option Next) (rest : Bytes)
      (es : List Entry)
      → Written rest es
      → Found (again rest) (committed_of es) (length es)
      → Found
          (after_visit codec again rest
            (if is_committed then (if is_tx then skipped else yielded r) else skipped))
          (if is_committed
            then (if is_tx then committed_of es else r ∷ committed_of es)
            else committed_of es)
          (suc (length es))
  visited-Found false is_tx r again rest es written (out, same, h) =
      (out, same, NextOf-weaken (committed_of es) (length es) out h)
  visited-Found true true r again rest es written (out, same, h) =
      (out, same, NextOf-weaken (committed_of es) (length es) out h)
  visited-Found true false r again rest es written h =
      (item r rest, refl, (rest, es, refl, written, refl, omega arith))

  next_end : (n : ℕ) → next codec (suc n) [] ≡ some finished
  unfolding next
  next_end n = rw read_nothing

  next-Written :
      (n : ℕ) (bytes : Bytes) (es : List Entry)
      → Written bytes es
      → length es < n
      → Found (next codec n bytes) (committed_of es) (length es)
  next-Written zero bytes es h k = absurd (omega arith)
  next-Written (suc n) bytes [] h k = (finished, ap (next codec (suc n)) h ∙ next_end n, refl)
  next-Written (suc n) bytes (e ∷ es) (rest, fits, same, h) k =
      let (out, found, is) =
        visited-Found e.committed (is_tx_entry e.of.op) e.of (next codec n) rest es h
          (next-Written n rest es h (omega arith)) in
      (out, next_read n e bytes rest fits same ∙ found, is)

  length-Written : (bytes : Bytes) (es : List Entry) → Written bytes es → length es ≤ length bytes
  length-Written bytes [] h = omega arith
  length-Written bytes (e ∷ es) (rest, fits, same, h) =
      let raw = raw_entry e in
      let bytes_of =
        same
        ∙ encode_raw-tail_of codec raw rest (
            raw-Fits codec e.of.op e.of.doc_id e.of.payload (flag e.committed) (flag_lt e.committed)
              fits) in
      omega
        (arith, length-Written rest es h, ap {B = ℕ} length bytes_of, length-tail_of codec raw rest)

  module _ {S : Type 0} (f : S → WalRecord → Result S) where
    abbrev Handles : List WalRecord → ℕ → Type 0
    Handles rs n =
        (s : S) (bytes : Bytes) (es : List Entry)
        → Written bytes es
        → length es < n
        → committed_of es ≡ rs
        → for_committed codec f n s bytes ≡ some (handle_all codec f s rs)

    for_committed-Written : (n : ℕ) (rs : List WalRecord) → Handles rs n
    unfolding for_committed
    for_committed-Written zero rs s bytes es h k of = absurd (omega arith)
    for_committed-Written (suc n) [] s bytes es h k of =
        let (out, found, is) =
          next-Written (suc (length bytes)) bytes es h (omega (arith, length-Written bytes es h)) in
        let ends = subst (λ rs. NextOf rs (length es) out) of is in rw (found, ends)
    for_committed-Written (suc n) (r ∷ rs) s bytes es h k of =
        let (out, found, is) =
          next-Written (suc (length bytes)) bytes es h (omega (arith, length-Written bytes es h)) in
        let (rest, later, ends, written, these, bound) =
          subst (λ rs. NextOf rs (length es) out) of is in
        rw (found, ends)
          (loop_step codec f (for_committed codec f n) (λ s'. handle_all codec f s' rs) s r rest
            (λ s'.
              for_committed-Written n rs s' rest later written (omega (arith, bound, k)) these))

    -- Where the log after its header of 6 bytes holds encoded records, each marked as committed or
    -- not, the loop over iter_committed ends, and handles exactly the operations of the marked
    -- records in their order, but for those of transactions; the other records are passed over.
    pub iter_committed-Written :
        (w : Wal) (s : S) (header bytes : Bytes) (es : List Entry)
        → length header ≡ 6
        → w.file ≡ header ++ bytes
        → Written bytes es
        → iter_committed codec f w s ≡ some (handle_all codec f s (committed_of es))
    unfolding iter_committed
    iter_committed-Written w s header bytes es six same h =
        let behind : drop 6 w.file ≡ bytes =
          ap (drop 6) same
          ∙ subst (λ n. drop n (header ++ bytes) ≡ bytes) six (drop-append_length header bytes) in
        let enough : length es < suc (length w.file) =
          omega (
            arith,
            length-Written bytes es h,
            ap {B = ℕ} length same,
            length-append header bytes,
          ) in
        for_committed-Written (suc (length w.file)) (committed_of es) s (drop 6 w.file) es
          (subst (λ b. Written b es) (sym behind) h) enough refl
