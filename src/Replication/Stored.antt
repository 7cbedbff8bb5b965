-- ===== src/Replication/Stored.antt =====
-- replication.rs: the log as the list of its changes, numbered from 1.
use cassettedb.Prelude.{
  ℕ, zero, suc, ◌+◌, ◌%◌, ◌^◌, ◌≡◌, ◌≤◌, ◌<◌, refl, sym, ap, ◌∙◌, List, [], ◌∷◌, ◌++◌, length,
  if◌then◌else◌, max, leb, Option, none, some, String, Bool, true, false, arith, append_assoc,
  append_nil, length-append,
}
use cassettedb.Prelude.Errors.{Result, ok}
use cassettedb.Bytes.{Bytes, read_exact, read_exact-append}
use cassettedb.Bytes.Little.{put_u32}
use cassettedb.Wal.Records.{WalOp}
use cassettedb.Replication.Log.{
  ChangeRecord, ChangeCodec, ReplicationLog, Change, item, read_frame, frame, from_le_bytes, scan,
  compute_next_sequence, check_header, open_log, change_of, append_change, repl_magic, next_change,
  for_changes, gathered, repl_header, u64_mod,
}

read_frame-append :
    (bytes rest : Bytes)
    → length bytes < 2 ^ 32
    → read_frame (frame bytes ++ rest) ≡ ok (some (bytes, rest))
unfolding read_frame frame
read_frame-append bytes rest h =
    let len = put_u32 (length bytes % 2 ^ 32) in
    let value : from_le_bytes len ≡ length bytes = omega arith in
    rw (
      append_assoc len bytes rest,
      read_exact-append len (bytes ++ rest),
      value,
      read_exact-append bytes rest,
    )

read_frame_nil : read_frame [] ≡ ok none
unfolding read_frame read_exact
read_frame_nil = refl

length-frame : (bytes : Bytes) → length (frame bytes) ≡ 4 + length bytes
unfolding frame
length-frame bytes = omega (arith, length-append (put_u32 (length bytes % 2 ^ 32)) bytes)

module _ (codec : ChangeCodec) where
  -- The bytes are the frames of the changes.
  abbrev pub Holds : Bytes → List ChangeRecord → Type 0
  Holds bytes [] = bytes ≡ []
  Holds bytes (r ∷ rs) =
      (body : Bytes) × (rest : Bytes) × (codec.to_vec r ≡ ok body)
      × (length body < 2 ^ 32)
      × (bytes ≡ frame body ++ rest)
      × Holds rest rs

  -- The changes are numbered one after the other, the first with `n`.
  abbrev pub Numbered : ℕ → List ChangeRecord → Type 0
  Numbered n [] = Unit
  Numbered n (r ∷ rs) = (r.sequence ≡ n) × Numbered (suc n) rs

  -- The log holds these changes, and its next sequence number is the one after them.
  pub record Stores (log : ReplicationLog) (rs : List ChangeRecord) : Type 0 where
    pub bytes : Bytes
    pub file_lem : log.file ≡ repl_header codec ++ bytes
    pub holds : Holds bytes rs
    pub numbered : Numbered 1 rs
    pub next : log.next_sequence ≡ suc (length rs)

  Holds-append :
      (bytes : Bytes) (rs : List ChangeRecord) (r : ChangeRecord) (body : Bytes)
      → Holds bytes rs
      → codec.to_vec r ≡ ok body
      → length body < 2 ^ 32
      → Holds (bytes ++ frame body) (rs ++ r ∷ [])
  Holds-append bytes [] r body h made fits =
      (body, [], made, fits, ap (λ b. b ++ frame body) h ∙ sym (append_nil (frame body)), refl)
  Holds-append bytes (q ∷ rs) r body (body', rest, made', fits', same, h) made fits = (
    body',
    rest ++ frame body,
    made',
    fits',
    ap (λ b. b ++ frame body) same ∙ append_assoc (frame body') rest (frame body),
    Holds-append rest rs r body h made fits,
  )

  Numbered-append :
      (n : ℕ) (rs : List ChangeRecord) (r : ChangeRecord)
      → Numbered n rs
      → r.sequence ≡ n + length rs
      → Numbered n (rs ++ r ∷ [])
  Numbered-append n [] r h e = (omega (arith, e), tt)
  Numbered-append n (q ∷ rs) r (first, h) e =
      (first, Numbered-append (suc n) rs r h (omega (arith, e)))

  -- An append stores one more change.
  pub append_change-Stores :
      (log : ReplicationLog) (rs : List ChangeRecord) (op : WalOp) (doc_id : String)
      (payload : Bytes) (now : ℕ) (body : Bytes)
      → Stores log rs
      → length rs + 2 < u64_mod
      → codec.to_vec (change_of codec log op doc_id payload now) ≡ ok body
      → length body < 2 ^ 32
      → (log' : ReplicationLog) × (append_change codec log op doc_id payload now
          ≡ ok (log', log.next_sequence))
        × Stores log' (rs ++ change_of codec log op doc_id payload now ∷ [])
  unfolding append_change
  append_change-Stores log rs op doc_id payload now body s room made fits = (
    record { file = log.file ++ frame body; next_sequence = (log.next_sequence + 1) % u64_mod },
    rw made,
    record {
      bytes = s.bytes ++ frame body;
      file_lem =
          ap (λ b. b ++ frame body) s.file_lem
          ∙ append_assoc (repl_header codec) s.bytes (frame body);
      holds = Holds-append s.bytes rs _ body s.holds made fits;
      numbered = Numbered-append 1 rs _ s.numbered (omega (arith, s.next));
      next =
          omega (arith, s.next, length-append rs (change_of codec log op doc_id payload now ∷ []));
    },
  )

  -- The scan ends with the number of the last change.
  scan-Holds :
      (n m : ℕ) (bytes : Bytes) (rs : List ChangeRecord)
      → Holds bytes rs
      → Numbered (suc m) rs
      → length rs < n
      → scan codec n m bytes ≡ some (ok (m + length rs))
  unfolding scan
  scan-Holds zero m bytes rs h k l = absurd (omega arith)
  scan-Holds (suc n) m bytes [] h k l =
      rw (h, read_frame_nil) (ap (λ (i : ℕ). some (ok i)) (omega arith))
  scan-Holds (suc n) m bytes (r ∷ rs) (body, rest, made, fits, same, h) (first, k) l =
      let last : max m r.sequence ≡ suc m = omega (arith, first) in
      rw
        (
          same,
          read_frame-append body rest fits,
          codec.from_slice-to_vec r made,
          last,
          scan-Holds n (suc m) rest rs h k (omega arith),
        )
        (ap (λ (i : ℕ). some (ok i)) (omega arith))

  pub length-Holds :
      (bytes : Bytes) (rs : List ChangeRecord) → Holds bytes rs → length rs ≤ length bytes
  length-Holds bytes [] h = omega arith
  length-Holds bytes (r ∷ rs) (body, rest, made, fits, same, h) = omega (
    arith,
    ap length same,
    length-append (frame body) rest,
    length-frame body,
    length-Holds rest rs h,
  )

  check_header_lem : (bytes : Bytes) → check_header codec (repl_header codec ++ bytes) ≡ ok tt
  unfolding check_header
  check_header_lem bytes =
      rw (read_exact-append repl_magic (1 ∷ 0 ∷ bytes), read_exact-append (1 ∷ 0 ∷ []) bytes)

  abbrev made_of : Bytes → ℕ → ReplicationLog
  made_of file n = record { file = file; next_sequence = n }

  log_eq :
      (log : ReplicationLog) (file : Bytes) (n : ℕ)
      → log.file ≡ file
      → log.next_sequence ≡ n
      → ◌≡◌ {A = ReplicationLog} (record { file = file; next_sequence = n }) log
  log_eq log file n same same' =
      ap (λ (g : Bytes). made_of g n) (sym same) ∙ ap (λ (i : ℕ). made_of log.file i) (sym same')

  -- Opening the file of a log gives the log back.
  pub open_log-Stores :
      (log : ReplicationLog) (rs : List ChangeRecord)
      → Stores log rs
      → length rs + 1 < u64_mod
      → open_log codec log.file ≡ some (ok log)
  unfolding open_log compute_next_sequence
  open_log-Stores log rs s room =
      let enough : length rs < suc (length (repl_header codec ++ s.bytes)) =
        omega (arith, length-Holds s.bytes rs s.holds) in
      ap (open_log codec) s.file_lem
      ∙ rw
          (
            check_header_lem s.bytes,
            scan-Holds (suc (length (repl_header codec ++ s.bytes))) 0 s.bytes rs s.holds s.numbered
                enough,
          )
          (ap (λ (l : ReplicationLog). some (ok l))
            (log_eq log (repl_header codec ++ s.bytes) ((0 + length rs + 1) % u64_mod) s.file_lem
              (s.next ∙ omega arith)))

  -- The changes handled one after the other, those before `start` left out.
  abbrev pub handle : {S : Type 0} → (S → ChangeRecord → S) → ℕ → S → List ChangeRecord → S
  handle f start s [] = s
  handle f start s (r ∷ rs) = handle f start (if leb start r.sequence then f s r else s) rs

  gathered_if :
      {S : Type 0} (f : S → ChangeRecord → S) (b : Bool)
      (again : S → Bytes → Option (S × Result (Unit {0}))) (s : S) (r : ChangeRecord) (rest : Bytes)
      (skip : Option Change) (g : S → S)
      → again (f s r) rest ≡ some (g (f s r), ok tt)
      → gathered codec f again s skip ≡ some (g s, ok tt)
      → gathered codec f again s (if b then some (item r rest) else skip)
        ≡ some (g (if b then f s r else s), ok tt)
  gathered_if f true again s r rest skip g h h' = h
  gathered_if f false again s r rest skip g h h' = h'

  pub gathered-next_change :
      {S : Type 0} (f : S → ChangeRecord → S) (n m start : ℕ) (s : S) (bytes : Bytes)
      (rs : List ChangeRecord)
      → Holds bytes rs
      → length rs ≤ n
      → length rs < m
      → gathered codec f (for_changes codec f n start) s (next_change codec m start bytes)
        ≡ some (handle f start s rs, ok tt)
  unfolding next_change for_changes
  gathered-next_change f n zero start s bytes rs h l l' = absurd (omega arith)
  gathered-next_change f n (suc m) start s bytes [] h l l' = rw (h, read_frame_nil)
  gathered-next_change f zero (suc m) start s bytes (r ∷ rs) h l l' = absurd (omega arith)
  gathered-next_change f (suc n) (suc m) start s bytes (r ∷ rs) (body, rest, made, fits, same, h) l
        l' =
      rw (same, read_frame-append body rest fits, codec.from_slice-to_vec r made)
        (gathered_if f (leb start r.sequence) (for_changes codec f (suc n) start) s r rest
          (next_change codec m start rest) (λ s'. handle f start s' rs)
          (gathered-next_change f n (suc (length rest)) start (f s r) rest rs h (omega arith)
            (omega (arith, length-Holds rest rs h)))
          (gathered-next_change f (suc n) m start s rest rs h (omega arith) (omega arith)))
