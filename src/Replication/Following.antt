-- ===== src/Replication/Following.antt =====
-- replication.rs: what a follower and a reader of the change feed get from a log.
use cassettedb.Prelude.{
  ℕ, zero, suc, ◌+◌, ◌-◌, ◌%◌, ◌^◌, ◌≡◌, ◌≤◌, ◌<◌, refl, sym, ap, ◌∙◌, List, [], ◌∷◌, ◌++◌, length,
  drop, take, replicate, if◌then◌else◌, max, subst, leb, Option, some, String, true, false, arith,
  append_assoc, append_nil, length-append,
}
use native.Mathlib.Nat.{zero-add}
use cassettedb.Prelude.Errors.{ok}
use cassettedb.Bytes.{Bytes, drop_all, length-drop, resize}
use cassettedb.Wal.Records.{WalOp}
use cassettedb.Replication.Log.{
  ChangeRecord, ChangeCodec, ReplicationLog, change_of, reset_log, for_changes, repl_header,
  u64_mod,
}
use cassettedb.Replication.Feed.{
  push, follow, poll, followed, since, changes_since, ChangeFeed, publish, reset_feed, notify,
}
use cassettedb.Replication.Stored.{
  Numbered, Stores, handle, gathered-next_change, length-Holds, open_log-Stores,
  append_change-Stores,
}

below_leb : (m n : ℕ) → m ≤ n → leb m n ≡ true
below_leb m n h = ground arith

above_leb : (m n : ℕ) → n < m → leb m n ≡ false
above_leb m n h = ground arith

pair_eq : {A B : Type 0} {a a' : A} {b b' : B} → a ≡ a' → b ≡ b' → ◌≡◌ {A = A × B} (a, b) (a', b')
pair_eq p q = λ i. (p i, q i)

module _ (codec : ChangeCodec) where
  -- Changes that are all numbered from `start` on are all handled.
  handle-late :
      {S : Type 0} (f : S → ChangeRecord → S) (k m : ℕ) (s : S) (rs : List ChangeRecord)
      → Numbered codec (suc m) rs
      → k ≤ m
      → handle codec f (suc k) s rs ≡ handle codec f 0 s rs
  handle-late f k m s [] h l = refl
  handle-late f k m s (r ∷ rs) (first, h) l =
      ap (λ b. handle codec f (suc k) (if b then f s r else s) rs)
        (below_leb (suc k) r.sequence (omega (arith, first)))
      ∙ handle-late f k (suc m) (f s r) rs h (omega arith)
      ∙ sym (
          ap (λ b. handle codec f 0 (if b then f s r else s) rs)
            (below_leb 0 r.sequence (omega arith)))

  -- Of numbered changes, those before `start` are left out.
  handle-Numbered :
      {S : Type 0} (f : S → ChangeRecord → S) (k m j : ℕ) (s : S) (rs : List ChangeRecord)
      → Numbered codec (suc m) rs
      → k ≡ m + j
      → handle codec f (suc k) s rs ≡ handle codec f 0 s (drop j rs)
  handle-Numbered f k m zero s [] h e = refl
  handle-Numbered f k m (suc j) s [] h e = refl
  handle-Numbered f k m zero s (r ∷ rs) (first, h) e =
      ap (λ b. handle codec f (suc k) (if b then f s r else s) rs)
        (below_leb (suc k) r.sequence (omega (arith, first, e)))
      ∙ handle-late f k (suc m) (f s r) rs h (omega (arith, e))
      ∙ sym (
          ap (λ b. handle codec f 0 (if b then f s r else s) rs)
            (below_leb 0 r.sequence (omega arith)))
  handle-Numbered f k m (suc j) s (r ∷ rs) (first, h) e =
      ap (λ b. handle codec f (suc k) (if b then f s r else s) rs)
        (above_leb (suc k) r.sequence (omega (arith, first, e)))
      ∙ handle-Numbered f k (suc m) j s rs h (omega (arith, e))

  follow_all :
      (m : ℕ) (acc rs : List ChangeRecord)
      → Numbered codec (suc m) rs
      → handle codec (follow codec) 0 (m, acc) rs ≡ (m + length rs, acc ++ rs)
  follow_all m acc [] h =
      ap (λ (x : ℕ × List ChangeRecord). x) (pair_eq (omega arith) (sym (append_nil acc)))
  follow_all m acc (r ∷ rs) (first, h) =
      ap (λ b. handle codec (follow codec) 0 (if b then follow codec (m, acc) r else (m, acc)) rs)
        (below_leb 0 r.sequence (omega arith))
      ∙ ap (λ (i : ℕ). handle codec (follow codec) 0 (i, acc ++ r ∷ []) rs) first
      ∙ follow_all (suc m) (acc ++ r ∷ []) rs h
      ∙ pair_eq (omega arith) (append_assoc acc (r ∷ []) rs)

  push_all : (acc rs : List ChangeRecord) → handle codec (push codec) 0 acc rs ≡ acc ++ rs
  push_all acc [] = sym (append_nil acc)
  push_all acc (r ∷ rs) =
      ap (λ b. handle codec (push codec) 0 (if b then push codec acc r else acc) rs)
        (below_leb 0 r.sequence (omega arith))
      ∙ push_all (acc ++ r ∷ []) rs
      ∙ append_assoc acc (r ∷ []) rs

  Numbered-drop :
      (m j : ℕ) (rs : List ChangeRecord)
      → Numbered codec (suc m) rs
      → Numbered codec (suc (m + j)) (drop j rs)
  Numbered-drop m zero rs h = subst (λ i. Numbered codec (suc i) rs) (omega arith) h
  Numbered-drop m (suc j) [] h = tt
  Numbered-drop m (suc j) (r ∷ rs) (first, h) =
      subst (λ i. Numbered codec (suc i) (drop j rs)) (omega arith) (Numbered-drop (suc m) j rs h)

  -- Reading a log from a number on.
  for_changes-Stores :
      {S : Type 0} (f : S → ChangeRecord → S) (k : ℕ) (s : S) (log : ReplicationLog)
      (rs : List ChangeRecord)
      → Stores codec log rs
      → for_changes codec f (suc (length log.file)) (suc k) s (drop 6 log.file)
        ≡ some (handle codec f 0 s (drop k rs), ok tt)
  unfolding for_changes
  for_changes-Stores f k s log rs st =
      let less : length rs ≤ length log.file =
        omega (arith, length-Holds codec st.bytes rs st.holds, ap length st.file_lem) in
      let body : drop 6 log.file ≡ st.bytes = ap (drop 6) st.file_lem in
      rw (
        body,
        gathered-next_change codec f (length log.file) (suc (length st.bytes)) (suc k) s st.bytes rs
            st.holds less (omega (arith, length-Holds codec st.bytes rs st.holds)),
        handle-Numbered f k 0 k s rs st.numbered (omega arith),
      )

  -- Of a log that stores changes numbered from 1, a follower whose last sequence number is k gets
  -- all but the first k changes, in order, and its number becomes the greater of k and the number
  -- of the last change. Both numbers are below 2^64 - 1.
  pub poll-Stores :
      (log : ReplicationLog) (rs : List ChangeRecord) (k : ℕ)
      → Stores codec log rs
      → length rs + 1 < u64_mod
      → k + 1 < u64_mod
      → poll codec k log.file ≡ some (max k (length rs), ok (drop k rs))
  unfolding poll
  poll-Stores log rs k s room room' =
      let next : (k + 1) % u64_mod ≡ suc k = omega arith in
      let all : handle codec (follow codec) 0 (k, []) (drop k rs) ≡ (max k (length rs), drop k rs) =
        follow_all k [] (drop k rs) (
          subst (λ i. Numbered codec (suc i) (drop k rs)) (zero-add k)
            (Numbered-drop 0 k rs s.numbered))
        ∙ pair_eq (omega (arith, length-drop k rs)) refl in
      rw (open_log-Stores codec log rs s room, next)
        (ap (followed codec) (for_changes-Stores (follow codec) k (k, []) log rs s)
          ∙ ap (λ (x : ℕ × List ChangeRecord). some (x.0, ok x.1)) all)

  -- Reading the changes from a number on.
  pub changes_since-Stores :
      {C : Type 0} (feed : ChangeFeed C) (rs : List ChangeRecord) (k : ℕ)
      → Stores codec feed.log rs
      → changes_since codec feed (suc k) ≡ some (ok (drop k rs))
  unfolding changes_since
  changes_since-Stores feed rs k s =
      ap (since codec) (for_changes-Stores (push codec) k [] feed.log rs s)
      ∙ ap (λ (l : List ChangeRecord). some (ok l)) (push_all [] (drop k rs))

  drop_last : (rs : List ChangeRecord) (r : ChangeRecord) → drop (length rs) (rs ++ r ∷ []) ≡ r ∷ []
  drop_last [] r = refl
  drop_last (q ∷ rs) r = drop_last rs r

  -- Publishing a change whose encoding is below 2^32 bytes on a feed whose log stores fewer than
  -- 2^64 - 2 changes succeeds with the next number; a follower that had every change before gets
  -- exactly this one from its next poll, and nothing from the poll after it.
  pub publish-poll :
      {C : Type 0} (send : C → ChangeRecord → Option C) (feed : ChangeFeed C)
      (rs : List ChangeRecord) (op : WalOp) (doc_id : String) (payload : Bytes) (now : ℕ)
      (body : Bytes)
      → Stores codec feed.log rs
      → length rs + 2 < u64_mod
      → codec.to_vec (change_of codec feed.log op doc_id payload now) ≡ ok body
      → length body < 2 ^ 32
      → (feed' : ChangeFeed C) × (publish codec send feed op doc_id payload now
          ≡ ok (feed', suc (length rs)))
        × (poll codec (length rs) feed'.log.file
            ≡ some (suc (length rs), ok (change_of codec feed.log op doc_id payload now ∷ [])))
        × (poll codec (suc (length rs)) feed'.log.file ≡ some (suc (length rs), ok []))
  unfolding publish
  publish-poll {C = C} send feed rs op doc_id payload now body s room made fits =
      let r = change_of codec feed.log op doc_id payload now in
      let (log', done, s') =
        append_change-Stores codec feed.log rs op doc_id payload now body s room made fits in
      let the_feed : ChangeFeed C = record {
        log = log';
        subscribers = notify send feed.subscribers r;
      } in
      let long : length (rs ++ r ∷ []) ≡ suc (length rs) =
        omega (arith, length-append rs (r ∷ [])) in
      (
        the_feed,
        rw done (ap (λ (n : ℕ). ok (the_feed, n)) s.next),
        poll-Stores log' (rs ++ r ∷ []) (length rs) s' (omega (arith, long)) (omega arith)
            ∙ ap (λ (x : ℕ × List ChangeRecord). some (x.0, ok x.1))
                (pair_eq (omega (arith, long)) (drop_last rs r)),
        poll-Stores log' (rs ++ r ∷ []) (suc (length rs)) s' (omega (arith, long)) (omega arith)
            ∙ ap (λ (x : ℕ × List ChangeRecord). some (x.0, ok x.1))
                (pair_eq (omega (arith, long))
                  (drop_all (suc (length rs)) _ (omega (arith, long)))),
      )

  resize_header : (bytes : Bytes) → resize 6 (repl_header codec ++ bytes) ≡ repl_header codec
  unfolding resize
  resize_header [] = refl
  resize_header (b ∷ bytes) =
      let file = repl_header codec ++ b ∷ bytes in
      ap (λ c. if c then file ++ replicate (6 - length file) 0 else take 6 file)
        (above_leb (length file) 6 (omega arith))

  -- A reset feed holds no change, and numbers the next one 1.
  pub reset_feed-Stores :
      {C : Type 0} (feed : ChangeFeed C) (rs : List ChangeRecord)
      → Stores codec feed.log rs
      → Stores codec (reset_feed codec feed).log []
  unfolding reset_feed reset_log
  reset_feed-Stores feed rs s = record {
    bytes = [];
    file_lem = ap (resize 6) s.file_lem ∙ resize_header s.bytes;
    holds = refl;
    numbered = tt;
    next = refl;
  }
