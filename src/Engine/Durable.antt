-- ===== src/Engine/Durable.antt =====
-- engine.rs: what the log recovers after the operations.
use cassettedb.Prelude.{
  ℕ, ◌≡◌, ◌≢◌, refl, sym, ap, ◌∙◌, List, [], ◌∷◌, ◌++◌, Option, none, some, String, str_eq, eq_iff,
  Bool-cases, inl, inr, append_assoc,
}
use cassettedb.Prelude.Map
use cassettedb.Prelude.Map.{Map, get-insert, get-remove}
use cassettedb.Prelude.Errors.{Result, ok, err, ◌>>=◌, >>=-assoc}
use cassettedb.Bytes.{Bytes}
use cassettedb.Index.Inverted.{InvertedIndex, index_document}
use cassettedb.Replication.Feed.{ChangeFeed, publish}
use cassettedb.Storage.Durability.{Sound}
use cassettedb.Wal.Records.{
  Wal, WalOp, WalRecord, insert_op, update_op, delete_op, tx_entry_op, append_record, encode_raw,
  wal_magic,
}
use cassettedb.Wal.Committed.{log_record}
use cassettedb.Wal.Logging.{Loggable, log_record_file, marked}
use cassettedb.Wal.Marking.{Marked, Marked-append, handle_all}
use cassettedb.Engine.Operations.{
  Doc, Services, Engine, Recovered, recover, sent, committed, write_log, published, reindexed,
}
use cassettedb.Engine.Opening.{empty}

bind_ok : {A : Type 0} (r : Result A) → (r >>= λ a. ok a) ≡ r
bind_ok (err e) = refl
bind_ok (ok a) = refl

pub insert_no_entry : insert_op ≢ tx_entry_op
insert_no_entry h = cc h

pub update_no_entry : update_op ≢ tx_entry_op
update_no_entry h = cc h

pub delete_no_entry : delete_op ≢ tx_entry_op
delete_no_entry h = cc h

some_injective : {a b : Doc} → some a ≡ some b → a ≡ b
some_injective h = cc h

module _ {V C : Type 0} (svc : Services V C) where
  abbrev pub wal_header : Bytes
  wal_header = wal_magic ++ svc.codec.order.write_u16 1

  -- The log after its header holds marked records, from which `open` recovers `s`.
  pub record Logs (w : Wal) (s : Recovered) : Type 0 where
    pub bytes : Bytes
    pub records : List WalRecord
    pub file_lem : w.file ≡ wal_header ++ bytes
    pub holds : Marked svc.codec bytes records
    pub recovered : handle_all svc.codec (recover svc) empty records ≡ ok s

  handle_all-append :
      (s : Recovered) (rs : List WalRecord) (r : WalRecord)
      → handle_all svc.codec (recover svc) s (rs ++ r ∷ [])
        ≡ (handle_all svc.codec (recover svc) s rs >>= λ s'. recover svc s' r)
  handle_all-append s [] r = bind_ok (recover svc s r)
  handle_all-append s (q ∷ rs) r =
      (λ i. recover svc s q >>= λ s'. handle_all-append s' rs r i)
      ∙ sym (
          >>=-assoc (recover svc s q) (λ s'. handle_all svc.codec (recover svc) s' rs)
            (λ s'. recover svc s' r))

  -- The log with one more marked record.
  abbrev pub logged : Wal → WalOp → String → Bytes → Wal
  logged w op id payload = record w {
    file = w.file ++ encode_raw svc.codec (marked svc.codec op id payload);
  }

  pub write_log-Loggable :
      (w : Wal) (op : WalOp) (id : String) (payload : Bytes)
      → Loggable svc.codec id payload
      → write_log svc w op id payload ≡ (logged w op id payload, ok tt)
  unfolding write_log log_record
  write_log-Loggable w op id payload h =
      ap (committed svc (append_record svc.codec w op id payload).0)
        (log_record_file svc.codec w op id payload h)

  pub Logs-logged :
      (w : Wal) (s s' : Recovered) (op : WalOp) (id : String) (payload : Bytes)
      → Logs w s
      → Loggable svc.codec id payload
      → op ≢ tx_entry_op
      → recover svc s (record { op = op; doc_id = id; payload = payload }) ≡ ok s'
      → Logs (logged w op id payload) s'
  Logs-logged w s s' op id payload l h h' step = record {
    bytes = l.bytes ++ encode_raw svc.codec (marked svc.codec op id payload);
    records = l.records ++ record { op = op; doc_id = id; payload = payload } ∷ [];
    file_lem =
        ap (λ (b : Bytes). b ++ encode_raw svc.codec (marked svc.codec op id payload)) l.file_lem
        ∙ append_assoc wal_header l.bytes _;
    holds = Marked-append svc.codec l.bytes l.records _ l.holds h h';
    recovered =
        handle_all-append empty l.records _
        ∙ ap (λ o. o >>= λ t. recover svc t (record { op = op; doc_id = id; payload = payload }))
            l.recovered
        ∙ step;
  }

  -- A document stands under its own identifier.
  abbrev pub Keyed : Map Doc → Type 0
  Keyed docs = (id : String) (doc : Doc) → Map.get docs id ≡ some doc → doc.id ≡ id

  -- The log recovers the documents of the engine, and `ix` is the index that it builds from them;
  -- the storage is the one in its file, and `compact` has not allocated a page.
  pub record Durable (e : Engine C) (ix : InvertedIndex) : Type 0 where
    pub logs : Logs e.wal (e.docs, ix)
    pub keyed : Keyed e.docs
    pub stored : Sound svc.codec.order e.storage
    pub one_page : e.storage.header.num_pages ≡ 1

  -- The log recovers the documents of the engine, and under the condition its index.
  abbrev pub Kept : Engine C → Type 0 → Type 0
  Kept e Condition = (ix : InvertedIndex) × Durable e ix × (Condition → ix ≡ e.index)

  sent-Kept :
      {A P : Type 0} (e : Engine C) (a : A) (r : Result (ChangeFeed C × ℕ))
      → Kept e P
      → Kept (sent svc e a r).0 P
  sent-Kept e a (err reason) k = k
  sent-Kept e a (ok (feed, seq)) (ix, d, same) = (
    ix,
    record { logs = d.logs; keyed = d.keyed; stored = d.stored; one_page = d.one_page },
    same,
  )

  -- Publishing a change leaves the rest of the engine.
  pub published-Kept :
      {A P : Type 0} (e : Engine C) (op : WalOp) (id : String) (payload : Bytes) (now : ℕ) (a : A)
      (feed : Option (ChangeFeed C))
      → Kept e P
      → Kept (published svc e op id payload now a feed).0 P
  published-Kept e op id payload now a none k = k
  published-Kept e op id payload now a (some feed) k =
      sent-Kept e a (publish svc.changes svc.send feed op id payload now) k

  pub insert-Keyed : (docs : Map Doc) (doc : Doc) → Keyed docs → Keyed (Map.insert docs doc.id doc)
  insert-Keyed docs doc k id d h = elim (Bool-cases (str_eq doc.id id)) [
    | inl same ↦
        (let now : some doc ≡ some d = rw (get-insert docs doc.id id doc, same) at h in
          ap (λ (x : Doc). x.id) (sym (some_injective now)) ∙ (eq_iff doc.id id).0 same)
    | inr apart ↦
        (let now : Map.get docs id ≡ some d = rw (get-insert docs doc.id id doc, apart) at h in
          k id d now)
  ]

  pub remove-Keyed : (docs : Map Doc) (id : String) → Keyed docs → Keyed (Map.remove docs id)
  remove-Keyed docs id k j d h = elim (Bool-cases (str_eq id j)) [
    | inl same ↦
        (let now : ◌≡◌ {A = Option Doc} none (some d) = rw (get-remove docs id j, same) at h in
          cc now)
    | inr apart ↦
        (let now : Map.get docs j ≡ some d = rw (get-remove docs id j, apart) at h in k j d now)
  ]

  -- The index that the recovery has after an insertion.
  abbrev pub indexed : Map Doc → InvertedIndex → Doc → InvertedIndex
  indexed docs ix doc =
      index_document svc.tokenize (reindexed svc ix doc.id (Map.get docs doc.id)) doc.id doc.content
