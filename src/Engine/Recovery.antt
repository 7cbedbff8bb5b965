-- ===== src/Engine/Recovery.antt =====
-- engine.rs: opening the files of an engine after any commands.
use cassettedb.Prelude.{
  ℕ, ◌≡◌, refl, sym, ap, ◌∙◌, subst, List, [], ◌∷◌, ◌++◌, arith, Option, none, some, false,
  append_nil, ltb,
}
use cassettedb.Prelude.Map
use cassettedb.Prelude.Map.{Map}
use cassettedb.Prelude.Errors.{ok}
use cassettedb.Bytes.{Bytes, read_exact-append}
use cassettedb.Index.Inverted.{InvertedIndex}
use cassettedb.Replication.Log.{ReplicationLog, open_log}
use cassettedb.Replication.Feed.{ChangeFeed}
use cassettedb.Storage.Pages.{Storage}
use cassettedb.Storage.Header.{new_header}
use cassettedb.Storage.Durability.{new_storage, new_storage-Sound}
use cassettedb.Wal.Records.{Wal, wal_magic, open_wal}
use cassettedb.Wal.Committed.{iter_committed}
use cassettedb.Wal.Marking.{iter_committed-Marked}
use cassettedb.Engine.Operations.{Services, Engine, Recovered, recover}
use cassettedb.Engine.Opening.{empty, open_engine, open_feed, load_pages}
use cassettedb.Engine.Durable.{Durable, wal_header}
use cassettedb.Engine.Commands.{Command, run_all, AllFit, AllNew, run_all-Kept}

one_not_above : (n : ℕ) → n ≡ 1 → ltb 1 n ≡ false
one_not_above n h = ground (arith, h)

module _ {V C : Type 0} (svc : Services V C) where
  open_wal_header :
      (bytes : Bytes)
      → open_wal svc.codec (wal_header svc ++ bytes)
        ≡ ok (record { file = wal_header svc ++ bytes; tx_counter = 0 })
  unfolding open_wal
  open_wal_header bytes = rw (
    read_exact-append wal_magic (svc.codec.order.write_u16 1 ++ bytes),
    svc.codec.order.read_u16-write_u16 1 bytes (omega arith),
  )

  load_pages_one :
      (s : Recovered) (storage : Storage)
      → storage.header.num_pages ≡ 1
      → load_pages svc s storage ≡ s
  unfolding load_pages
  load_pages_one ([], ix) storage h = rw (one_not_above storage.header.num_pages h)
  load_pages_one (entry ∷ docs, ix) storage h = refl

  -- The engine of new files.
  abbrev pub new_engine : Option (ChangeFeed C) → Engine C
  new_engine feed = record {
    wal = record { file = wal_header svc; tx_counter = 0 };
    storage = new_storage svc.codec.order;
    docs = [];
    index = record { map = [] };
    change_feed = feed;
  }

  new_engine-Durable :
      (feed : Option (ChangeFeed C)) → Durable svc (new_engine feed) (record { map = [] })
  unfolding new_header Map.get
  new_engine-Durable feed = record {
    logs = record {
      bytes = [];
      records = [];
      file_lem = sym (append_nil (wal_header svc));
      holds = refl;
      recovered = refl;
    };
    keyed = λ id doc h. cc h;
    stored = new_storage-Sound svc.codec.order;
    one_page = refl;
  }

  -- The engine in the files of `e` besides the index and the feed.
  abbrev pub reopened : Engine C → InvertedIndex → Option (ChangeFeed C) → Engine C
  reopened e ix feed = record e {
    wal = record { file = e.wal.file; tx_counter = 0 };
    index = ix;
    change_feed = feed;
  }

  abbrev pub feed_of : Option ReplicationLog → Option (ChangeFeed C)
  feed_of none = none
  feed_of (some log) = some (record { log = log; subscribers = [] })

  -- The file of the change feed is absent, or holds this log.
  abbrev pub FeedFile : Option Bytes → Option ReplicationLog → Type 0
  FeedFile none log = log ≡ none
  FeedFile (some file) none = ⊥
  FeedFile (some file) (some log) = open_log svc.changes file ≡ some (ok log)

  open_feed_lem :
      (w : Wal) (storage : Storage) (s : Recovered) (file : Option Bytes)
      (log : Option ReplicationLog)
      → FeedFile file log
      → open_feed svc w storage s file
        ≡ some (
            ok (record {
              wal = w;
              storage = storage;
              docs = s.0;
              index = s.1;
              change_feed = feed_of log;
            }))
  open_feed_lem w storage s none none h = refl
  open_feed_lem w storage s none (some log) h = cc h
  open_feed_lem w storage s (some file) none h = absurd h
  open_feed_lem w storage s (some file) (some log) h = rw h

  open_engine-Durable :
      (e : Engine C) (ix : InvertedIndex) (file : Option Bytes) (log : Option ReplicationLog)
      → Durable svc e ix
      → FeedFile file log
      → open_engine svc e.wal.file e.storage.file file ≡ some (ok (reopened e ix (feed_of log)))
  unfolding open_engine
  open_engine-Durable e ix file log d h =
      let wal : Wal = record { file = e.wal.file; tx_counter = 0 } in
      let opened : open_wal svc.codec e.wal.file ≡ ok wal =
        subst (λ (b : Bytes). open_wal svc.codec b ≡ ok (record { file = b; tx_counter = 0 }))
          (sym d.logs.file_lem) (open_wal_header d.logs.bytes) in
      let iterated : iter_committed svc.codec (recover svc) wal empty ≡ some (ok (e.docs, ix)) =
        iter_committed-Marked svc.codec (recover svc) wal empty (wal_header svc) d.logs.bytes
          d.logs.records (omega (arith, svc.codec.order.length-write_u16 1)) d.logs.file_lem
          d.logs.holds
        ∙ ap some d.logs.recovered in
      rw (
        opened,
        d.stored.opens,
        iterated,
        load_pages_one (e.docs, ix) e.storage d.one_page,
        open_feed_lem wal e.storage (e.docs, ix) file log h,
      )

  -- Run any list of insertions, updates and deletions on an engine of new files, failing ones
  -- included, where the documents that they write have integers for numbers and values nested at
  -- most 125 deep, and identifiers and encodings shorter than 2^32 bytes. Opening the log and the
  -- main file again succeeds and gives the same documents and storage; the index is also the same
  -- if every insertion is of an identifier that has no document. The file of the change feed is
  -- absent or one that opens, and gives the feed.
  pub run_all-open_engine :
      (feed : Option (ChangeFeed C)) (cs : List Command) (file : Option Bytes)
      (log : Option ReplicationLog)
      → AllFit svc (new_engine feed) cs
      → FeedFile file log
      → (ix : InvertedIndex) × (open_engine svc
            (run_all svc (new_engine feed) cs).wal.file
            (run_all svc (new_engine feed) cs).storage.file
            file
          ≡ some (ok (reopened (run_all svc (new_engine feed) cs) ix (feed_of log))))
        × (AllNew svc (new_engine feed) cs → ix ≡ (run_all svc (new_engine feed) cs).index)
  run_all-open_engine feed cs file log h h' =
      let (ix, d, same) =
        run_all-Kept svc (new_engine feed) (record { map = [] }) cs (new_engine-Durable feed) h in
      (
        ix,
        open_engine-Durable (run_all svc (new_engine feed) cs) ix file log d h',
        λ new. same (refl, new),
      )
