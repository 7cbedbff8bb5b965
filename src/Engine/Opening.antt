-- ===== src/Engine/Opening.antt =====
-- engine.rs: `open` and `compact`. A path whose directory is missing has no change feed: none as the
-- content of the file.
use cassettedb.Prelude.{
  ℕ, zero, suc, ◌+◌, ◌-◌, ◌*◌, ◌/◌, ◌%◌, List, [], ◌∷◌, ◌++◌, length, take, drop, if◌then◌else◌,
  ltb, ◌&&◌, Option, none, some, Bool, true, false,
}
use cassettedb.Prelude.Map
use cassettedb.Prelude.Map.{Map}
use cassettedb.Prelude.Errors.{Result, ok, err}
use cassettedb.Bytes.{Bytes, resize}
use cassettedb.Index.Inverted.{index_document}
use cassettedb.Replication.Log.{ReplicationLog, open_log}
use cassettedb.Replication.Feed.{ChangeFeed, reset_feed}
use cassettedb.Storage.Header.{page_size_const}
use cassettedb.Storage.Pages.{Storage, open_at, allocate_page, read_page, write_page}
use cassettedb.Wal.Records.{Wal, open_wal, reset}
use cassettedb.Wal.Committed.{iter_committed}
use cassettedb.Engine.Operations.{Doc, Services, Engine, Recovered, recover}

-- `usize::div_ceil`
abbrev pub div_ceil : ℕ → ℕ → ℕ
div_ceil a b = (a + (b - 1)) / b

-- `usize::from_le_bytes` of eight bytes.
abbrev pub usize_of : Bytes → ℕ
usize_of (a ∷ b ∷ c ∷ d ∷ e ∷ f ∷ g ∷ h ∷ rest) =
    a + 256 * (b + 256 * (c + 256 * (d + 256 * (e + 256 * (f + 256 * (g + 256 * h))))))
usize_of _ = 0

-- `usize::to_le_bytes`
abbrev pub usize_bytes : ℕ → ℕ → Bytes
usize_bytes zero n = []
usize_bytes (suc k) n = n % 256 ∷ usize_bytes k (n / 256)

abbrev pub empty : Recovered
empty = ([], record { map = [] })

-- `chunks(PAGE_SIZE)`, on fuel: each chunk filled up with zeros to a page.
abbrev pub pages_of : ℕ → Bytes → List Bytes
pages_of zero bytes = []
pages_of (suc n) [] = []
pages_of (suc n) (b ∷ bytes) =
    resize page_size_const (take page_size_const (b ∷ bytes))
    ∷ pages_of n (drop page_size_const (b ∷ bytes))

module _ {V C : Type 0} (svc : Services V C) where
  abbrev page_or_nothing : Result Bytes → Bytes
  page_or_nothing (err e) = []
  page_or_nothing (ok page) = page

  -- `n` pages from page `i` on, one after the other; those that cannot be read are left out.
  unfoldable pub read_pages : Storage → ℕ → ℕ → Bytes
  read_pages s i zero = []
  read_pages s i (suc n) = page_or_nothing (read_page svc.codec.order s i) ++ read_pages s (suc i) n

  abbrev pub load : Recovered → Map Doc → Recovered
  load s [] = s
  load (docs, ix) ((id, doc) ∷ loaded) =
      load (Map.insert docs id doc, index_document svc.tokenize ix id doc.content) loaded

  abbrev pub load_docs : Recovered → Option (Map Doc) → Recovered
  load_docs s none = s
  load_docs s (some loaded) = load s loaded

  abbrev pub load_length : Recovered → Storage → ℕ → Recovered
  load_length s storage n =
      if ltb 0 n
      then load_docs s
          (svc.docs_from_slice (take n (read_pages storage 1 (div_ceil n page_size_const))))
      else s

  abbrev pub load_trailer : Recovered → Storage → Result Bytes → Recovered
  load_trailer s storage (err e) = s
  load_trailer s storage (ok page) = load_length s storage (usize_of page)

  abbrev pub is_empty_map : Map Doc → Bool
  is_empty_map [] = true
  is_empty_map (e ∷ m) = false

  -- The pages of the last `compact`, if the log gave no document.
  unfoldable pub load_pages : Recovered → Storage → Recovered
  load_pages (docs, ix) storage =
      if is_empty_map docs && ltb 1 storage.header.num_pages
      then load_trailer (docs, ix) storage
          (read_page svc.codec.order storage (storage.header.num_pages - 1))
      else (docs, ix)

  abbrev engine_of : Wal → Storage → Recovered → Option (ChangeFeed C) → Engine C
  engine_of wal storage (docs, ix) feed = record {
    wal = wal;
    storage = storage;
    docs = docs;
    index = ix;
    change_feed = feed;
  }

  abbrev feed_opened :
      Wal → Storage → Recovered → Option (Result ReplicationLog) → Option (Result (Engine C))
  feed_opened wal storage s none = none
  feed_opened wal storage s (some (err e)) = some (err e)
  feed_opened wal storage s (some (ok log)) =
      some (ok (engine_of wal storage s (some (record { log = log; subscribers = [] }))))

  abbrev pub open_feed : Wal → Storage → Recovered → Option Bytes → Option (Result (Engine C))
  open_feed wal storage s none = some (ok (engine_of wal storage s none))
  open_feed wal storage s (some repl_file) =
      feed_opened wal storage s (open_log svc.changes repl_file)

  abbrev pub recovered :
      Wal → Storage → Option Bytes → Option (Result Recovered) → Option (Result (Engine C))
  recovered wal storage repl_file none = none
  recovered wal storage repl_file (some (err e)) = some (err e)
  recovered wal storage repl_file (some (ok s)) =
      open_feed wal storage (load_pages s storage) repl_file

  abbrev storage_opened : Wal → Option Bytes → Result Storage → Option (Result (Engine C))
  storage_opened wal repl_file (err e) = some (err e)
  storage_opened wal repl_file (ok storage) =
      recovered wal storage repl_file (iter_committed svc.codec (recover svc) wal empty)

  abbrev wal_opened : Bytes → Option Bytes → Result Wal → Option (Result (Engine C))
  wal_opened db_file repl_file (err e) = some (err e)
  wal_opened db_file repl_file (ok wal) =
      storage_opened wal repl_file (open_at svc.codec.order db_file)

  -- `CassetteEngine::open` of files with these contents; a new file is empty.
  unfoldable pub open_engine : Bytes → Bytes → Option Bytes → Option (Result (Engine C))
  open_engine wal_file db_file repl_file =
      wal_opened db_file repl_file (open_wal svc.codec wal_file)

  abbrev pub allocated :
      (Storage → Option (Storage × Result (Unit {0})))
      → Storage
      → Result (Storage × ℕ)
      → Option (Storage × Result (Unit {0}))
  allocated again s (err e) = some (s, err e)
  allocated again s (ok (s', page_id)) = again s'

  -- The loop that allocates pages, on fuel.
  unfoldable pub allocate_until : ℕ → ℕ → Storage → Option (Storage × Result (Unit {0}))
  allocate_until zero pages s = none
  allocate_until (suc n) pages s =
      if ltb s.header.num_pages pages
      then allocated (allocate_until n pages) s (allocate_page svc.codec.order s)
      else some (s, ok tt)

  unfoldable pub write_pages : Storage → ℕ → List Bytes → Option Storage
  write_pages s i [] = some s
  write_pages s i (page ∷ pages) = elim (write_page svc.codec.order s i page) [
    | none ↦ none
    | some s' ↦ write_pages s' (suc i) pages
  ]

  abbrev pub reset_feeds : Option (ChangeFeed C) → Option (ChangeFeed C)
  reset_feeds none = none
  reset_feeds (some feed) = some (reset_feed svc.changes feed)

  abbrev with_trailer : Engine C → Option Storage → Option (Engine C × Result (Unit {0}))
  with_trailer e none = none
  with_trailer e (some s) = some (
    record e { storage = s; wal = reset svc.codec e.wal; change_feed = reset_feeds e.change_feed },
    ok tt,
  )

  abbrev trailer : ℕ → Bytes
  trailer n = resize page_size_const (usize_bytes 8 n)

  abbrev with_pages : Engine C → ℕ → ℕ → Option Storage → Option (Engine C × Result (Unit {0}))
  with_pages e pages_needed n none = none
  with_pages e pages_needed n (some s) =
      with_trailer e (write_page svc.codec.order s (pages_needed + 1) (trailer n))

  abbrev with_room :
      Engine C
      → Bytes
      → ℕ
      → Option (Storage × Result (Unit {0}))
      → Option (Engine C × Result (Unit {0}))
  with_room e payload pages_needed none = none
  with_room e payload pages_needed (some (s, err reason)) =
      some (record e { storage = s }, err reason)
  with_room e payload pages_needed (some (s, ok t)) =
      with_pages e pages_needed (length payload)
        (write_pages s 1 (pages_of (length payload) payload))

  abbrev compact_with : ℕ → Engine C → Result Bytes → Option (Engine C × Result (Unit {0}))
  compact_with fuel e (err reason) = some (e, err reason)
  compact_with fuel e (ok payload) =
      (let pages_needed : ℕ = div_ceil (length payload) page_size_const in
        with_room e payload pages_needed (allocate_until fuel (pages_needed + 1) e.storage))

  -- `compact`, on fuel for the loop that allocates pages: none is a loop that has not ended.
  unfoldable pub compact : ℕ → Engine C → Option (Engine C × Result (Unit {0}))
  compact fuel e = compact_with fuel e (svc.docs_to_vec e.docs)
