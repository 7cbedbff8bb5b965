-- ===== src/Engine/Operations.antt =====
-- engine.rs: `CassetteEngine`, without the feature `tantivy-search`. The encodings of serde_json are
-- parameters, as are the identifier that `uuid` makes and the clock of the change feed. An operation
-- gives the engine after it also where it fails.
use cassettedb.Prelude.{
  ℕ, ◌&&◌, all, Bool, ◌≡◌, List, [], ◌∷◌, length, if◌then◌else◌, Option, none, some, String, true,
  false, str_eq,
}
use cassettedb.Prelude.Map
use cassettedb.Prelude.Map.{Map}
use cassettedb.Prelude.Errors.{Result, ok, err, not_found, serialization}
use cassettedb.Bytes.{Bytes}
use cassettedb.Document.{Document, with_id}
use cassettedb.Json.{Value, exact_within}
use cassettedb.Index.Inverted.{InvertedIndex, index_document, remove_document, search}
use cassettedb.Replication.Log.{ChangeRecord, ChangeCodec}
use cassettedb.Replication.Feed.{ChangeFeed, publish}
use cassettedb.Storage.Pages.{Storage, increment_doc_count}
use cassettedb.Wal.Records.{
  Codec, Wal, WalOp, WalRecord, insert_op, update_op, delete_op, tx_entry_op, append_record,
}
use cassettedb.Wal.Committed.{commit_record}

abbrev pub Doc : Type 0
Doc = Document Value

-- What serde_json reads back as it was: a document without fractions, whose text is nested less deep
-- than the 128 levels of its reader, of which the document and its metadata take two.
abbrev pub is_exact : Doc → Bool
is_exact doc = exact_within doc.content 125 && all (λ v. exact_within v 125) (Map.values doc.meta)

-- What the engine calls of serde_json, of the tokenizer and of a channel.
pub record Services (V C : Type 0) : Type 0 where
  pub codec : Codec V
  pub changes : ChangeCodec
  pub send : C → ChangeRecord → Option C
  pub tokenize : String → List String
  pub doc_to_vec : Doc → Result Bytes
  pub doc_from_slice : Bytes → Option Doc
  pub doc_from_slice-to_vec :
      (doc : Doc) {bytes : Bytes}
      → is_exact doc ≡ true
      → doc_to_vec doc ≡ ok bytes
      → doc_from_slice bytes ≡ some doc
  pub docs_to_vec : Map Doc → Result Bytes
  pub docs_from_slice : Bytes → Option (Map Doc)

pub record Engine (C : Type 0) : Type 0 where
  pub wal : Wal
  pub storage : Storage
  pub docs : Map Doc
  pub index : InvertedIndex
  pub change_feed : Option (ChangeFeed C)

abbrev pub Recovered : Type 0
Recovered = Map Doc × InvertedIndex

module _ {V C : Type 0} (svc : Services V C) where
  abbrev pub reindexed : InvertedIndex → String → Option Doc → InvertedIndex
  reindexed ix id none = ix
  reindexed ix id (some old) = remove_document svc.tokenize ix id old.content

  abbrev pub replaced : Recovered → Option Doc → Result Recovered
  replaced s none = err serialization
  replaced (docs, ix) (some doc) = ok (
    Map.insert docs doc.id doc,
    index_document svc.tokenize (reindexed ix doc.id (Map.get docs doc.id)) doc.id doc.content,
  )

  abbrev pub recover_op : WalOp → Recovered → WalRecord → Result Recovered
  recover_op insert_op s r = replaced s (svc.doc_from_slice r.payload)
  recover_op update_op s r = replaced s (svc.doc_from_slice r.payload)
  recover_op delete_op (docs, ix) r =
      ok (Map.remove docs r.doc_id, reindexed ix r.doc_id (Map.get docs r.doc_id))
  recover_op tx_entry_op s r = ok s

  -- The body of the loop over the committed records in `open`.
  abbrev pub recover : Recovered → WalRecord → Result Recovered
  recover s r = recover_op r.op s r

  -- `append_record` and `commit_record` at its offset, with their `?`.
  abbrev pub committed : Wal → Result Wal → Wal × Result (Unit {0})
  committed w (err e) = (w, err e)
  committed w (ok w') = (w', ok tt)

  unfoldable pub write_log : Wal → WalOp → String → Bytes → Wal × Result (Unit {0})
  unfolding append_record
  write_log w op id payload =
      (let (w', offset) = append_record svc.codec w op id payload in
        committed w' (commit_record svc.codec w' offset))

  abbrev pub sent : {A : Type 0} → Engine C → A → Result (ChangeFeed C × ℕ) → Engine C × Result A
  sent e a (err reason) = (e, err reason)
  sent e a (ok (feed, seq)) = (record e { change_feed = some feed }, ok a)

  -- The end of an operation: the change is published, if there is a feed.
  abbrev pub published :
      {A : Type 0}
      → Engine C
      → WalOp
      → String
      → Bytes
      → ℕ
      → A
      → Option (ChangeFeed C)
      → Engine C × Result A
  published e op id payload now a none = (e, ok a)
  published e op id payload now a (some feed) =
      sent e a (publish svc.changes svc.send feed op id payload now)

  abbrev pub inserted :
      Engine C → Doc → Bytes → ℕ → Wal × Result (Unit {0}) → Engine C × Result String
  inserted e doc payload now (w, err reason) = (record e { wal = w }, err reason)
  inserted e doc payload now (w, ok t) =
      published
        (record e {
          wal = w;
          index = index_document svc.tokenize e.index doc.id doc.content;
          docs = Map.insert e.docs doc.id doc;
          storage = increment_doc_count svc.codec.order e.storage false 1;
        })
        insert_op doc.id payload now doc.id e.change_feed

  abbrev pub insert_with : Engine C → Doc → ℕ → Result Bytes → Engine C × Result String
  insert_with e doc now (err reason) = (e, err reason)
  insert_with e doc now (ok payload) =
      inserted e doc payload now (write_log e.wal insert_op doc.id payload)

  -- An empty identifier is replaced by a new one.
  abbrev pub named : Doc → String → Doc
  named doc uuid = if str_eq doc.id "" then with_id uuid doc.content else doc

  unfoldable pub insert : Engine C → Doc → String → ℕ → Engine C × Result String
  insert e doc uuid now = insert_with e (named doc uuid) now (svc.doc_to_vec (named doc uuid))

  abbrev pub updated :
      Engine C
      → Doc
      → Doc
      → String
      → Bytes
      → ℕ
      → Wal × Result (Unit {0})
      → Engine C × Result (Unit {0})
  updated e old doc id payload now (w, err reason) = (record e { wal = w }, err reason)
  updated e old doc id payload now (w, ok t) =
      published
        (record e {
          wal = w;
          index =
              index_document svc.tokenize (remove_document svc.tokenize e.index id old.content) id
                doc.content;
          docs = Map.insert e.docs id doc;
        })
        update_op id payload now tt e.change_feed

  abbrev pub update_with :
      Engine C → Doc → Doc → String → ℕ → Result Bytes → Engine C × Result (Unit {0})
  update_with e old doc id now (err reason) = (e, err reason)
  update_with e old doc id now (ok payload) =
      updated e old doc id payload now (write_log e.wal update_op id payload)

  abbrev pub changed : Doc → Value → Doc
  changed old content = record old { content = content }

  unfoldable pub update : Engine C → String → Value → ℕ → Engine C × Result (Unit {0})
  update e id content now = elim (Map.get e.docs id) [
    | none ↦ (e, err (not_found id))
    | some old ↦
        update_with e old (changed old content) id now (svc.doc_to_vec (changed old content))
  ]

  abbrev pub deleted :
      Engine C → Doc → String → ℕ → Wal × Result (Unit {0}) → Engine C × Result (Unit {0})
  deleted e old id now (w, err reason) = (record e { wal = w }, err reason)
  deleted e old id now (w, ok t) =
      published
        (record e {
          wal = w;
          index = remove_document svc.tokenize e.index id old.content;
          storage = increment_doc_count svc.codec.order e.storage true 1;
        })
        delete_op id [] now tt e.change_feed

  unfoldable pub delete : Engine C → String → ℕ → Engine C × Result (Unit {0})
  delete e id now = elim (Map.get e.docs id) [
    | none ↦ (e, err (not_found id))
    | some old ↦
        deleted (record e { docs = Map.remove e.docs id }) old id now
          (write_log e.wal delete_op id [])
  ]

  unfoldable pub get : Engine C → String → Option Doc
  get e id = Map.get e.docs id

  -- `filter_map(|id| self.docs.get(&id).cloned())`
  abbrev pub found : Map Doc → List String → List Doc
  found docs [] = []
  found docs (id ∷ ids) = elim (Map.get docs id) [
    | none ↦ found docs ids
    | some doc ↦ doc ∷ found docs ids
  ]

  unfoldable pub search_docs : Engine C → String → List Doc
  search_docs e term = found e.docs (search svc.tokenize e.index term)

  unfoldable pub doc_count : Engine C → ℕ
  doc_count e = length e.docs
