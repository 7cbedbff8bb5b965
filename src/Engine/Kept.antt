-- ===== src/Engine/Kept.antt =====
-- engine.rs: every operation keeps what the log recovers.
use cassettedb.Prelude.{ℕ, ◌≡◌, ap, ◌∙◌, subst, [], none, some, String, true, false}
use cassettedb.Prelude.Map
use cassettedb.Prelude.Map.{Map, get-insert, get-remove}
use cassettedb.Prelude.Errors.{Result, ok, err}
use cassettedb.Bytes.{Bytes}
use cassettedb.Index.Inverted.{InvertedIndex, index_document, remove_document}
use cassettedb.Storage.Pages.{increment_doc_count}
use cassettedb.Storage.Durability.{increment_doc_count-Sound}
use cassettedb.Wal.Records.{insert_op, update_op, delete_op}
use cassettedb.Wal.Logging.{Loggable}
use cassettedb.Engine.Operations.{
  Doc, is_exact, Services, Engine, replaced, write_log, insert_with, update_with, reindexed,
  deleted,
}
use cassettedb.Engine.Durable.{
  insert_no_entry, update_no_entry, delete_no_entry, Kept, Durable, Logs-logged, published-Kept,
  write_log-Loggable, logged, Keyed, indexed, insert-Keyed, remove-Keyed,
}

module _ {V C : Type 0} (svc : Services V C) where
  -- A document is written under a new identifier, as the engine's index keeps its old terms otherwise.
  abbrev pub Fresh : Engine C → String → Type 0
  Fresh e id = Map.get e.docs id ≡ none

  -- A document is exact, and the lengths of the identifier and of its encoding fit the log.
  abbrev pub Writable : String → Doc → Type 0
  Writable id doc =
      (is_exact doc ≡ true)
      × ((payload : Bytes) → svc.doc_to_vec doc ≡ ok payload → Loggable svc.codec id payload)

  pub insert_with-Kept :
      (e : Engine C) (ix : InvertedIndex) (doc : Doc) (now : ℕ) (made : Result Bytes)
      → svc.doc_to_vec doc ≡ made
      → Durable svc e ix
      → Writable doc.id doc
      → Kept svc (insert_with svc e doc now made).0 ((ix ≡ e.index) × Fresh e doc.id)
  unfolding increment_doc_count
  insert_with-Kept e ix doc now (err reason) m d h = (ix, d, λ (same, fresh). same)
  insert_with-Kept e ix doc now (ok payload) m d h =
      let kept : Kept svc
          (record {
            wal = logged svc e.wal insert_op doc.id payload;
            index = index_document svc.tokenize e.index doc.id doc.content;
            docs = Map.insert e.docs doc.id doc;
            storage = increment_doc_count svc.codec.order e.storage false 1;
            change_feed = e.change_feed;
          })
          ((ix ≡ e.index) × Fresh e doc.id) =
        (
          indexed svc e.docs ix doc,
          record {
            logs =
                Logs-logged svc e.wal (e.docs, ix) _ insert_op doc.id payload d.logs (h.1 payload m)
                  insert_no_entry
                  (ap (replaced svc (e.docs, ix)) (svc.doc_from_slice-to_vec doc h.0 m));
            keyed = insert-Keyed svc e.docs doc d.keyed;
            stored = increment_doc_count-Sound svc.codec.order e.storage false 1 d.stored;
            one_page = d.one_page;
          },
          λ (same, fresh).
              ap (λ o. index_document svc.tokenize (reindexed svc ix doc.id o) doc.id doc.content)
                fresh
              ∙ ap (λ (x : InvertedIndex). index_document svc.tokenize x doc.id doc.content) same,
        ) in
      rw (write_log-Loggable svc e.wal insert_op doc.id payload (h.1 payload m))
        (published-Kept svc _ insert_op doc.id payload now doc.id e.change_feed kept)

  pub update_with-Kept :
      (e : Engine C) (ix : InvertedIndex) (old doc : Doc) (id : String) (now : ℕ)
      (made : Result Bytes)
      → svc.doc_to_vec doc ≡ made
      → doc.id ≡ id
      → Map.get e.docs id ≡ some old
      → Durable svc e ix
      → Writable id doc
      → Kept svc (update_with svc e old doc id now made).0 (ix ≡ e.index)
  update_with-Kept e ix old doc id now (err reason) m same_id found d h = (ix, d, λ same. same)
  update_with-Kept e ix old doc id now (ok payload) m same_id found d h =
      let reindex : InvertedIndex → InvertedIndex = λ x.
        index_document svc.tokenize (remove_document svc.tokenize x id old.content) id
          doc.content in
      let step : replaced svc (e.docs, ix) (svc.doc_from_slice payload)
          ≡ ok (Map.insert e.docs id doc, reindex ix) =
        ap (replaced svc (e.docs, ix)) (svc.doc_from_slice-to_vec doc h.0 m)
        ∙ ap
            (λ (i : String). ok (
              Map.insert e.docs i doc,
              index_document svc.tokenize (reindexed svc ix i (Map.get e.docs i)) i doc.content,
            ))
            same_id
        ∙ ap
            (λ o. ok (
              Map.insert e.docs id doc,
              index_document svc.tokenize (reindexed svc ix id o) id doc.content,
            ))
            found in
      let kept : Kept svc
          (record {
            wal = logged svc e.wal update_op id payload;
            index = reindex e.index;
            docs = Map.insert e.docs id doc;
            storage = e.storage;
            change_feed = e.change_feed;
          })
          (ix ≡ e.index) =
        (
          reindex ix,
          record {
            logs =
                Logs-logged svc e.wal (e.docs, ix) _ update_op id payload d.logs (h.1 payload m)
                  update_no_entry step;
            keyed =
                subst (λ i. Keyed svc (Map.insert e.docs i doc)) same_id
                  (insert-Keyed svc e.docs doc d.keyed);
            stored = d.stored;
            one_page = d.one_page;
          },
          ap reindex,
        ) in
      rw (write_log-Loggable svc e.wal update_op id payload (h.1 payload m))
        (published-Kept svc _ update_op id payload now tt e.change_feed kept)

  pub delete-found-Kept :
      (e : Engine C) (ix : InvertedIndex) (old : Doc) (id : String) (now : ℕ)
      → Map.get e.docs id ≡ some old
      → Durable svc e ix
      → Loggable svc.codec id []
      → Kept svc
          (deleted svc
            (record e { docs = Map.remove e.docs id })
            old
            id
            now
            (write_log svc e.wal delete_op id [])).0
          (ix ≡ e.index)
  unfolding increment_doc_count
  delete-found-Kept e ix old id now found d h =
      let remove_old : InvertedIndex → InvertedIndex =
        λ x. remove_document svc.tokenize x id old.content in
      let kept : Kept svc
          (record {
            wal = logged svc e.wal delete_op id [];
            index = remove_old e.index;
            docs = Map.remove e.docs id;
            storage = increment_doc_count svc.codec.order e.storage true 1;
            change_feed = e.change_feed;
          })
          (ix ≡ e.index) =
        (
          remove_old ix,
          record {
            logs =
                Logs-logged svc e.wal (e.docs, ix) _ delete_op id [] d.logs h delete_no_entry
                  (ap (λ o. ok (Map.remove e.docs id, reindexed svc ix id o)) found);
            keyed = remove-Keyed svc e.docs id d.keyed;
            stored = increment_doc_count-Sound svc.codec.order e.storage true 1 d.stored;
            one_page = d.one_page;
          },
          ap remove_old,
        ) in
      rw (write_log-Loggable svc e.wal delete_op id [] h)
        (published-Kept svc _ delete_op id [] now tt e.change_feed kept)
