-- ===== src/Engine/Documents.antt =====
-- engine.rs: the documents after an operation that succeeds.
use cassettedb.Prelude.{ℕ, ◌≡◌, sym, ap, ◌∙◌, Option, none, some, String, [], if◌then◌else◌, str_eq}
use cassettedb.Prelude.Map
use cassettedb.Prelude.Map.{Map, get-insert, get-remove}
use cassettedb.Prelude.Errors.{Result, ok, err, not_found}
use cassettedb.Bytes.{Bytes}
use cassettedb.Json.{Value}
use cassettedb.Replication.Feed.{ChangeFeed, publish}
use cassettedb.Wal.Records.{Wal, WalOp, insert_op, update_op, delete_op}
use cassettedb.Engine.Operations.{
  Doc, Services, Engine, insert, update, delete, get, published, sent, inserted, insert_with,
  updated, update_with, named, changed, deleted, write_log,
}

ok_injective : {A : Type 0} {a b : A} → ◌≡◌ {A = Result A} (ok a) (ok b) → a ≡ b
ok_injective h = cc h

module _ {V C : Type 0} (svc : Services V C) where
  sent-ok :
      {A : Type 0} (e : Engine C) (a : A) (r : Result (ChangeFeed C × ℕ)) {e' : Engine C} {b : A}
      → sent svc e a r ≡ (e', ok b)
      → (e'.docs ≡ e.docs) × (b ≡ a)
  sent-ok e a (err reason) h = (let bad = ap (λ x. x.1) h in cc bad)
  sent-ok {A = A} e a (ok (feed, seq)) {b = b} h =
      let same : ok a ≡ ok b = ap (λ x. x.1) h in
      (ap (λ x. x.0.docs) (sym h), sym (ok_injective same))

  published-ok :
      {A : Type 0} (e : Engine C) (op : WalOp) (id : String) (payload : Bytes) (now : ℕ) (a : A)
      (feed : Option (ChangeFeed C)) {e' : Engine C} {b : A}
      → published svc e op id payload now a feed ≡ (e', ok b)
      → (e'.docs ≡ e.docs) × (b ≡ a)
  published-ok e op id payload now a none {b = b} h =
      (let same : ok a ≡ ok b = ap (λ x. x.1) h in
        (ap (λ x. x.0.docs) (sym h), sym (ok_injective same)))
  published-ok e op id payload now a (some feed) h =
      sent-ok e a (publish svc.changes svc.send feed op id payload now) h

  inserted-ok :
      (e : Engine C) (doc : Doc) (payload : Bytes) (now : ℕ) (logged : Wal × Result (Unit {0}))
      {e' : Engine C} {id : String}
      → inserted svc e doc payload now logged ≡ (e', ok id)
      → (e'.docs ≡ Map.insert e.docs doc.id doc) × (id ≡ doc.id)
  inserted-ok e doc payload now (w, err reason) h = (let bad = ap (λ x. x.1) h in cc bad)
  inserted-ok e doc payload now (w, ok t) h =
      published-ok _ insert_op doc.id payload now doc.id e.change_feed h

  insert_with-ok :
      (e : Engine C) (doc : Doc) (now : ℕ) (made : Result Bytes) {e' : Engine C} {id : String}
      → insert_with svc e doc now made ≡ (e', ok id)
      → (e'.docs ≡ Map.insert e.docs doc.id doc) × (id ≡ doc.id)
  insert_with-ok e doc now (err reason) h = (let bad = ap (λ x. x.1) h in cc bad)
  insert_with-ok e doc now (ok payload) h =
      inserted-ok e doc payload now (write_log svc e.wal insert_op doc.id payload) h

  -- After an insertion the document stands under its identifier.
  pub insert-get :
      (e : Engine C) (doc : Doc) (uuid : String) (now : ℕ) {e' : Engine C} {id : String}
      → insert svc e doc uuid now ≡ (e', ok id)
      → (id ≡ (named svc doc uuid).id)
        × ((j : String)
            → get svc e' j ≡ (
                if str_eq (named svc doc uuid).id j
                then some (named svc doc uuid)
                else get svc e j))
  unfolding insert get
  insert-get e doc uuid now h =
      let d = named svc doc uuid in
      let (docs, same) = insert_with-ok e d now (svc.doc_to_vec d) h in
      (same, λ j. ap (λ m. Map.get m j) docs ∙ get-insert e.docs d.id j d)

  updated-ok :
      (e : Engine C) (old doc : Doc) (id : String) (payload : Bytes) (now : ℕ)
      (logged : Wal × Result (Unit {0})) {e' : Engine C} {t : Unit}
      → updated svc e old doc id payload now logged ≡ (e', ok t)
      → e'.docs ≡ Map.insert e.docs id doc
  updated-ok e old doc id payload now (w, err reason) h = (let bad = ap (λ x. x.1) h in cc bad)
  updated-ok e old doc id payload now (w, ok t) h =
      (published-ok _ update_op id payload now tt e.change_feed h).0

  update_with-ok :
      (e : Engine C) (old doc : Doc) (id : String) (now : ℕ) (made : Result Bytes) {e' : Engine C}
      {t : Unit}
      → update_with svc e old doc id now made ≡ (e', ok t)
      → e'.docs ≡ Map.insert e.docs id doc
  update_with-ok e old doc id now (err reason) h = (let bad = ap (λ x. x.1) h in cc bad)
  update_with-ok e old doc id now (ok payload) h =
      updated-ok e old doc id payload now (write_log svc e.wal update_op id payload) h

  -- The document with its new content, where there is one.
  abbrev pub changed_in : Option Doc → Value → Option Doc
  changed_in none content = none
  changed_in (some old) content = some (changed svc old content)

  update_found :
      (e : Engine C) (id : String) (content : Value) (now : ℕ) (found : Option Doc) {e' : Engine C}
      {t : Unit}
      → elim found as (λ _. Engine C × Result (Unit {0})) [
        | none ↦ (e, err (not_found id))
        | some old ↦
            update_with svc e old
              (changed svc old content)
              id
              now
              (svc.doc_to_vec (changed svc old content))
      ]
        ≡ (e', ok t)
      → (j : String)
      → Map.get e'.docs j ≡ (if str_eq id j then changed_in found content else Map.get e.docs j)
  update_found e id content now none h j = (let bad = ap (λ x. x.1) h in cc bad)
  update_found e id content now (some old) h j =
      ap (λ m. Map.get m j)
        (update_with-ok e old (changed svc old content) id now
          (svc.doc_to_vec (changed svc old content)) h)
      ∙ get-insert e.docs id j (changed svc old content)

  -- After an update the document has its new content.
  pub update-get :
      (e : Engine C) (id : String) (content : Value) (now : ℕ) {e' : Engine C} {t : Unit}
      → update svc e id content now ≡ (e', ok t)
      → (j : String)
      → get svc e' j ≡ (if str_eq id j then changed_in (get svc e id) content else get svc e j)
  unfolding update get
  update-get e id content now h j = update_found e id content now (Map.get e.docs id) h j

  deleted-ok :
      (e : Engine C) (old : Doc) (id : String) (now : ℕ) (logged : Wal × Result (Unit {0}))
      {e' : Engine C} {t : Unit}
      → deleted svc e old id now logged ≡ (e', ok t)
      → e'.docs ≡ e.docs
  deleted-ok e old id now (w, err reason) h = (let bad = ap (λ x. x.1) h in cc bad)
  deleted-ok e old id now (w, ok t) h = (published-ok _ delete_op id [] now tt e.change_feed h).0

  delete_found :
      (e : Engine C) (id : String) (now : ℕ) (found : Option Doc) {e' : Engine C} {t : Unit}
      → elim found as (λ _. Engine C × Result (Unit {0})) [
        | none ↦ (e, err (not_found id))
        | some old ↦
            deleted svc
              (record e { docs = Map.remove e.docs id })
              old
              id
              now
              (write_log svc e.wal delete_op id [])
      ]
        ≡ (e', ok t)
      → (j : String) → Map.get e'.docs j ≡ (if str_eq id j then none else Map.get e.docs j)
  delete_found e id now none h j = (let bad = ap (λ x. x.1) h in cc bad)
  delete_found e id now (some old) h j =
      ap (λ m. Map.get m j)
        (deleted-ok (record e { docs = Map.remove e.docs id }) old id now
          (write_log svc e.wal delete_op id []) h)
      ∙ get-remove e.docs id j

  -- After a deletion there is no document.
  pub delete-get :
      (e : Engine C) (id : String) (now : ℕ) {e' : Engine C} {t : Unit}
      → delete svc e id now ≡ (e', ok t)
      → (j : String) → get svc e' j ≡ (if str_eq id j then none else get svc e j)
  unfolding delete get
  delete-get e id now h j = delete_found e id now (Map.get e.docs id) h j
