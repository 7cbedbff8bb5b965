-- ===== src/Db/Calls.antt =====
-- db.rs: the database as the documents that its reads find by collection and id.
use cassettedb.Prelude.{
  ◌≡◌, refl, sym, ap, ◌∙◌, Bool, true, ◌&&◌, Option, none, some, String, find?, str_eq,
  if◌then◌else◌, arith, eq_iff, Bool-cases, inl, inr,
}
use cassettedb.Prelude.Map
use cassettedb.Prelude.Map.{get-insert}
use cassettedb.Json.{Value}
use cassettedb.Db.Types.{Document, Collection, Cassette, Library}
use cassettedb.Db.Operations.{
  Stamp, insert, update, delete, stamped, set_collection, in_collection, has_id, or_collection,
  insert_doc, update_found, delete_found,
}
use cassettedb.Db.Queries.{find_live, get_in}
use cassettedb.Db.Queries
use cassettedb.Db.Found.{find_live-append}
use cassettedb.Db.Replaced.{renewed, update_found-found, delete_found-found}
use cassettedb.Db.Reached.{Reached, reached-Indexed, is_fresh, fresh_in}

pub data Call : Type 0 where
  insert_call : Stamp → String → Value → Call
  update_call : String → String → String → Value → Call
  delete_call : String → String → String → Call

-- The database after a call: an error leaves it as it was.
abbrev pub after_call : {A : Type 0} → Cassette → Option (Cassette × A) → Cassette
after_call c none = c
after_call c (some (after, answer)) = after

unfoldable pub perform : Library → Cassette → Call → Cassette
perform lib c (insert_call stamp collection value) = (insert lib c stamp collection value).0
perform lib c (update_call now collection id value) =
    after_call c (update lib c now collection id value)
perform lib c (delete_call now collection id) = after_call c (delete c now collection id)

abbrev pub is_new : Cassette → Call → Bool
is_new c (insert_call stamp collection value) = is_fresh c collection stamp.id
is_new c _ = true

-- What is found for a collection and an id after the call, by what was found before it.
abbrev pub described :
    Call → (String → String → Option Document) → String → String → Option Document
described (insert_call stamp coll value) found collection id =
    if str_eq coll collection && str_eq stamp.id id
    then some (stamped stamp value)
    else found collection id
described (update_call now coll i value) found collection id =
    if str_eq coll collection && str_eq i id
    then renewed now value (found collection id)
    else found collection id
described (delete_call now coll i) found collection id =
    if str_eq coll collection && str_eq i id then none else found collection id

-- A change of one collection that changes what is found in it.
set_collection-get :
    (c : Cassette) (name : String) (coll : Collection) (collection id : String)
    → Queries.get (set_collection c name coll) collection id ≡ (
        if str_eq name collection then find_live coll.documents id else Queries.get c collection id)
unfolding Queries.get
set_collection-get c name coll collection id =
    ap (λ o. get_in o id) (get-insert c.collections name collection coll)
    ∙ (elim (Bool-cases (str_eq name collection)) [ inl e ↦ rw e refl | inr e ↦ rw e refl ])

or_collection-found :
    (o : Option Collection) (name id : String)
    → find_live (or_collection o name).documents id ≡ get_in o id
or_collection-found none name id = refl
or_collection-found (some coll) name id = refl

get_here :
    (c : Cassette) (name collection id : String) (o : Option Collection)
    → Map.get c.collections name ≡ o
    → str_eq name collection ≡ true
    → Queries.get c collection id ≡ get_in o id
unfolding Queries.get
get_here c name collection id o found same =
    ap (λ n. get_in (Map.get c.collections n) id) (sym ((eq_iff name collection).0 same))
    ∙ ap (λ o. get_in o id) found

-- What is found after a call that changes one collection or fails.
in_collection-get :
    {A : Type 0} (c : Cassette) (name collection id : String) (o : Option Collection)
    (change : Collection → Collection × A) (to : Option Document → Option Document) (same_id : Bool)
    → Map.get c.collections name ≡ o
    → to none ≡ none
    → ((coll : Collection)
        → o ≡ some coll
        → find_live (change coll).0.documents id
          ≡ (if same_id then to (find_live coll.documents id) else find_live coll.documents id))
    → Queries.get (after_call c (in_collection c name o change)) collection id ≡ (
        if str_eq name collection && same_id
        then to (Queries.get c collection id)
        else Queries.get c collection id)
unfolding Queries.get
in_collection-get c name collection id none change to same_id found nothing step =
    elim (Bool-cases (str_eq name collection && same_id)) [
      | inl e ↦
          (let absent : Queries.get c collection id ≡ none =
              get_here c name collection id none found (ground (arith, e)) in
            rw (e, absent) (sym nothing))
      | inr e ↦ rw e refl
    ]
in_collection-get c name collection id (some coll) change to same_id found nothing step =
    set_collection-get c name (change coll).0 collection id
    ∙ (elim (Bool-cases (str_eq name collection)) [
      | inl e ↦ rw (e, get_here c name collection id (some coll) found e) (step coll refl)
      | inr e ↦ rw e refl
    ])

-- Seen through get, a database that operations reach is a map from collections and ids to
-- documents: an insertion with an id that is new to its collection adds the document, an update
-- replaces the data and the time of a document that is found, a deletion removes it, and each
-- changes nothing else; a call that fails or finds no document changes nothing.
pub perform-get :
    (lib : Library) {c : Cassette} (call : Call) (collection id : String)
    → Reached lib c
    → is_new c call ≡ true
    → Queries.get (perform lib c call) collection id ≡ described call (Queries.get c) collection id
unfolding perform insert update delete
perform-get lib {c} (insert_call stamp name value) collection id r fresh =
    let coll = or_collection (Map.get c.collections name) name in
    set_collection-get c name (insert_doc lib coll (stamped stamp value)) collection id
    ∙ (elim (Bool-cases (str_eq name collection)) [
      | inl e ↦
          (let added =
              find_live-append coll.documents (stamped stamp value) id
                (fresh_in lib c name stamp.id fresh) refl in
            let before : find_live coll.documents id ≡ Queries.get c collection id =
              or_collection-found (Map.get c.collections name) name id
              ∙ sym (get_here c name collection id (Map.get c.collections name) refl e) in
            rw e (
              added
              ∙ ap (λ o. if str_eq stamp.id id then some (stamped stamp value) else o) before))
      | inr e ↦ rw e refl
    ])
perform-get lib {c} (update_call now name i value) collection id r fresh =
    in_collection-get c name collection id (Map.get c.collections name)
      (λ coll. update_found lib coll (find? (has_id i) coll.documents) now value)
      (renewed now value) (str_eq i id) refl refl
      (λ coll found.
        update_found-found coll now i id (reached-Indexed lib name r found).0 lib value
          (find? (has_id i) coll.documents) refl)
perform-get lib {c} (delete_call now name i) collection id r fresh =
    in_collection-get c name collection id (Map.get c.collections name)
      (λ coll. delete_found coll (find? (has_id i) coll.documents) now) (λ d. none) (str_eq i id)
      refl refl
      (λ coll found.
        delete_found-found coll now i id (reached-Indexed lib name r found).0
          (find? (has_id i) coll.documents) refl)
