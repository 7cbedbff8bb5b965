-- ===== src/Db/Reached.antt =====
-- db.rs: the databases that a sequence of operations leads to.
use cassettedb.Prelude.{
  ◌≡◌, refl, subst, Bool, true, false, Option, none, some, String, any, All, Option-cases, inl, inr,
  if◌then◌else◌,
}
use cassettedb.Prelude.Map
use cassettedb.Json.{Value}
use cassettedb.Db.Types.{Collection, Cassette, Library}
use cassettedb.Db.Operations.{
  Stamp, new, insert, create_index, drop_index, update, delete, compact, has_id, or_collection,
  compacted, stamped, in_collection, set_collection,
}
use cassettedb.Db.Entries.{All-insert, All-get, All-map_entries}
use cassettedb.Db.Invariant.{Indexed}
use cassettedb.Db.Kept.{
  insert_doc-Indexed, with_index-Indexed, without_index-Indexed, update_found-Indexed,
  delete_found-Indexed, compacted-Indexed,
}

-- The collection has no document with the id.
abbrev pub is_fresh : Cassette → String → String → Bool
is_fresh c collection id =
    if any (has_id id) (or_collection (Map.get c.collections collection) collection).documents
    then false
    else true

module _ (lib : Library) where
  pub data Reached : Cassette → Type 0 where
    started : Reached new
    inserted :
        {c : Cassette} (stamp : Stamp) (collection : String) (doc : Value)
        → Reached c
        → is_fresh c collection stamp.id ≡ true
        → Reached (insert lib c stamp collection doc).0
    index_created :
        {c after : Cassette} (collection field : String)
        → Reached c
        → create_index lib c collection field ≡ some (after, tt)
        → Reached after
    index_dropped :
        {c after : Cassette} (collection field : String) (answer : Bool)
        → Reached c
        → drop_index c collection field ≡ some (after, answer)
        → Reached after
    updated :
        {c after : Cassette} (now collection id : String) (doc : Value) (answer : Bool)
        → Reached c
        → update lib c now collection id doc ≡ some (after, answer)
        → Reached after
    deleted :
        {c after : Cassette} (now collection id : String) (answer : Bool)
        → Reached c
        → delete c now collection id ≡ some (after, answer)
        → Reached after
    compacted_all : {c : Cassette} → Reached c → Reached (compact lib c).0

  abbrev AllIndexed : Cassette → Type 0
  AllIndexed c = All (λ entry. Indexed lib entry.1) c.collections

  set_collection-AllIndexed :
      (c : Cassette) (collection : String) (coll : Collection)
      → AllIndexed c
      → Indexed lib coll
      → AllIndexed (set_collection c collection coll)
  set_collection-AllIndexed c collection coll h k =
      All-insert (λ entry. Indexed lib entry.1) c.collections collection coll h k

  in_collection-AllIndexed :
      {A : Type 0} (c : Cassette) (collection : String) (o : Option Collection)
      (change : Collection → Collection × A) {after : Cassette} {answer : A}
      → Map.get c.collections collection ≡ o
      → ((coll : Collection) → Indexed lib coll → Indexed lib (change coll).0)
      → AllIndexed c
      → in_collection c collection o change ≡ some (after, answer)
      → AllIndexed after
  in_collection-AllIndexed c collection none change found keep h e = cc e
  in_collection-AllIndexed c collection (some coll) change {after} found keep h e =
      let moved : set_collection c collection (change coll).0 ≡ after = cc e in
      subst AllIndexed moved (
        set_collection-AllIndexed c collection (change coll).0 h
          (keep coll (All-get (λ entry. Indexed lib entry.1) c.collections collection h found)))

  pub fresh_in :
      (c : Cassette) (collection id : String)
      → is_fresh c collection id ≡ true
      → any (has_id id) (or_collection (Map.get c.collections collection) collection).documents
        ≡ false
  fresh_in c collection id h = go _ h
    where
      go : (b : Bool) → (if b then false else true) ≡ true → b ≡ false
      go true h = cc h
      go false h = refl

  found_or_empty :
      (c : Cassette) (collection : String)
      → AllIndexed c
      → Indexed lib (or_collection (Map.get c.collections collection) collection)
  found_or_empty c collection h = elim (Option-cases (Map.get c.collections collection)) [
    | inl e ↦ rw e (refl, tt)
    | inr (coll, e) ↦ rw e (All-get (λ entry. Indexed lib entry.1) c.collections collection h e)
  ]

  reached-AllIndexed : {c : Cassette} → Reached c → AllIndexed c
  unfolding insert create_index drop_index update delete compact
  reached-AllIndexed started = tt
  reached-AllIndexed (inserted {c} stamp collection doc r fresh) =
      set_collection-AllIndexed c collection _ (reached-AllIndexed r) (
        insert_doc-Indexed lib (or_collection (Map.get c.collections collection) collection)
          (stamped stamp doc) (found_or_empty c collection (reached-AllIndexed r))
          (fresh_in c collection stamp.id fresh) refl)
  reached-AllIndexed (index_created {c} collection field r e) =
      in_collection-AllIndexed c collection _ _ refl (λ coll h. with_index-Indexed lib coll field h)
        (reached-AllIndexed r) e
  reached-AllIndexed (index_dropped {c} collection field answer r e) =
      in_collection-AllIndexed c collection _ _ refl
        (λ coll h. without_index-Indexed lib coll field h) (reached-AllIndexed r) e
  reached-AllIndexed (updated {c} now collection id doc answer r e) =
      in_collection-AllIndexed c collection _ _ refl
        (λ coll h. update_found-Indexed lib coll id now doc h) (reached-AllIndexed r) e
  reached-AllIndexed (deleted {c} now collection id answer r e) =
      in_collection-AllIndexed c collection _ _ refl
        (λ coll h. delete_found-Indexed lib coll id now h) (reached-AllIndexed r) e
  reached-AllIndexed (compacted_all {c} r) =
      All-map_entries (λ entry. Indexed lib entry.1) (λ entry. Indexed lib entry.1)
        (λ name coll. compacted lib coll) c.collections
        (λ name coll h. compacted-Indexed lib coll h) (reached-AllIndexed r)

  -- In a database that operations reach from the new one, an insertion being given an id that its
  -- collection does not have, no two documents of a collection have the same id, and every
  -- secondary index lists each document that is not deleted under its key, and lists no id under a
  -- key but that of a document, be it deleted, with this key.
  pub reached-Indexed :
      {c : Cassette} (collection : String) {coll : Collection}
      → Reached c
      → Map.get c.collections collection ≡ some coll
      → Indexed lib coll
  reached-Indexed {c} collection r found =
      All-get (λ entry. Indexed lib entry.1) c.collections collection (reached-AllIndexed r) found
