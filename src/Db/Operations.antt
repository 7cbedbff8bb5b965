-- ===== src/Db/Operations.antt =====
-- db.rs: the operations of `Cassette`. A call of the clock or of the random numbers is an argument,
-- and none stands for the error "collection not found", which leaves the database as it was.
use cassettedb.Prelude.{
  ℕ, ◌+◌, ◌-◌, Bool, true, false, not, Option, none, some, String, List, [], ◌∷◌, ◌++◌, retain,
  find?, length, str_eq, if◌then◌else◌,
}
use cassettedb.Prelude.Map
use cassettedb.Prelude.Map.{Map}
use cassettedb.Json.{Value}
use cassettedb.Db.Types.{Document, Collection, Cassette, InvertedIndex, SecondaryIndex, Library}
use cassettedb.Db.Indexes.{
  index_document, index_secondary, remove_from_index, remove_from_secondary_index_all,
  add_to_secondary_index, map_entries,
}

-- `Cassette::new`
abbrev pub new : Cassette
new = record { version = 1; collections = []; meta = [] }

abbrev pub empty_collection : String → Collection
empty_collection name = record {
  name = name;
  documents = [];
  indexes = [];
  inverted_index = [];
  secondary_indexes = [];
}

abbrev pub or_collection : Option Collection → String → Collection
or_collection none name = empty_collection name
or_collection (some coll) name = coll

abbrev pub has_id : String → Document → Bool
has_id id d = str_eq d.id id

-- An assignment to the first document with the id.
abbrev pub set_first : String → Document → List Document → List Document
set_first id doc [] = []
set_first id doc (d ∷ ds) =
    let rest = set_first id doc ds in if has_id id d then doc ∷ ds else d ∷ rest

abbrev pub set_collection : Cassette → String → Collection → Cassette
set_collection c collection coll = record c {
  collections = Map.insert c.collections collection coll;
}

-- The documents that are not deleted.
unfoldable pub live : List Document → List Document
live = retain (λ d. not d.deleted)

-- The call with its id and its times.
pub record Stamp : Type 0 where
  pub id : String
  pub created_at : String
  pub updated_at : String

abbrev pub stamped : Stamp → Value → Document
stamped stamp doc = record {
  id = stamp.id;
  content = doc;
  created_at = stamp.created_at;
  updated_at = stamp.updated_at;
  deleted = false;
}

abbrev pub in_collection {ℓ} :
    {A : Type ℓ}
    → Cassette
    → String
    → Option Collection
    → (Collection → Collection × A)
    → Option (Cassette × A)
in_collection c collection none change = none
in_collection c collection (some coll) change =
    let (after, answer) = change coll in some (set_collection c collection after, answer)

abbrev pub without_index : Collection → String → Collection
without_index coll field = record coll {
  secondary_indexes = Map.remove coll.secondary_indexes field;
}

unfoldable pub drop_index : Cassette → String → String → Option (Cassette × Bool)
drop_index c collection field =
    in_collection c collection (Map.get c.collections collection)
      (λ coll. (without_index coll field, Map.contains_key coll.secondary_indexes field))

abbrev pub index_names : Option Collection → List String
index_names none = []
index_names (some coll) = Map.keys coll.secondary_indexes

unfoldable pub list_indexes : Cassette → String → List String
list_indexes c collection = index_names (Map.get c.collections collection)

abbrev pub delete_found : Collection → Option Document → String → Collection × Bool
delete_found coll none now = (coll, false)
delete_found coll (some doc) now = (
  record coll {
    documents = set_first doc.id (record doc { deleted = true; updated_at = now }) coll.documents;
  },
  true,
)

unfoldable pub delete : Cassette → String → String → String → Option (Cassette × Bool)
delete c now collection id =
    in_collection c collection (Map.get c.collections collection)
      (λ coll. delete_found coll (find? (has_id id) coll.documents) now)

unfoldable pub collections : Cassette → List String
collections c = Map.keys c.collections

abbrev pub removed_from : Map Collection → ℕ
removed_from [] = 0
removed_from ((name, coll) ∷ m) =
    (length coll.documents - length (live coll.documents)) + removed_from m

module _ (lib : Library) where
  abbrev pub insert_doc : Collection → Document → Collection
  insert_doc coll document = record coll {
    documents = coll.documents ++ document ∷ [];
    inverted_index = index_document lib coll.inverted_index document;
    secondary_indexes = index_secondary lib coll.secondary_indexes document;
  }

  unfoldable pub insert : Cassette → Stamp → String → Value → Cassette × String
  insert c stamp collection doc = (
    set_collection c collection (
        insert_doc (or_collection (Map.get c.collections collection) collection)
          (stamped stamp doc)),
    stamp.id,
  )

  -- The documents added to an index one after the other.
  abbrev pub add_all : SecondaryIndex → String → List Document → SecondaryIndex
  add_all index field [] = index
  add_all index field (d ∷ ds) = add_all (add_to_secondary_index lib index field d) field ds

  abbrev pub index_all : InvertedIndex → List Document → InvertedIndex
  index_all inverted_index [] = inverted_index
  index_all inverted_index (d ∷ ds) = index_all (index_document lib inverted_index d) ds

  abbrev pub with_index : Collection → String → Collection
  with_index coll field =
      if Map.contains_key coll.secondary_indexes field then coll else record coll {
        secondary_indexes =
            Map.insert coll.secondary_indexes field (add_all [] field (live coll.documents));
      }

  unfoldable pub create_index : Cassette → String → String → Option (Cassette × Unit {0})
  create_index c collection field =
      in_collection c collection (Map.get c.collections collection)
        (λ coll. (with_index coll field, tt))

  abbrev pub replace_doc : Collection → Document → Document → Collection
  replace_doc coll old new = record coll {
    documents = set_first old.id new coll.documents;
    inverted_index = index_document lib (remove_from_index coll.inverted_index old.id) new;
    secondary_indexes =
        index_secondary lib (remove_from_secondary_index_all lib coll.secondary_indexes old) new;
  }

  abbrev pub update_found : Collection → Option Document → String → Value → Collection × Bool
  update_found coll none now value = (coll, false)
  update_found coll (some doc) now value =
      if doc.deleted
      then (coll, false)
      else (replace_doc coll doc (record doc { content = value; updated_at = now }), true)

  unfoldable pub update : Cassette → String → String → String → Value → Option (Cassette × Bool)
  update c now collection id value =
      in_collection c collection (Map.get c.collections collection)
        (λ coll. update_found coll (find? (has_id id) coll.documents) now value)

  abbrev pub compacted : Collection → Collection
  compacted coll = record coll {
    documents = live coll.documents;
    inverted_index = index_all [] (live coll.documents);
    secondary_indexes =
        map_entries (λ field index. add_all [] field (live coll.documents)) coll.secondary_indexes;
  }

  unfoldable pub compact : Cassette → Cassette × ℕ
  compact c = (
    record c { collections = map_entries (λ name coll. compacted coll) c.collections },
    removed_from c.collections,
  )
