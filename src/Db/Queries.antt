-- ===== src/Db/Queries.antt =====
-- db.rs: what reads the database. A query cannot fail: where the program answers `Ok`, only the
-- documents are kept. The order of the entries of a HashMap is that of their insertion.
use cassettedb.Prelude.{
  Bool, true, false, not, ◌&&◌, Option, none, some, String, List, [], ◌∷◌, retain, find?, str_eq,
}
use cassettedb.Prelude.Map
use cassettedb.Prelude.Map.{Map}
use cassettedb.Prelude.Texts.{split_char, trim, trim_quotes}
use cassettedb.Json.{Value, null, array, no_values, value_get, as_str}
use cassettedb.Index.Inverted.{contains}
use cassettedb.Db.Types.{Document, Collection, Cassette, SecondaryIndex}
use cassettedb.Db.Operations.{has_id, live}

-- A collection that is missing has no documents.
abbrev pub or_nothing {ℓ} : {A : Type ℓ} → Option Collection → (Collection → List A) → List A
or_nothing none read = []
or_nothing (some coll) read = read coll

-- `iter().find(|d| d.id == id && !d.deleted)`
abbrev pub find_live : List Document → String → Option Document
find_live ds id = find? (λ d. has_id id d && not d.deleted) ds

abbrev pub get_in : Option Collection → String → Option Document
get_in none id = none
get_in (some coll) id = find_live coll.documents id

unfoldable pub get : Cassette → String → String → Option Document
get c collection id = get_in (Map.get c.collections collection) id

unfoldable pub scan : Cassette → String → List Document
scan c collection = or_nothing (Map.get c.collections collection) (λ coll. live coll.documents)

abbrev pub is_text : Option String → String → Bool
is_text none val = false
is_text (some s) val = str_eq s val

abbrev pub text_is : Option Value → String → Bool
text_is none val = false
text_is (some value) val = is_text (as_str value) val

-- The documents whose value at the key is the text.
abbrev pub matching : String → String → List Document → List Document
matching key val ds = retain (λ d. text_is (value_get d.content key) val) (live ds)

abbrev pub listed_docs : Option (List String) → List Document → List Document
listed_docs none ds = []
listed_docs (some ids) ds = retain (λ d. not d.deleted && contains ids d.id) ds

abbrev pub through_index : Option SecondaryIndex → String → String → List Document → List Document
through_index none key val ds = matching key val ds
through_index (some index) key val ds = listed_docs (Map.get index val) ds

abbrev pub query_parts : Collection → List String → List Document
query_parts coll (left ∷ right ∷ []) =
    let key = trim left in
    through_index (Map.get coll.secondary_indexes key) key (trim_quotes (trim right)) coll.documents
query_parts coll _ = live coll.documents

unfoldable pub query : Cassette → String → String → List Document
query c collection filter =
    or_nothing (Map.get c.collections collection) (λ coll. query_parts coll (split_char 61 filter))

abbrev pub query_owned_parts : Collection → List String → List Document
query_owned_parts coll (left ∷ right ∷ []) =
    matching (trim left) (trim_quotes (trim right)) coll.documents
query_owned_parts coll _ = live coll.documents

unfoldable pub query_owned : Cassette → String → String → List Document
query_owned c collection filter =
    or_nothing (Map.get c.collections collection)
      (λ coll. query_owned_parts coll (split_char 61 filter))

unfoldable pub scan_owned : Cassette → String → List Document
scan_owned c collection =
    or_nothing (Map.get c.collections collection) (λ coll. live coll.documents)

unfoldable pub get_owned : Cassette → String → String → Option Document
get_owned c collection id = get_in (Map.get c.collections collection) id

-- What a JSONPath selects in a value: none where the path is refused.
abbrev pub selects : Option Value → Bool
selects none = false
selects (some null) = false
selects (some (array no_values)) = false
selects (some value) = true

unfoldable pub query_jsonpath :
    (Value → String → Option Value) → Cassette → String → String → List Document
query_jsonpath at_path c collection path =
    or_nothing (Map.get c.collections collection)
      (λ coll. retain (λ d. selects (at_path d.content path)) (live coll.documents))
