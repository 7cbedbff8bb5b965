-- ===== src/Db/Indexes.antt =====
-- db.rs: the secondary indexes and the inverted index of a collection.
use cassettedb.Prelude.{true, false, Option, none, some, String, List, [], ◌∷◌, ◌++◌, retain}
use cassettedb.Prelude.Map
use cassettedb.Prelude.Map.{Map}
use cassettedb.Json.{Value, Fields, boolean, number, text, object, no_fields, field_then, value_get}
use cassettedb.Index.Inverted.{Postings, or_default, set_remove, drop_token}
use cassettedb.Db.Types.{Document, InvertedIndex, SecondaryIndex, Library}

-- `iter_mut` and `values_mut`
abbrev pub map_entries {ℓ} : {V : Type ℓ} → (String → V → V) → Map V → Map V
map_entries f [] = []
map_entries f ((k, v) ∷ m) = (k, f k v) ∷ map_entries f m

-- `entry(key).or_default().push(id)`, in order of the keys and not.
unfoldable pub push_sorted : SecondaryIndex → String → String → SecondaryIndex
push_sorted index key id = Map.insert_sorted index key (or_default (Map.get index key) ++ id ∷ [])

unfoldable pub push_token : Postings → String → String → Postings
push_token m token id = Map.insert m token (or_default (Map.get m token) ++ id ∷ [])

abbrev pub push_tokens : Postings → String → List String → Postings
push_tokens m id [] = m
push_tokens m id (t ∷ ts) = push_tokens (push_token m t id) id ts

abbrev pub or_empty : Option Postings → Postings
or_empty none = []
or_empty (some m) = m

-- `retain(|_, m| !m.is_empty())`
abbrev pub drop_empty {ℓ} : {V : Type ℓ} → Map (List V) → Map (List V)
drop_empty = retain (λ e. elim e.1 [ [] ↦ false | _ ↦ true ])

abbrev pub remove_id : String → Postings → Postings
remove_id id m = drop_empty (map_entries (λ token ids. set_remove ids id) m)

unfoldable pub remove_from_index : InvertedIndex → String → InvertedIndex
remove_from_index inverted_index id =
    drop_empty (map_entries (λ field m. remove_id id m) inverted_index)

module _ (lib : Library) where
  abbrev pub value_to_index_key : Value → String
  value_to_index_key (text s) = s
  value_to_index_key (number n) = n
  value_to_index_key (boolean true) = "true"
  value_to_index_key (boolean false) = "false"
  value_to_index_key value = lib.to_json value

  abbrev pub add_at : SecondaryIndex → String → Option Value → SecondaryIndex
  add_at index id none = index
  add_at index id (some value) = push_sorted index (value_to_index_key value) id

  unfoldable pub add_to_secondary_index : SecondaryIndex → String → Document → SecondaryIndex
  add_to_secondary_index index field doc = add_at index doc.id (value_get doc.content field)

  -- The ids without the document's; a key whose ids are all gone goes too.
  abbrev pub remove_at : SecondaryIndex → String → Option Value → SecondaryIndex
  remove_at index id none = index
  remove_at index id (some value) = drop_token index id (value_to_index_key value)

  unfoldable pub remove_from_secondary_index : SecondaryIndex → String → Document → SecondaryIndex
  remove_from_secondary_index index field doc = remove_at index doc.id (value_get doc.content field)

  unfoldable pub index_secondary : Map SecondaryIndex → Document → Map SecondaryIndex
  index_secondary secondary_indexes doc =
      map_entries (λ field index. add_to_secondary_index index field doc) secondary_indexes

  unfoldable pub remove_from_secondary_index_all :
      Map SecondaryIndex → Document → Map SecondaryIndex
  remove_from_secondary_index_all secondary_indexes doc =
      map_entries (λ field index. remove_from_secondary_index index field doc) secondary_indexes

  unfoldable pub reindex_secondary : Map SecondaryIndex → Document → Map SecondaryIndex
  reindex_secondary secondary_indexes doc =
      map_entries
        (λ field index.
          add_to_secondary_index (remove_from_secondary_index index field doc) field doc)
        secondary_indexes

  abbrev pub index_text : InvertedIndex → String → String → Value → InvertedIndex
  index_text inverted_index id field (text s) =
      Map.insert inverted_index field
        (push_tokens (or_empty (Map.get inverted_index field)) id (lib.tokens s))
  index_text inverted_index id field _ = inverted_index

  abbrev pub index_fields : InvertedIndex → String → Fields → InvertedIndex
  index_fields inverted_index id no_fields = inverted_index
  index_fields inverted_index id (field_then field value fields) =
      index_fields (index_text inverted_index id field value) id fields

  abbrev pub index_value : InvertedIndex → String → Value → InvertedIndex
  index_value inverted_index id (object fields) = index_fields inverted_index id fields
  index_value inverted_index id _ = inverted_index

  -- Only the texts among the fields of the object itself are indexed.
  unfoldable pub index_document : InvertedIndex → Document → InvertedIndex
  index_document inverted_index doc = index_value inverted_index doc.id doc.content
