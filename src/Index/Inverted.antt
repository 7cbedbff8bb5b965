-- ===== src/Index/Inverted.antt =====
-- index.rs: `InvertedIndex`. A HashSet of ids is a list of them. The Unicode functions with which
-- `tokenize` splits a text are a parameter.
use cassettedb.Prelude.{
  Bool, true, false, not, Option, none, some, String, List, [], ◌∷◌, ◌++◌, any, retain, str_eq,
  if◌then◌else◌,
}
use cassettedb.Prelude.Map
use cassettedb.Prelude.Map.{Map}
use cassettedb.Json.{
  Value, Values, Fields, text, array, object, no_values, value_then, no_fields, field_then,
}

abbrev pub Postings : Type 0
Postings = Map (List String)

pub record InvertedIndex : Type 0 where
  pub map : Postings

abbrev pub contains : List String → String → Bool
contains ids id = any (λ x. str_eq x id) ids

-- `HashSet::insert`
abbrev pub set_insert : List String → String → List String
set_insert ids id = if contains ids id then ids else ids ++ id ∷ []

-- `HashSet::remove`
abbrev pub set_remove : List String → String → List String
set_remove ids id = retain (λ x. not (str_eq x id)) ids

abbrev pub or_default : Option (List String) → List String
or_default none = []
or_default (some ids) = ids

abbrev pub is_empty : List String → Bool
is_empty [] = true
is_empty (x ∷ xs) = false

-- `entry(token).or_default().insert(doc_id)`
unfoldable pub add_token : Postings → String → String → Postings
add_token m doc_id token = Map.insert m token (set_insert (or_default (Map.get m token)) doc_id)

abbrev pub keep_set : Postings → String → List String → Postings
keep_set m token ids = if is_empty ids then Map.remove m token else Map.insert m token ids

abbrev pub shrink : Postings → String → String → Option (List String) → Postings
shrink m doc_id token none = m
shrink m doc_id token (some ids) = keep_set m token (set_remove ids doc_id)

unfoldable pub drop_token : Postings → String → String → Postings
drop_token m doc_id token = shrink m doc_id token (Map.get m token)

abbrev pub add_tokens : Postings → String → List String → Postings
add_tokens m doc_id [] = m
add_tokens m doc_id (t ∷ ts) = add_tokens (add_token m doc_id t) doc_id ts

abbrev pub drop_tokens : Postings → String → List String → Postings
drop_tokens m doc_id [] = m
drop_tokens m doc_id (t ∷ ts) = drop_tokens (drop_token m doc_id t) doc_id ts

-- The ids kept so far and the ids of one more token.
abbrev pub narrow : Option (List String) → List String → List String
narrow none ids = ids
narrow (some kept) ids = retain (contains ids) kept

unfoldable pub search_tokens : Postings → Option (List String) → List String → List String
search_tokens m result [] = or_default result
search_tokens m result (t ∷ ts) = elim (Map.get m t) [
  | none ↦ []
  | some ids ↦ search_tokens m (some (narrow result ids)) ts
]

module _ (tokenize : String → List String) where
  unfoldable mutual
    pub index_value : Postings → String → Value → Postings
    index_value m doc_id (text s) = add_tokens m doc_id (tokenize s)
    index_value m doc_id (array vs) = index_values m doc_id vs
    index_value m doc_id (object fs) = index_fields m doc_id fs
    index_value m doc_id _ = m

    pub index_values : Postings → String → Values → Postings
    index_values m doc_id no_values = m
    index_values m doc_id (value_then v vs) = index_values (index_value m doc_id v) doc_id vs

    pub index_fields : Postings → String → Fields → Postings
    index_fields m doc_id no_fields = m
    index_fields m doc_id (field_then k v fs) = index_fields (index_value m doc_id v) doc_id fs

  unfoldable mutual
    pub remove_value : Postings → String → Value → Postings
    remove_value m doc_id (text s) = drop_tokens m doc_id (tokenize s)
    remove_value m doc_id (array vs) = remove_values m doc_id vs
    remove_value m doc_id (object fs) = remove_fields m doc_id fs
    remove_value m doc_id _ = m

    pub remove_values : Postings → String → Values → Postings
    remove_values m doc_id no_values = m
    remove_values m doc_id (value_then v vs) = remove_values (remove_value m doc_id v) doc_id vs

    pub remove_fields : Postings → String → Fields → Postings
    remove_fields m doc_id no_fields = m
    remove_fields m doc_id (field_then k v fs) = remove_fields (remove_value m doc_id v) doc_id fs

  unfoldable pub index_document : InvertedIndex → String → Value → InvertedIndex
  unfolding index_value
  index_document index doc_id value = record { map = index_value index.map doc_id value }

  unfoldable pub remove_document : InvertedIndex → String → Value → InvertedIndex
  unfolding remove_value
  remove_document index doc_id value = record { map = remove_value index.map doc_id value }

  unfoldable pub search : InvertedIndex → String → List String
  unfolding search_tokens
  search index query = search_tokens index.map none (tokenize query)
