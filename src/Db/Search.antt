-- ===== src/Db/Search.antt =====
-- db.rs: the full-text search and the range queries.
use cassettedb.Prelude.{
  ℕ, suc, Bool, true, false, not, ◌&&◌, Option, none, some, String, List, [], ◌∷◌, ◌++◌, retain,
  str_eq, str_ltb, ltb, if◌then◌else◌,
}
use cassettedb.Prelude.Map
use cassettedb.Prelude.Map.{Map}
use cassettedb.Json.{Value, null, value_get}
use cassettedb.Index.Inverted.{Postings}
use cassettedb.Db.Types.{Document, Collection, Cassette, SecondaryIndex, Library}
use cassettedb.Db.Indexes.{value_to_index_key}
use cassettedb.Db.Operations.{live}
use cassettedb.Db.Queries.{or_nothing, find_live}

abbrev pub or_zero : Option ℕ → ℕ
or_zero none = 0
or_zero (some n) = n

-- `*scores.entry(id).or_insert(0) += 1`
abbrev pub bump : Map ℕ → String → Map ℕ
bump scores id = Map.insert scores id (suc (or_zero (Map.get scores id)))

abbrev pub bump_all : Map ℕ → Option (List String) → Map ℕ
bump_all scores none = scores
bump_all scores (some []) = scores
bump_all scores (some (id ∷ ids)) = bump_all (bump scores id) (some ids)

abbrev pub score_fields : Map ℕ → String → List Postings → Map ℕ
score_fields scores token [] = scores
score_fields scores token (m ∷ ms) = score_fields (bump_all scores (Map.get m token)) token ms

abbrev pub score_tokens : Map ℕ → List String → List Postings → Map ℕ
score_tokens scores [] ms = scores
score_tokens scores (t ∷ ts) ms = score_tokens (score_fields scores t ms) ts ms

-- `sort_by_key(|b| Reverse(b.1))`, which is stable.
abbrev pub place_score : String × ℕ → Map ℕ → Map ℕ
place_score e [] = e ∷ []
place_score e (f ∷ fs) = let rest = place_score e fs in if ltb e.1 f.1 then f ∷ rest else e ∷ f ∷ fs

unfoldable pub sort_scores : Map ℕ → Map ℕ
sort_scores [] = []
sort_scores (e ∷ es) = place_score e (sort_scores es)

abbrev pub found_then : Option Document → List Document → List Document
found_then none ds = ds
found_then (some d) ds = d ∷ ds

-- The documents that are found for ids, those without one left out.
unfoldable pub find_all : List Document → List String → List Document
find_all ds [] = []
find_all ds (id ∷ ids) = found_then (find_live ds id) (find_all ds ids)

abbrev pub search_tokens : Collection → List String → List Document
search_tokens coll [] = live coll.documents
search_tokens coll (t ∷ ts) =
    find_all coll.documents
      (Map.keys (sort_scores (score_tokens [] (t ∷ ts) (Map.values coll.inverted_index))))

-- `index.get(value) == Some(ids)`
abbrev pub texts_eq : List String → List String → Bool
texts_eq [] [] = true
texts_eq (s ∷ ss) (t ∷ ts) = str_eq s t && texts_eq ss ts
texts_eq _ _ = false

abbrev pub is_some_ids : Option (List String) → List String → Bool
is_some_ids none ids = false
is_some_ids (some js) ids = texts_eq js ids

-- The entries of the index whose key passes the test, one after the other.
unfoldable pub entries_of : (String → Bool) → SecondaryIndex → SecondaryIndex
entries_of in_range index = retain (λ e. in_range e.0) index

unfoldable pub find_entries : List Document → SecondaryIndex → List Document
find_entries ds [] = []
find_entries ds ((key, ids) ∷ entries) = find_all ds ids ++ find_entries ds entries

abbrev pub not_exact : SecondaryIndex → String → String × List String → Bool
not_exact index value e = not (is_some_ids (Map.get index value) e.1)

-- The entries of a range query with `>`: not below the value, and not its own.
abbrev pub above_entries : SecondaryIndex → String → SecondaryIndex
above_entries index value =
    retain (not_exact index value) (entries_of (λ k. not (str_ltb k value)) index)

abbrev pub in_range : String → String → String → Bool
in_range op value key =
    if str_eq op ">"
    then str_ltb value key
    else if str_eq op "<"
    then str_ltb key value
    else if str_eq op ">="
    then not (str_ltb key value)
    else if str_eq op "<="
    then not (str_ltb value key)
    else false

module _ (lib : Library) where
  unfoldable pub search : Cassette → String → String → List Document
  search c collection text =
      or_nothing (Map.get c.collections collection) (λ coll. search_tokens coll (lib.tokens text))

  -- `Value::index` gives null for a field that is missing.
  abbrev pub value_or_null : Option Value → Value
  value_or_null none = null
  value_or_null (some value) = value

  abbrev pub is_above : String → String → Document → Bool
  is_above field value d =
      str_ltb value (value_to_index_key lib (value_or_null (value_get d.content field)))

  abbrev pub range_index : SecondaryIndex → String → String → String → List Document → List Document
  range_index index field op value ds =
      if str_eq op ">"
      then retain (is_above field value) (find_entries ds (above_entries index value))
      else find_entries ds (entries_of (in_range op value) index)

  abbrev pub key_in_range : String → String → Option Value → Bool
  key_in_range op value none = false
  key_in_range op value (some v) = in_range op value (value_to_index_key lib v)

  abbrev pub range_scan : String → String → String → List Document → List Document
  range_scan field op value ds =
      retain (λ d. key_in_range op value (value_get d.content field)) (live ds)

  abbrev pub range_in :
      Option SecondaryIndex → String → String → String → List Document → List Document
  range_in none field op value ds = range_scan field op value ds
  range_in (some index) field op value ds = range_index index field op value ds

  unfoldable pub query_range : Cassette → String → String → String → String → List Document
  query_range c collection field op value =
      or_nothing (Map.get c.collections collection)
        (λ coll. range_in (Map.get coll.secondary_indexes field) field op value coll.documents)
