-- ===== src/Query/Matches.antt =====
-- query.rs: which documents a query selects.
use cassettedb.Prelude.{
  Option, none, some, String, List, [], ◌∷◌, Bool, true, false, ◌&&◌, ◌||◌, retain, length,
}
use cassettedb.Document.{Document}
use cassettedb.Json.{Value, number, value_get, value_eq}
use cassettedb.Index.Inverted
use cassettedb.Index.Inverted.{InvertedIndex, contains}
use cassettedb.Query.Types.{Floats, Query, all, eq, gt, lt, gte, lte, search, and, or, QueryResult}

abbrev pub field_of : Option Value → String → Option Value
field_of (some value) segment = value_get value segment
field_of none segment = none

-- What the rest of a path leads to, from the value that it has led to so far.
abbrev pub resolve : List String → Option Value → Option Value
resolve [] current = current
resolve (segment ∷ path) current = resolve path (field_of current segment)

unfoldable pub resolve_path : Value → List String → Option Value
resolve_path value path = resolve path (some value)

module _ (fl : Floats) where
  -- `got == Some(value)`
  abbrev pub is_value : Option Value → Value → Bool
  is_value none value = false
  is_value (some got) value = value_eq fl.number_eq got value

  abbrev pub number_at : Option Value → Option fl.F64
  number_at (some (number n)) = fl.as_f64 n
  number_at _ = none

  unfoldable pub resolve_number : Value → List String → Option fl.F64
  resolve_number value path = number_at (resolve_path value path)

  abbrev pub is_some_and : Option fl.F64 → (fl.F64 → Bool) → Bool
  is_some_and none p = false
  is_some_and (some v) p = p v

  module _ (tokenize : String → List String) (ft_index : InvertedIndex) where
    unfoldable pub matches : Query fl.F64 → Document Value → Bool
    matches all doc = true
    matches (eq path value) doc = is_value (resolve_path doc.content path) value
    matches (gt path value) doc = is_some_and (resolve_number doc.content path) (λ v. fl.lt value v)
    matches (lt path value) doc = is_some_and (resolve_number doc.content path) (λ v. fl.lt v value)
    matches (gte path value) doc =
        is_some_and (resolve_number doc.content path) (λ v. fl.le value v)
    matches (lte path value) doc =
        is_some_and (resolve_number doc.content path) (λ v. fl.le v value)
    matches (search term) doc = contains (Inverted.search tokenize ft_index term) doc.id
    matches (and a b) doc = matches a doc && matches b doc
    matches (or a b) doc = matches a doc || matches b doc

    unfoldable pub execute : Query fl.F64 → List (Document Value) → QueryResult
    execute q docs =
        let matched = retain (matches q) docs in
        record { documents = matched; count = length matched }
