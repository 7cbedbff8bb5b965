-- ===== src/Index/Examples.antt =====
-- index.rs on a small index whose texts are single tokens.
use cassettedb.Prelude.{◌≡◌, refl, ◌&&◌, not, all, false, String, List, [], ◌∷◌}
use cassettedb.Prelude.Map
use cassettedb.Json.{Value, text, array, value_then, no_values}
use cassettedb.Index.Inverted.{
  InvertedIndex, index_document, remove_document, search, index_value, add_token, contains,
  is_empty,
}
use cassettedb.Index.Contents.{listed}
use cassettedb.Index.Search.{remove_document-index_document, search_lem}

abbrev whole : String → List String
whole s = s ∷ []

abbrev empty : InvertedIndex
empty = record { map = [] }

abbrev two_words : Value
two_words = array (value_then (text "rust") (value_then (text "tape") no_values))

search_run :
    search whole
      (index_document whole (index_document whole empty "d" two_words) "e" (text "rust"))
      "rust"
    ≡ "d" ∷ "e" ∷ []
unfolding search index_document index_value add_token Map.insert Map.get
search_run = refl

empty_fresh : (t : String) → listed empty.map t "d" ≡ false
unfolding Map.get
empty_fresh t = refl

remove_document-index_document_example :
    listed
      (remove_document whole (index_document whole empty "d" two_words) "d" two_words).map
      "tape"
      "d"
    ≡ listed empty.map "tape" "d"
remove_document-index_document_example =
    remove_document-index_document whole empty "d" two_words "tape" "d" empty_fresh

search_lem_example :
    contains (search whole (index_document whole empty "d" two_words) "rust") "d" ≡ (
      not (is_empty (whole "rust"))
      && all (λ t. listed (index_document whole empty "d" two_words).map t "d") (whole "rust"))
search_lem_example = search_lem whole (index_document whole empty "d" two_words) "rust" "d"
