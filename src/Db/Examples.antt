-- ===== src/Db/Examples.antt =====
-- db.rs on a collection of three documents.
use cassettedb.Prelude.{◌+◌, ◌≡◌, refl, true, List, [], ◌∷◌, Option, none, some, String, map}
use cassettedb.Prelude.Map
use cassettedb.Prelude.Map.{Map}
use cassettedb.Prelude.Texts.{split_char, trim_start_matches, trim_end_matches}
use cassettedb.Json.{Value, text, object, no_fields, field_then, get_field}
use cassettedb.Index.Inverted.{drop_token}
use cassettedb.Db.Indexes.{
  index_document, index_secondary, add_to_secondary_index, remove_from_secondary_index,
  remove_from_secondary_index_all, remove_from_index, push_sorted, push_token,
}
use cassettedb.Db.Types.{Document, Collection, Cassette, Library}
use cassettedb.Db.Operations.{
  Stamp, stamped, or_collection, new, insert, create_index, update, delete, compact, live,
}
use cassettedb.Db.Queries
use cassettedb.Db.Search.{search, query_range, sort_scores, find_all, entries_of, find_entries}
use cassettedb.Db.Reached.{
  Reached, started, inserted, index_created, updated, deleted, reached-Indexed,
}
use cassettedb.Db.Invariant.{Indexed}
use cassettedb.Db.Scanned.{query-query_owned}
use cassettedb.Db.Visible.{all_live, queries-all_live}
use cassettedb.Json.{value_get}
use cassettedb.Db.Calls.{after_call, perform, perform-get, insert_call}
use cassettedb.Prelude.{ap, sym, arith}
use cassettedb.Prelude.Errors.{Result, ok, err, serialization, CassetteError}
use cassettedb.Bytes.{Bytes}
use cassettedb.Bytes.Little.{little}
use cassettedb.Bytes.Text.{text_bytes, text_of, text_of-text_bytes}
use cassettedb.Wal.Records.{WalEntry, begin, commit, abort}
use cassettedb.Db.Recovery.{Disk, Files, open_with_wal}
use cassettedb.Db.Unrecovered.{open_with_wal-Unrecovered}
use cassettedb.Db.Reads.{compact-reads, stored}

abbrev lib : Library
lib = record { to_json = λ v. "null"; tokens = λ s. split_char 32 s }

abbrev stamp : String → Stamp
stamp id = record { id = id; created_at = "t0"; updated_at = "t0" }

abbrev person : String → Value
person name = object (field_then "name" (text name) no_fields)

abbrev db1 : Cassette
db1 = (insert lib new (stamp "1") "people" (person "ada")).0

abbrev db2 : Cassette
db2 = after_call db1 (create_index lib db1 "people" "name")

abbrev db3 : Cassette
db3 = (insert lib db2 (stamp "2") "people" (person "bob")).0

abbrev db4 : Cassette
db4 = after_call db3 (update lib db3 "t1" "people" "1" (person "bob"))

abbrev db5 : Cassette
db5 = after_call db4 (delete db4 "t2" "people" "2")

abbrev get_path : Value → String → Option Value
get_path = value_get

abbrev ids : List Document → List String
ids = map (λ d. d.id)

query_run :
    (ids (Queries.query db4 "people" "name = \"bob\"") ≡ "1" ∷ "2" ∷ [])
    × (ids (Queries.query db5 "people" "name = \"bob\"") ≡ "1" ∷ [])
unfolding insert create_index update delete Map.get Map.insert Map.insert_sorted Map.contains_key
    Map.remove live index_document index_secondary add_to_secondary_index
    remove_from_secondary_index remove_from_secondary_index_all remove_from_index push_sorted
    push_token drop_token split_char trim_start_matches trim_end_matches get_field Queries.query
query_run = (refl, refl)

-- The databases that the calls lead to.
db3_reached : Reached lib db3
unfolding insert create_index update delete Map.get Map.insert Map.insert_sorted Map.contains_key
    Map.remove live index_document index_secondary add_to_secondary_index
    remove_from_secondary_index remove_from_secondary_index_all remove_from_index push_sorted
    push_token drop_token split_char trim_start_matches trim_end_matches get_field
db3_reached =
    inserted (stamp "2") "people" (person "bob")
      (index_created "people" "name" (inserted (stamp "1") "people" (person "ada") started refl)
        refl)
      refl

db5_reached : Reached lib db5
unfolding insert create_index update delete Map.get Map.insert Map.insert_sorted Map.contains_key
    Map.remove live index_document index_secondary add_to_secondary_index
    remove_from_secondary_index remove_from_secondary_index_all remove_from_index push_sorted
    push_token drop_token split_char trim_start_matches trim_end_matches get_field
db5_reached =
    deleted "t2" "people" "2" true (updated "t1" "people" "1" (person "bob") true db3_reached refl)
      refl

abbrev people : Collection
people = or_collection (Map.get db5.collections "people") "people"

reached-Indexed_example : Indexed lib people
unfolding insert create_index update delete Map.get Map.insert Map.insert_sorted Map.contains_key
    Map.remove live index_document index_secondary add_to_secondary_index
    remove_from_secondary_index remove_from_secondary_index_all remove_from_index push_sorted
    push_token drop_token split_char trim_start_matches trim_end_matches get_field
reached-Indexed_example = reached-Indexed lib "people" db5_reached refl

query-query_owned_example :
    Queries.query db5 "people" "name = \"bob\"" ≡ Queries.query_owned db5 "people" "name = \"bob\""
unfolding insert create_index update delete Map.get Map.insert Map.insert_sorted Map.contains_key
    Map.remove live index_document index_secondary add_to_secondary_index
    remove_from_secondary_index remove_from_secondary_index_all remove_from_index push_sorted
    push_token drop_token split_char trim_start_matches trim_end_matches get_field
query-query_owned_example = query-query_owned lib "people" "name = \"bob\"" db5_reached refl

perform-get_example :
    Queries.get (perform lib db5 (insert_call (stamp "3") "people" (person "eve"))) "people" "3"
    ≡ some (stamped (stamp "3") (person "eve"))
unfolding insert create_index update delete Map.get Map.insert Map.insert_sorted Map.contains_key
    Map.remove live index_document index_secondary add_to_secondary_index
    remove_from_secondary_index remove_from_secondary_index_all remove_from_index push_sorted
    push_token drop_token split_char trim_start_matches trim_end_matches get_field
perform-get_example =
    perform-get lib (insert_call (stamp "3") "people" (person "eve")) "people" "3" db5_reached refl

compact-reads_example :
    (Queries.get (compact lib db5).0 "people" "1" ≡ Queries.get db5 "people" "1")
    × (Queries.scan (compact lib db5).0 "people" ≡ Queries.scan db5 "people")
    × (stored (compact lib db5).0.collections + (compact lib db5).1 ≡ stored db5.collections)
compact-reads_example = compact-reads lib db5 "people" "1"

search_run : ids (search lib db5 "people" "bob ada") ≡ "1" ∷ []
unfolding insert create_index update delete Map.get Map.insert Map.insert_sorted Map.contains_key
    Map.remove live index_document index_secondary add_to_secondary_index
    remove_from_secondary_index remove_from_secondary_index_all remove_from_index push_sorted
    push_token drop_token split_char trim_start_matches trim_end_matches get_field search
    sort_scores find_all
search_run = refl

range_run : ids (query_range lib db4 "people" "name" ">=" "bob") ≡ "2" ∷ "1" ∷ []
unfolding insert create_index update delete Map.get Map.insert Map.insert_sorted Map.contains_key
    Map.remove live index_document index_secondary add_to_secondary_index
    remove_from_secondary_index remove_from_secondary_index_all remove_from_index push_sorted
    push_token drop_token split_char trim_start_matches trim_end_matches get_field query_range
    entries_of find_entries find_all
range_run = refl

-- A codec that writes the start of a transaction only.
abbrev begin_to_vec : WalEntry Value → Result Bytes
begin_to_vec (begin t) = ok (t ∷ [])
begin_to_vec _ = err serialization

abbrev begin_from_slice : Bytes → Option (WalEntry Value)
begin_from_slice (t ∷ []) = some (begin t)
begin_from_slice _ = none

begin_from_slice_of :
    (e : WalEntry Value) {payload : Bytes}
    → begin_to_vec e ≡ ok payload
    → begin_from_slice payload ≡ some e
begin_from_slice_of (begin t) {payload} h =
    (let same : t ∷ [] ≡ payload = cc h in ap begin_from_slice (sym same))
begin_from_slice_of (commit t) h = cc h
begin_from_slice_of (abort t) h = cc h
begin_from_slice_of (WalEntry.insert t c d) h = cc h
begin_from_slice_of (WalEntry.update t c i d) h = cc h
begin_from_slice_of (WalEntry.delete t c i) h = cc h

abbrev disk : Disk
disk = record {
  codec = record {
    order = little;
    crc32 = λ payload. 0;
    to_vec = begin_to_vec;
    from_slice = begin_from_slice;
    as_bytes = text_bytes;
    from_utf8_lossy = text_of;
    from_utf8_lossy-as_bytes = text_of-text_bytes;
    as_bytes_tx = refl;
    crc32_lt = λ payload. omega arith;
    from_slice-to_vec = begin_from_slice_of;
  };
  from_file = λ bytes. some new;
  to_file = λ c. 123 ∷ 125 ∷ [];
  clock = λ n. stamp "1";
}

abbrev files : Files
files = record { database = some (123 ∷ 125 ∷ []); log = some (67 ∷ 87 ∷ 76 ∷ 49 ∷ 1 ∷ 0 ∷ []) }

open_with_wal-Unrecovered_example :
    (reason : CassetteError) × (open_with_wal lib disk files ≡ some (err reason))
open_with_wal-Unrecovered_example = open_with_wal-Unrecovered lib disk files refl (125 ∷ [], refl)

queries-all_live_example :
    (all_live (Queries.query db5 "people" "bob ada") ≡ true)
    × (all_live (query_range lib db5 "people" "name" ">=" "bob") ≡ true)
    × (all_live (Queries.query_jsonpath get_path db5 "people" "bob ada") ≡ true)
    × (all_live (search lib db5 "people" "bob ada") ≡ true)
queries-all_live_example = queries-all_live lib get_path db5 "people" "bob ada" "name" ">=" "bob"
