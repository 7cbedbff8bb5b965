-- ===== src/Shard/Examples.antt =====
-- shard.rs on a map of two shards.
use cassettedb.Prelude.{
  ℕ, ◌+◌, true, map, length, ◌≡◌, ◌≢◌, refl, String, List, [], ◌∷◌, some, str_eq,
}
use cassettedb.Prelude.Map
use cassettedb.Prelude.Map.{get}
use cassettedb.Shard.ShardMap.{ShardMap}
use cassettedb.Shard.Allocator.{reassign_failed_node, Reassigned, reassign_failed_node-Reassigned}
use cassettedb.Bytes.{read_exact}
use cassettedb.Bytes.Text.{text_bytes}
use cassettedb.Wal.Records.{append_record, encode_raw}
use cassettedb.Wal.Committed.{commit_record}
use cassettedb.Engine.Operations.{Doc, write_log}
use cassettedb.Engine.Operations
use cassettedb.Engine.Commands.{Command, insert_doc}
use cassettedb.Engine.Examples.{services, new, text_doc}
use cassettedb.Shard.Router
use cassettedb.Shard.Router.{
  Hashing, ShardRouter, shard_for, add_shards, add_virtual, ring_insert, at_least, hash_key,
  xor_bits,
}
use cassettedb.Shard.Routing.{KeptOr, shard_for-add_shards}
use cassettedb.Shard.Documents.{run, described, run-get}
use cassettedb.Prelude.Names.{Among}
use cassettedb.Query.Types.{all}
use cassettedb.Query.Matches.{execute, matches}
use cassettedb.Query.Examples.{naturals}
use cassettedb.Engine.Queries.{query}
use cassettedb.Shard.Queries.{query_all, sort_by_id}
use cassettedb.Shard.Merged.{in_order, passing, passing_engines, query_all-merged}

abbrev two_shards : ShardMap
two_shards = record { virtual_nodes = 150; shard_to_node = ("s0", "a") ∷ ("s1", "b") ∷ [] }

reassign_run :
    (reassign_failed_node two_shards "a" ("b" ∷ "c" ∷ [])).shard_to_node
    ≡ ("s0", "b") ∷ ("s1", "b") ∷ []
unfolding reassign_failed_node
reassign_run = refl

some_node : ◌≢◌ {A = List String} ("b" ∷ "c" ∷ []) []
some_node h = cc h

reassign_failed_node-Reassigned_example :
    Reassigned "a"
      ("b" ∷ "c" ∷ [])
      (get two_shards.shard_to_node "s0")
      (get (reassign_failed_node two_shards "a" ("b" ∷ "c" ∷ [])).shard_to_node "s0")
reassign_failed_node-Reassigned_example =
    reassign_failed_node-Reassigned two_shards "a" ("b" ∷ "c" ∷ []) "s0" some_node

abbrev sum : List ℕ → ℕ
sum [] = 0
sum (x ∷ xs) = x + sum xs

abbrev hashing : Hashing
hashing = record { finish = λ s. sum (text_bytes s); virtual_name = λ s v. s }

shard_for-add_shards_example :
    ((t : String) × (shard_for hashing (add_shards hashing 2 [] ("s0" ∷ "s1" ∷ [])) "doc" ≡ some t)
      × Among t ("s0" ∷ "s1" ∷ []))
    × KeptOr "s2"
        (shard_for hashing (add_shards hashing 2 [] ("s0" ∷ "s1" ∷ "s2" ∷ [])) "doc")
        (shard_for hashing (add_shards hashing 2 [] ("s0" ∷ "s1" ∷ [])) "doc")
shard_for-add_shards_example = shard_for-add_shards hashing 1 "s0" ("s1" ∷ []) "s2" "doc"

abbrev router : ShardRouter Unit
router = record {
  shard_map = two_shards;
  ring = (7, "s0") ∷ (9, "s1") ∷ [];
  engines = ("s0", new) ∷ ("s1", new) ∷ [];
}

abbrev insertion : Command
insertion = insert_doc (text_doc "a" "x") "" 0

insertion_succeeds : (run hashing services router insertion).1 ≡ true
unfolding Router.insert shard_for at_least hash_key xor_bits Operations.insert write_log
    commit_record append_record read_exact encode_raw Map.get
insertion_succeeds = refl

named_a : ◌≢◌ {A = String} "a" ""
named_a h = cc h

run-get_example :
    Router.get hashing services (run hashing services router insertion).0 "a"
    ≡ described hashing services insertion (Router.get hashing services router) "a"
run-get_example = run-get hashing services router insertion "a" named_a insertion_succeeds

abbrev holding : List String → Router.ShardRouter Unit
holding names = record router {
  engines =
      ("s0", record new { docs = map (λ n. (n, text_doc n n)) names })
      ∷ ("s1", record new { docs = ("b", text_doc "b" "b") ∷ [] })
      ∷ [];
}

merged_run :
    map (λ d. d.id) (query_all naturals services (holding ("c" ∷ "a" ∷ [])) all).documents
    ≡ "a" ∷ "b" ∷ "c" ∷ []
unfolding query_all query execute matches sort_by_id
merged_run = refl

query_all-merged_example :
    (in_order (query_all naturals services (holding ("c" ∷ "a" ∷ [])) all).documents ≡ true)
    × ((query_all naturals services (holding ("c" ∷ "a" ∷ [])) all).count
        ≡ length (query_all naturals services (holding ("c" ∷ "a" ∷ [])) all).documents)
    × (passing
          (λ d. str_eq d.id "a")
          (query_all naturals services (holding ("c" ∷ "a" ∷ [])) all).documents
        ≡ passing_engines naturals services
            (λ d. str_eq d.id "a")
            (Map.values (holding ("c" ∷ "a" ∷ [])).engines)
            all)
query_all-merged_example =
    query_all-merged naturals services (holding ("c" ∷ "a" ∷ [])) all (λ d. str_eq d.id "a")
