-- ===== src/Shard/ShardMap.antt =====
-- shard.rs, `ShardMap`: shard names to owning nodes, in a BTreeMap. No owner is an empty name.
use cassettedb.Prelude.{ℕ, String, Option, none, some, str_eq, if◌then◌else◌, []}
use cassettedb.Prelude.Map
use cassettedb.Prelude.Map.{Map}

pub record ShardMap : Type 0 where
  pub virtual_nodes : ℕ
  pub shard_to_node : Map String

unfoldable pub new_map : ℕ → ShardMap
new_map virtual_nodes = record { virtual_nodes = virtual_nodes; shard_to_node = [] }

abbrev unwrap_or_default : Option String → String
unwrap_or_default none = ""
unwrap_or_default (some s) = s

unfoldable pub add_shard : ShardMap → String → Option String → ShardMap
add_shard m shard_id node_id = record m {
  shard_to_node = Map.insert_sorted m.shard_to_node shard_id (unwrap_or_default node_id);
}

unfoldable pub remove_shard : ShardMap → String → ShardMap
remove_shard m shard_id = record m { shard_to_node = Map.remove m.shard_to_node shard_id }

abbrev pub owned : Option String → Option String
owned none = none
owned (some s) = if str_eq s "" then none else some s

unfoldable pub node_for_shard : ShardMap → String → Option String
node_for_shard m shard_id = owned (Map.get m.shard_to_node shard_id)
