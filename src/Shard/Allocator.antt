-- ===== src/Shard/Allocator.antt =====
-- shard.rs, `ShardAllocator`: the reassignment of the shards of a failed node.
use cassettedb.Prelude.{
  subst, ℕ, zero, suc, ◌+◌, ◌%◌, ◌≡◌, ◌≢◌, refl, sym, ap, ◌∙◌, String, Option, none, some, List, [],
  ◌∷◌, length, get_elem?, str_eq, if◌then◌else◌, arith, Bool, true, false, Bool-cases, inl, inr,
  get_elem?-some,
}
use cassettedb.Prelude.Map.{Map, get, get-insert_sorted, get-remove}
use cassettedb.Prelude.Names.{Among}
use cassettedb.Shard.ShardMap.{ShardMap, new_map, add_shard, remove_shard, node_for_shard, owned}

abbrev or_empty : Option String → String
or_empty none = ""
or_empty (some n) = n

-- `healthy_nodes[idx % healthy_nodes.len()]`, whose index is in range.
abbrev pub node_at : List String → ℕ → String
node_at nodes idx = or_empty (get_elem? nodes (idx % length nodes))

-- `if node_ids.is_empty() { String::new() } else { … }`
abbrev pub owner_at : List String → ℕ → String
owner_at [] i = ""
owner_at (n ∷ ns) i = node_at (n ∷ ns) i

-- The loop of `allocate` with `n` shards left from number `i` on; `format!` of a shard's name is a
-- parameter.
abbrev pub allocate_from : (ℕ → String) → List String → ℕ → ℕ → ShardMap → ShardMap
allocate_from shard_name node_ids zero i m = m
allocate_from shard_name node_ids (suc n) i m =
    allocate_from shard_name node_ids n (suc i)
      (add_shard m (shard_name i) (some (owner_at node_ids i)))

unfoldable pub allocate : (ℕ → String) → ℕ → List String → ShardMap
allocate shard_name num_shards node_ids =
    allocate_from shard_name node_ids num_shards 0 (new_map 150)

unfoldable pub reassign_values : String → List String → ℕ → Map String → Map String
reassign_values failed healthy idx [] = []
reassign_values failed healthy idx ((shard, node) ∷ m) =
    (shard, if str_eq node failed then node_at healthy idx else node)
    ∷ reassign_values failed healthy (if str_eq node failed then idx + 1 else idx) m

unfoldable pub reassign_failed_node : ShardMap → String → List String → ShardMap
unfolding reassign_values
reassign_failed_node m failed [] = m
reassign_failed_node m failed (n ∷ ns) = record m {
  shard_to_node = reassign_values failed (n ∷ ns) 0 m.shard_to_node;
}

Among-get_elem? : (xs : List String) (i : ℕ) {x : String} → get_elem? xs i ≡ some x → Among x xs
Among-get_elem? [] i h = cc h
Among-get_elem? (y ∷ xs) zero {x} h = inl (let e : y ≡ x = cc h in sym e)
Among-get_elem? (y ∷ xs) (suc i) h = inr (Among-get_elem? xs i h)

node_at-Among : (n : String) (ns : List String) (idx : ℕ) → Among (node_at (n ∷ ns) idx) (n ∷ ns)
node_at-Among n ns idx =
    let (x, found) = get_elem?-some (n ∷ ns) (idx % length (n ∷ ns)) (omega arith) in
    subst (λ y. Among y (n ∷ ns)) (sym (ap or_empty found))
      (Among-get_elem? (n ∷ ns) (idx % length (n ∷ ns)) found)

-- What becomes of the owner of a shard.
abbrev pub Reassigned : String → List String → Option String → Option String → Type 0
Reassigned failed healthy none after = after ≡ none
Reassigned failed healthy (some node) after =
    (node' : String) × (after ≡ some node')
    × (if str_eq node failed then Among node' healthy else (node' ≡ node))

-- The node of a shard after its round of the loop.
owner_after :
    (hit : Bool) (n : String) (ns : List String) (idx : ℕ) (node : String)
    → (if hit
        then Among (if hit then node_at (n ∷ ns) idx else node) (n ∷ ns)
        else ((if hit then node_at (n ∷ ns) idx else node) ≡ node))
owner_after true n ns idx node = node_at-Among n ns idx
owner_after false n ns idx node = refl

reassign_values-Reassigned :
    (failed n : String) (ns : List String) (idx : ℕ) (m : Map String) (shard : String)
    → Reassigned failed (n ∷ ns) (get m shard) (get (reassign_values failed (n ∷ ns) idx m) shard)
unfolding get reassign_values
reassign_values-Reassigned failed n ns idx [] shard = refl
reassign_values-Reassigned failed n ns idx ((s, node) ∷ m) shard =
    elim (Bool-cases (str_eq s shard)) [
      | inl e ↦ rw e (
        (if str_eq node failed then node_at (n ∷ ns) idx else node),
        refl,
        owner_after (str_eq node failed) n ns idx node,
      )
      | inr e ↦ rw e (
          reassign_values-Reassigned failed n ns (if str_eq node failed then idx + 1 else idx) m
            shard)
    ]

-- Where there is a healthy node, a shard of the failed node gets a healthy one, every other shard
-- keeps its node, and no shard is added.
pub reassign_failed_node-Reassigned :
    (m : ShardMap) (failed : String) (healthy : List String) (shard : String)
    → healthy ≢ []
    → Reassigned failed healthy
        (get m.shard_to_node shard)
        (get (reassign_failed_node m failed healthy).shard_to_node shard)
unfolding reassign_failed_node
reassign_failed_node-Reassigned m failed [] shard h = absurd (h refl)
reassign_failed_node-Reassigned m failed (n ∷ ns) shard h =
    reassign_values-Reassigned failed n ns 0 m.shard_to_node shard

-- A shard is found with the node that it was last added with, unless that is empty; a removed
-- shard is not found, and neither operation changes the node of another shard.
pub node_for_shard-add_remove :
    (m : ShardMap) (shard other node : String)
    → (node_for_shard (add_shard m shard (some node)) other
        ≡ (if str_eq shard other then owned (some node) else node_for_shard m other))
      × (node_for_shard (remove_shard m shard) other
          ≡ (if str_eq shard other then none else node_for_shard m other))
unfolding node_for_shard add_shard remove_shard
node_for_shard-add_remove m shard other node = (
  ap owned (get-insert_sorted m.shard_to_node shard other node)
      ∙ (elim (Bool-cases (str_eq shard other)) [ inl e ↦ rw e refl | inr e ↦ rw e refl ]),
  ap owned (get-remove m.shard_to_node shard other)
      ∙ (elim (Bool-cases (str_eq shard other)) [ inl e ↦ rw e refl | inr e ↦ rw e refl ]),
)
