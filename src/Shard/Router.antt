-- ===== src/Shard/Router.antt =====
-- shard.rs, `ShardRouter`. The hash of the standard library and `format!` of a virtual node's name
-- are parameters. The directory is given by the content of the files of each shard. BTreeMaps are
-- lists in the order of their keys.
use cassettedb.Prelude.{
  ℕ, zero, suc, ◌+◌, ◌*◌, ◌/◌, ◌%◌, ◌^◌, Option, none, some, String, List, [], ◌∷◌, leb, ltb, ◌==◌,
  if◌then◌else◌,
}
use cassettedb.Prelude.Map
use cassettedb.Prelude.Map.{Map}
use cassettedb.Prelude.Errors.{Result, ok, err, shard}
use cassettedb.Bytes.{Bytes}
use cassettedb.Json.{Value}
use cassettedb.Shard.ShardMap.{ShardMap, new_map, add_shard}
use cassettedb.Engine.Operations
use cassettedb.Engine.Operations.{Doc, Services, Engine, doc_count}
use cassettedb.Engine.Opening.{open_engine}

abbrev pub Ring : Type 0
Ring = List (ℕ × String)

-- What the router calls of the standard library.
pub record Hashing : Type 0 where
  pub finish : String → ℕ
  pub virtual_name : String → ℕ → String

-- `^` on the lowest `k` bits.
unfoldable pub xor_bits : ℕ → ℕ → ℕ → ℕ
xor_bits zero a b = 0
xor_bits (suc k) a b = (a + b) % 2 + 2 * xor_bits k (a / 2) (b / 2)

-- `BTreeMap::insert`
unfoldable pub ring_insert : Ring → ℕ → String → Ring
ring_insert [] h s = (h, s) ∷ []
ring_insert ((j, t) ∷ ring) h s =
    let rest = ring_insert ring h s in
    if j == h then (h, s) ∷ ring else if ltb h j then (h, s) ∷ (j, t) ∷ ring else (j, t) ∷ rest

-- `ring.range(hash..).next()`
unfoldable pub at_least : Ring → ℕ → Option String
at_least [] h = none
at_least ((j, t) ∷ ring) h = if leb h j then some t else at_least ring h

abbrev pub first : Ring → Option String
first [] = none
first ((j, t) ∷ ring) = some t

abbrev pub or_first : Ring → Option String → Option String
or_first ring none = first ring
or_first ring (some t) = some t

-- The files of a shard: its log, its pages and its change feed.
pub record Files : Type 0 where
  pub wal_file : Bytes
  pub db_file : Bytes
  pub repl_file : Option Bytes

pub record ShardRouter (C : Type 0) : Type 0 where
  pub shard_map : ShardMap
  pub ring : Ring
  pub engines : Map (Engine C)

module _ (hashing : Hashing) where
  -- `ShardRouter::hash_key`
  unfoldable pub hash_key : String → ℕ
  hash_key key = (let full : ℕ = hashing.finish key in xor_bits 32 (full / 2 ^ 32) full)

  -- The loop `for v in 0..virtual_nodes`, with `n` virtual nodes left from `v` on.
  unfoldable pub add_virtual : ℕ → ℕ → Ring → String → Ring
  add_virtual zero v ring s = ring
  add_virtual (suc n) v ring s =
      add_virtual n (suc v) (ring_insert ring (hash_key (hashing.virtual_name s v)) s) s

  unfoldable pub add_shards : ℕ → Ring → List String → Ring
  add_shards n ring [] = ring
  add_shards n ring (s ∷ shards) = add_shards n (add_virtual n 0 ring s) shards

  unfoldable pub shard_for : Ring → String → Option String
  shard_for ring doc_id = or_first ring (at_least ring (hash_key doc_id))

  module _ {V C : Type 0} (svc : Services V C) where
    abbrev opened :
        (Map (Engine C) → Option (Result (Map (Engine C))))
        → Map (Engine C)
        → String
        → Option (Result (Engine C))
        → Option (Result (Map (Engine C)))
    opened again engines s none = none
    opened again engines s (some (err e)) = some (err e)
    opened again engines s (some (ok engine)) = again (Map.insert_sorted engines s engine)

    unfoldable pub open_engines :
        (String → Files) → List String → Map (Engine C) → Option (Result (Map (Engine C)))
    open_engines files [] engines = some (ok engines)
    open_engines files (s ∷ shards) engines =
        (let f = files s in
          opened (open_engines files shards) engines s
            (open_engine svc f.wal_file f.db_file f.repl_file))

    abbrev router_of :
        ShardMap → Ring → Option (Result (Map (Engine C))) → Option (Result (ShardRouter C))
    router_of m ring none = none
    router_of m ring (some (err e)) = some (err e)
    router_of m ring (some (ok engines)) =
        some (ok (record { shard_map = m; ring = ring; engines = engines }))

    -- `ShardRouter::new`; none is an engine whose loops have not ended.
    unfoldable pub new_router : (String → Files) → ShardMap → Option (Result (ShardRouter C))
    new_router files m =
        router_of m (add_shards m.virtual_nodes [] (Map.keys m.shard_to_node))
          (open_engines files (Map.keys m.shard_to_node) [])

    abbrev all_added : ShardMap → List String → ShardMap
    all_added m [] = m
    all_added m (s ∷ shards) = all_added (add_shard m s none) shards

    -- `ShardRouter::with_shards`, from the default map.
    unfoldable pub with_shards : (String → Files) → List String → Option (Result (ShardRouter C))
    with_shards files shards = new_router files (all_added (new_map 150) shards)

    -- An operation of the engine of the document's shard.
    abbrev pub on_engine :
        {A : Type 0}
        → ShardRouter C
        → (Engine C → Engine C × Result A)
        → String
        → Option (Engine C)
        → ShardRouter C × Result A
    on_engine r f s none = (r, err (shard "shard not open"))
    on_engine r f s (some engine) =
        (let (engine', result) = f engine in
          (record r { engines = Map.insert_sorted r.engines s engine' }, result))

    abbrev pub on_shard :
        {A : Type 0}
        → ShardRouter C
        → (Engine C → Engine C × Result A)
        → Option String
        → ShardRouter C × Result A
    on_shard r f none = (r, err (shard "no shards available"))
    on_shard r f (some s) = on_engine r f s (Map.get r.engines s)

    unfoldable pub insert : ShardRouter C → Doc → String → ℕ → ShardRouter C × Result String
    insert r doc uuid now =
        on_shard r (λ e. Operations.insert svc e doc uuid now) (shard_for r.ring doc.id)

    abbrev pub get_in : String → Option (Engine C) → Option Doc
    get_in id none = none
    get_in id (some engine) = Operations.get svc engine id

    abbrev pub get_on : ShardRouter C → String → Option String → Option Doc
    get_on r id none = none
    get_on r id (some s) = get_in id (Map.get r.engines s)

    unfoldable pub get : ShardRouter C → String → Option Doc
    get r id = get_on r id (shard_for r.ring id)

    unfoldable pub update : ShardRouter C → String → Value → ℕ → ShardRouter C × Result (Unit {0})
    update r id content now =
        on_shard r (λ e. Operations.update svc e id content now) (shard_for r.ring id)

    unfoldable pub delete : ShardRouter C → String → ℕ → ShardRouter C × Result (Unit {0})
    delete r id now = on_shard r (λ e. Operations.delete svc e id now) (shard_for r.ring id)

    abbrev sum_counts : Map (Engine C) → ℕ
    sum_counts [] = 0
    sum_counts ((s, e) ∷ engines) = doc_count svc e + sum_counts engines

    unfoldable pub total_count : ShardRouter C → ℕ
    total_count r = sum_counts r.engines
