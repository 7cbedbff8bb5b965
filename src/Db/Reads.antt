-- ===== src/Db/Reads.antt =====
-- db.rs: what the reads give after the operations.
use cassettedb.Prelude.{
  ℕ, ◌+◌, ◌≤◌, ◌≡◌, refl, ap, ◌∙◌, Option, none, some, String, List, [], ◌∷◌, length, str_eq, arith,
  eq_iff, Bool-cases, inl, inr,
}
use cassettedb.Prelude.Map
use cassettedb.Prelude.Map.{Map, get-insert}
use cassettedb.Db.Types.{Document, Collection, Cassette, Library}
use cassettedb.Db.Indexes.{map_entries}
use cassettedb.Db.Operations.{live, compacted, compact, removed_from}
use cassettedb.Db.Queries.{find_live, get_in, or_nothing}
use cassettedb.Db.Queries

changed {ℓ} : {V : Type ℓ} → (String → V → V) → String → Option V → Option V
changed f k none = none
changed f k (some v) = some (f k v)

get-map_entries {ℓ} :
    {V : Type ℓ} (f : String → V → V) (m : Map V) (k : String)
    → Map.get (map_entries f m) k ≡ changed f k (Map.get m k)
unfolding Map.get changed
get-map_entries f [] k = refl
get-map_entries f ((j, v) ∷ m) k = elim (Bool-cases (str_eq j k)) [
  | inl same ↦ rw same (ap (λ i. some (f i v)) ((eq_iff j k).0 same))
  | inr apart ↦ rw apart (get-map_entries f m k)
]

live-live : (ds : List Document) → live (live ds) ≡ live ds
unfolding live
live-live [] = refl
live-live (d ∷ ds) = ground (arith, live-live ds)

find_live-live : (ds : List Document) (id : String) → find_live (live ds) id ≡ find_live ds id
unfolding live
find_live-live [] id = refl
find_live-live (d ∷ ds) id = ground (arith, find_live-live ds id)

length-live : (ds : List Document) → length (live ds) ≤ length ds
unfolding live
length-live [] = omega arith
length-live (d ∷ ds) = ground (arith, length-live ds)

-- The documents of all collections, deleted or not.
abbrev pub stored : Map Collection → ℕ
stored [] = 0
stored ((name, coll) ∷ m) = length coll.documents + stored m

module _ (lib : Library) where
  stored-compacted :
      (m : Map Collection)
      → stored (map_entries (λ name coll. compacted lib coll) m) + removed_from m ≡ stored m
  stored-compacted [] = refl
  stored-compacted ((name, coll) ∷ m) =
      omega (arith, stored-compacted m, length-live coll.documents)

  get_in-compacted :
      (o : Option Collection) (name id : String)
      → get_in (changed (λ name coll. compacted lib coll) name o) id ≡ get_in o id
  unfolding changed
  get_in-compacted none name id = refl
  get_in-compacted (some coll) name id = find_live-live coll.documents id

  scan-compacted :
      (o : Option Collection) (name : String)
      → or_nothing (changed (λ name coll. compacted lib coll) name o) (λ coll. live coll.documents)
        ≡ or_nothing o (λ coll. live coll.documents)
  unfolding changed
  scan-compacted none name = refl
  scan-compacted (some coll) name = live-live coll.documents

  -- A compaction changes neither what get nor what scan gives, and as many documents are gone from
  -- the collections as it reports.
  pub compact-reads :
      (c : Cassette) (collection id : String)
      → (Queries.get (compact lib c).0 collection id ≡ Queries.get c collection id)
        × (Queries.scan (compact lib c).0 collection ≡ Queries.scan c collection)
        × (stored (compact lib c).0.collections + (compact lib c).1 ≡ stored c.collections)
  unfolding compact Queries.get Queries.scan
  compact-reads c collection id =
      let same = get-map_entries (λ name coll. compacted lib coll) c.collections collection in
      (
        ap (λ o. get_in o id) same
            ∙ get_in-compacted (Map.get c.collections collection) collection id,
        ap (λ o. or_nothing o (λ coll. live coll.documents)) same
            ∙ scan-compacted (Map.get c.collections collection) collection,
        stored-compacted c.collections,
      )
