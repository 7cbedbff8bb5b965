-- ===== src/Shard/Queries.antt =====
-- shard.rs: `query_all`.
use cassettedb.Prelude.{List, [], ◌∷◌, ◌++◌, length, str_ltb, if◌then◌else◌}
use cassettedb.Prelude.Map
use cassettedb.Engine.Operations.{Doc, Services, Engine}
use cassettedb.Engine.Queries.{query}
use cassettedb.Query.Types.{Floats, Query, QueryResult}
use cassettedb.Shard.Router.{ShardRouter}

-- `sort_by(|a, b| a.id.cmp(&b.id))`, which is stable.
abbrev pub place : Doc → List Doc → List Doc
place d [] = d ∷ []
place d (e ∷ es) = let rest = place d es in if str_ltb e.id d.id then e ∷ rest else d ∷ e ∷ es

unfoldable pub sort_by_id : List Doc → List Doc
sort_by_id [] = []
sort_by_id (d ∷ ds) = place d (sort_by_id ds)

module _ (fl : Floats) {V C : Type 0} (svc : Services V C) where
  abbrev pub gathered : List (Engine C) → Query fl.F64 → List Doc
  gathered [] q = []
  gathered (engine ∷ engines) q = (query fl svc engine q).documents ++ gathered engines q

  unfoldable pub query_all : ShardRouter C → Query fl.F64 → QueryResult
  query_all r q =
      let all_docs = sort_by_id (gathered (Map.values r.engines) q) in
      record { documents = all_docs; count = length all_docs }
