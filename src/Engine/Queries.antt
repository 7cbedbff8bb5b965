-- ===== src/Engine/Queries.antt =====
-- engine.rs: `query`.
use cassettedb.Prelude.Map
use cassettedb.Engine.Operations.{Services, Engine}
use cassettedb.Query.Types.{Floats, Query, QueryResult}
use cassettedb.Query.Matches.{execute}

module _ (fl : Floats) {V C : Type 0} (svc : Services V C) where
  unfoldable pub query : Engine C → Query fl.F64 → QueryResult
  query e q = execute fl svc.tokenize e.index q (Map.values e.docs)
