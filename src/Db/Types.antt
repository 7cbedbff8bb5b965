-- ===== src/Db/Types.antt =====
-- db.rs: the database kept in one JSON file, its collections and its documents. What it takes of
-- regex and serde_json is a parameter.
use cassettedb.Prelude.{ℕ, Bool, String, List}
use cassettedb.Prelude.Map.{Map}
use cassettedb.Json.{Value}

-- `content` is the field `data`.
pub record Document : Type 0 where
  pub id : String
  pub content : Value
  pub created_at : String
  pub updated_at : String
  pub deleted : Bool

-- field → token → document IDs
abbrev pub InvertedIndex : Type 0
InvertedIndex = Map (Map (List String))

-- ordered value → document IDs
abbrev pub SecondaryIndex : Type 0
SecondaryIndex = Map (List String)

pub record Collection : Type 0 where
  pub name : String
  pub documents : List Document
  pub indexes : Map (List String)
  pub inverted_index : InvertedIndex
  pub secondary_indexes : Map SecondaryIndex

pub record Cassette : Type 0 where
  pub version : ℕ
  pub collections : Map Collection
  pub meta : Map String

-- `to_json` is `Value::to_string`, and `tokens` the pieces that are not empty of a text split at
-- `[^a-zA-Z0-9]+`, in lower case.
pub record Library : Type 0 where
  pub to_json : Value → String
  pub tokens : String → List String
