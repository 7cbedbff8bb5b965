-- ===== src/Document.antt =====
-- document.rs; `data`, a reserved word here, is the field `content`. The type `V` stands for `serde_json::Value`, which is not part of the program.
use cassettedb.Prelude.{String, []}
use cassettedb.Prelude.Map.{Map}

pub record Document (V : Type 0) : Type 0 where
  pub id : String
  pub content : V
  pub meta : Map V

-- `Document::with_id`; `Document::new` is the same at an identifier that `uuid` makes.
unfoldable pub with_id : {V : Type 0} → String → V → Document V
with_id id content = record { id = id; content = content; meta = [] }
