-- ===== src/Engine/Commands.antt =====
-- engine.rs: lists of calls of an engine, and what the log recovers after them.
use cassettedb.Prelude.{ℕ, ◌≡◌, refl, List, [], ◌∷◌, Option, none, some, String}
use cassettedb.Prelude.Map
use cassettedb.Prelude.Map.{Map}
use cassettedb.Prelude.Errors.{Result, err, not_found}
use cassettedb.Json.{Value}
use cassettedb.Index.Inverted.{InvertedIndex}
use cassettedb.Wal.Records.{delete_op}
use cassettedb.Wal.Logging.{Loggable}
use cassettedb.Engine.Operations.{
  Doc, Services, Engine, insert, update, delete, named, changed, update_with, deleted, write_log,
}
use cassettedb.Engine.Durable.{Kept, Durable}
use cassettedb.Engine.Kept.{Fresh, Writable, insert_with-Kept, update_with-Kept, delete-found-Kept}

-- A call of the engine, with the identifier that `uuid` would make and the time.
pub data Command : Type 0 where
  insert_doc : Doc → String → ℕ → Command
  update_doc : String → Value → ℕ → Command
  delete_doc : String → ℕ → Command

module _ {V C : Type 0} (svc : Services V C) where
  -- The engine after a command, which may have failed.
  abbrev pub run : Engine C → Command → Engine C
  run e (insert_doc doc uuid now) = (insert svc e doc uuid now).0
  run e (update_doc id content now) = (update svc e id content now).0
  run e (delete_doc id now) = (delete svc e id now).0

  -- Every identifier and every encoding that the command writes fits the log.
  abbrev pub Fits : Engine C → Command → Type 0
  Fits e (insert_doc doc uuid now) = Writable svc (named svc doc uuid).id (named svc doc uuid)
  Fits e (update_doc id content now) =
      (old : Doc) → Map.get e.docs id ≡ some old → Writable svc id (changed svc old content)
  Fits e (delete_doc id now) = Loggable svc.codec id []

  -- An insertion is of a new identifier.
  abbrev pub InsertsNew : Engine C → Command → Type 0
  InsertsNew e (insert_doc doc uuid now) = Fresh svc e (named svc doc uuid).id
  InsertsNew e _ = Unit

  run_update :
      (e : Engine C) (ix : InvertedIndex) (id : String) (content : Value) (now : ℕ)
      (found : Option Doc)
      → Map.get e.docs id ≡ found
      → Durable svc e ix
      → Fits e (update_doc id content now)
      → Kept svc
          (elim found as (λ _. Engine C × Result (Unit {0})) [
            | none ↦ (e, err (not_found id))
            | some old ↦
                update_with svc e old
                  (changed svc old content)
                  id
                  now
                  (svc.doc_to_vec (changed svc old content))
          ]).0
          (ix ≡ e.index)
  run_update e ix id content now none m d h = (ix, d, λ same. same)
  run_update e ix id content now (some old) m d h =
      update_with-Kept svc e ix old (changed svc old content) id now
        (svc.doc_to_vec (changed svc old content)) refl (d.keyed id old m) m d (h old m)

  run_delete :
      (e : Engine C) (ix : InvertedIndex) (id : String) (now : ℕ) (found : Option Doc)
      → Map.get e.docs id ≡ found
      → Durable svc e ix
      → Loggable svc.codec id []
      → Kept svc
          (elim found as (λ _. Engine C × Result (Unit {0})) [
            | none ↦ (e, err (not_found id))
            | some old ↦
                deleted svc
                  (record e { docs = Map.remove e.docs id })
                  old
                  id
                  now
                  (write_log svc e.wal delete_op id [])
          ]).0
          (ix ≡ e.index)
  run_delete e ix id now none m d h = (ix, d, λ same. same)
  run_delete e ix id now (some old) m d h = delete-found-Kept svc e ix old id now m d h

  -- A command keeps what the log recovers.
  run-Kept :
      (e : Engine C) (ix : InvertedIndex) (c : Command)
      → Durable svc e ix
      → Fits e c
      → Kept svc (run e c) ((ix ≡ e.index) × InsertsNew e c)
  unfolding insert update delete
  run-Kept e ix (insert_doc doc uuid now) d h =
      insert_with-Kept svc e ix (named svc doc uuid) now (svc.doc_to_vec (named svc doc uuid)) refl
        d h
  run-Kept e ix (update_doc id content now) d h =
      (let (ix', d', same) = run_update e ix id content now (Map.get e.docs id) refl d h in
        (ix', d', λ (p, new). same p))
  run-Kept e ix (delete_doc id now) d h =
      (let (ix', d', same) = run_delete e ix id now (Map.get e.docs id) refl d h in
        (ix', d', λ (p, new). same p))

  abbrev pub run_all : Engine C → List Command → Engine C
  run_all e [] = e
  run_all e (c ∷ cs) = run_all (run e c) cs

  abbrev pub AllFit : Engine C → List Command → Type 0
  AllFit e [] = Unit
  AllFit e (c ∷ cs) = Fits e c × AllFit (run e c) cs

  abbrev pub AllNew : Engine C → List Command → Type 0
  AllNew e [] = Unit
  AllNew e (c ∷ cs) = InsertsNew e c × AllNew (run e c) cs

  pub run_all-Kept :
      (e : Engine C) (ix : InvertedIndex) (cs : List Command)
      → Durable svc e ix
      → AllFit e cs
      → Kept svc (run_all e cs) ((ix ≡ e.index) × AllNew e cs)
  run_all-Kept e ix [] d h = (ix, d, λ (p, new). p)
  run_all-Kept e ix (c ∷ cs) d (h, hs) =
      let (ix', d', same) = run-Kept e ix c d h in
      let (ix'', d'', same') = run_all-Kept (run e c) ix' cs d' hs in
      (ix'', d'', λ (p, (new, news)). same' (same (p, new), news))
