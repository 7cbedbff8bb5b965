-- ===== src/Shard/Documents.antt =====
-- shard.rs: the documents of all shards after an operation that succeeds.
use cassettedb.Prelude.{
  ◌≡◌, ◌≢◌, refl, sym, ap, ◌∙◌, Option, none, some, String, Bool-cases, inl, inr, if◌then◌else◌,
  str_eq, eq_iff, str_eq_self, str_eq_ne, true, Bool,
}
use cassettedb.Prelude.Map
use cassettedb.Prelude.Map.{Map, get-insert_sorted}
use cassettedb.Prelude.Errors.{Result, ok, err, is_ok}
use cassettedb.Document.{with_id}
use cassettedb.Engine.Operations
use cassettedb.Engine.Operations.{Doc, Services, Engine, named}
use cassettedb.Engine.Documents.{insert-get, update-get, delete-get, changed_in}
use cassettedb.Engine.Commands.{Command, insert_doc, update_doc, delete_doc}
use cassettedb.Shard.Router.{
  Hashing, ShardRouter, shard_for, on_shard, on_engine, get_in, get_on, insert, get, update, delete,
}

-- A document that is inserted has an identifier: the router looks up the shard of an empty one
-- before the engine replaces it.
abbrev pub Named : Command → Type 0
Named (insert_doc doc uuid now) = doc.id ≢ ""
Named _ = Unit

module _ (hashing : Hashing) {V C : Type 0} (svc : Services V C) where
  -- The engine that an operation has worked on.
  record Worked {A : Type 0} (r r' : ShardRouter C) (f : Engine C → Engine C × Result A)
      (target : Option String) (a : A) : Type 0 where
    shard : String
    before : Engine C
    after : Engine C
    target_lem : target ≡ some shard
    open_lem : Map.get r.engines shard ≡ some before
    work : f before ≡ (after, ok a)
    engines_lem : r'.engines ≡ Map.insert_sorted r.engines shard after
    ring_lem : r'.ring ≡ r.ring

  on_engine-ok :
      {A : Type 0} (r : ShardRouter C) (f : Engine C → Engine C × Result A) (s : String)
      (engine : Option (Engine C)) {r' : ShardRouter C} {a : A}
      → Map.get r.engines s ≡ engine
      → on_engine hashing svc r f s engine ≡ (r', ok a)
      → Worked r r' f (some s) a
  on_engine-ok r f s none m h = (let bad = ap (λ x. x.1) h in cc bad)
  on_engine-ok r f s (some e) {a = a} m h = record {
    shard = s;
    before = e;
    after = (f e).0;
    target_lem = refl;
    open_lem = m;
    work = ap (λ x. ((f e).0, x)) (ap (λ x. x.1) h);
    engines_lem = ap (λ x. x.0.engines) (sym h);
    ring_lem = ap (λ x. x.0.ring) (sym h);
  }

  on_shard-ok :
      {A : Type 0} (r : ShardRouter C) (f : Engine C → Engine C × Result A) (target : Option String)
      {r' : ShardRouter C} {a : A}
      → on_shard hashing svc r f target ≡ (r', ok a)
      → Worked r r' f target a
  on_shard-ok r f none h = (let bad = ap (λ x. x.1) h in cc bad)
  on_shard-ok r f (some s) h = on_engine-ok r f s (Map.get r.engines s) refl h

  -- The engines of the router after the operation.
  engine_at :
      {A : Type 0} {f : Engine C → Engine C × Result A} {target : Option String} {a : A}
      (r r' : ShardRouter C) (w : Worked r r' f target a) (s : String)
      → Map.get r'.engines s ≡ (if str_eq w.shard s then some w.after else Map.get r.engines s)
  engine_at r r' w s =
      ap (λ m. Map.get m s) w.engines_lem ∙ get-insert_sorted r.engines w.shard s w.after

  -- A document that the engine keeps, and the documents of the other engines.
  routed_other :
      {A : Type 0} (r r' : ShardRouter C) (f : Engine C → Engine C × Result A) (id : String) (a : A)
      (w : Worked r r' f (shard_for hashing r.ring id) a) (j : String) (o : Option String)
      → Operations.get svc w.after j ≡ Operations.get svc w.before j
      → get_on hashing svc r' j o ≡ get_on hashing svc r j o
  routed_other r r' f id a w j none kept = refl
  routed_other r r' f id a w j (some t) kept = elim (Bool-cases (str_eq w.shard t)) [
    | inl same ↦
        ap (get_in hashing svc j)
          (engine_at r r' w t ∙ ap (λ b. if b then some w.after else Map.get r.engines t) same)
        ∙ kept
        ∙ sym (
            ap (get_in hashing svc j)
              (ap (Map.get r.engines) (sym ((eq_iff w.shard t).0 same)) ∙ w.open_lem))
    | inr apart ↦
        ap (get_in hashing svc j)
          (engine_at r r' w t ∙ ap (λ b. if b then some w.after else Map.get r.engines t) apart)
  ]

  routed :
      {A : Type 0} (r r' : ShardRouter C) (f : Engine C → Engine C × Result A) (id : String) (a : A)
      (w : Worked r r' f (shard_for hashing r.ring id) a) (X : Option Doc) (j : String)
      → (Operations.get svc w.after j ≡ (if str_eq id j then X else Operations.get svc w.before j))
      → (o : Option String) → shard_for hashing r.ring j ≡ o
      → get_on hashing svc r' j o ≡ (if str_eq id j then X else get_on hashing svc r j o)
  routed r r' f id a w X j engine o m = elim (Bool-cases (str_eq id j)) [
    | inl same ↦
        (let here : o ≡ some w.shard =
            sym m ∙ ap (shard_for hashing r.ring) (sym ((eq_iff id j).0 same)) ∙ w.target_lem in
          let found : Map.get r'.engines w.shard ≡ some w.after =
            engine_at r r' w w.shard
            ∙ ap (λ b. if b then some w.after else Map.get r.engines w.shard)
                (str_eq_self w.shard) in
          ap (get_on hashing svc r' j) here
          ∙ ap (get_in hashing svc j) found
          ∙ engine
          ∙ ap (λ b. if b then X else Operations.get svc w.before j) same
          ∙ sym (ap (λ b. if b then X else get_on hashing svc r j o) same))
    | inr apart ↦
        routed_other r r' f id a w j o
          (engine ∙ ap (λ b. if b then X else Operations.get svc w.before j) apart)
        ∙ sym (ap (λ b. if b then X else get_on hashing svc r j o) apart)
  ]

  -- Where the engine changes one document, so does the router.
  lift_get :
      {A : Type 0} (r r' : ShardRouter C) (f : Engine C → Engine C × Result A) (id : String) (a : A)
      (w : Worked r r' f (shard_for hashing r.ring id) a) (X : Option Doc) (j : String)
      → (Operations.get svc w.after j ≡ (if str_eq id j then X else Operations.get svc w.before j))
      → get hashing svc r' j ≡ (if str_eq id j then X else get hashing svc r j)
  unfolding get
  lift_get r r' f id a w X j engine =
      ap (λ ring. get_on hashing svc r' j (shard_for hashing ring j)) w.ring_lem
      ∙ routed r r' f id a w X j engine (shard_for hashing r.ring j) refl

  get-Worked :
      {A : Type 0} (r r' : ShardRouter C) (f : Engine C → Engine C × Result A) (id : String) (a : A)
      (w : Worked r r' f (shard_for hashing r.ring id) a)
      → get hashing svc r id ≡ Operations.get svc w.before id
  unfolding get
  get-Worked r r' f id a w =
      ap (get_on hashing svc r id) w.target_lem ∙ ap (get_in hashing svc id) w.open_lem

  -- A call of the router, and whether it succeeds.
  abbrev pub run : ShardRouter C → Command → ShardRouter C × Bool
  run r (insert_doc doc uuid now) =
      (let (r', result) = insert hashing svc r doc uuid now in (r', is_ok result))
  run r (update_doc id content now) =
      (let (r', result) = update hashing svc r id content now in (r', is_ok result))
  run r (delete_doc id now) = (let (r', result) = delete hashing svc r id now in (r', is_ok result))

  -- What the call does to one map of documents.
  abbrev pub described : Command → (String → Option Doc) → String → Option Doc
  described (insert_doc doc uuid now) docs j = if str_eq doc.id j then some doc else docs j
  described (update_doc id content now) docs j =
      if str_eq id j then changed_in svc (docs id) content else docs j
  described (delete_doc id now) docs j = if str_eq id j then none else docs j

  is_ok-ok :
      {A : Type 0} (x : ShardRouter C × Result A) → is_ok x.1 ≡ true → (a : A) × (x ≡ (x.0, ok a))
  is_ok-ok (r', err reason) h = cc h
  is_ok-ok (r', ok a) h = (a, refl)

  -- Seen through get, the engines of all shards are one map of documents: after an insertion of a
  -- document whose identifier is not empty, an update or a deletion that succeeds on the router,
  -- each identifier has the document that the same call on a single map gives it.
  pub run-get :
      (r : ShardRouter C) (call : Command) (j : String)
      → Named call
      → (run r call).1 ≡ true
      → get hashing svc (run r call).0 j ≡ described call (get hashing svc r) j
  unfolding insert update delete
  run-get r (insert_doc doc uuid now) j named_lem h =
      let f : Engine C → Engine C × Result String = λ e. Operations.insert svc e doc uuid now in
      let x = on_shard hashing svc r f (shard_for hashing r.ring doc.id) in
      let (id, done) = is_ok-ok x h in
      let w = on_shard-ok r f (shard_for hashing r.ring doc.id) done in
      let same : named svc doc uuid ≡ doc =
        ap (λ b. if b then with_id uuid doc.content else doc) (str_eq_ne doc.id "" named_lem) in
      lift_get r x.0 f doc.id id w (some doc) j (
        (insert-get svc w.before doc uuid now w.work).1 j
        ∙ ap (λ (d : Doc). if str_eq d.id j then some d else Operations.get svc w.before j) same)
  run-get r (update_doc id content now) j named_lem h =
      let f : Engine C → Engine C × Result (Unit {0}) =
        λ e. Operations.update svc e id content now in
      let x = on_shard hashing svc r f (shard_for hashing r.ring id) in
      let (t, done) = is_ok-ok x h in
      let w = on_shard-ok r f (shard_for hashing r.ring id) done in
      lift_get r x.0 f id t w (changed_in svc (Operations.get svc w.before id) content) j
        (update-get svc w.before id content now w.work j)
      ∙ ap (λ o. if str_eq id j then changed_in svc o content else get hashing svc r j)
          (sym (get-Worked r x.0 f id t w))
  run-get r (delete_doc id now) j named_lem h =
      let f : Engine C → Engine C × Result (Unit {0}) = λ e. Operations.delete svc e id now in
      let x = on_shard hashing svc r f (shard_for hashing r.ring id) in
      let (t, done) = is_ok-ok x h in
      let w = on_shard-ok r f (shard_for hashing r.ring id) done in
      lift_get r x.0 f id t w none j (delete-get svc w.before id now w.work j)
