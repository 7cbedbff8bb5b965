-- ===== src/Shard/Merged.antt =====
-- shard.rs: the results of all shards in one.
use cassettedb.Prelude.{
  ℕ, ◌+◌, ◌≡◌, refl, ap, subst, ◌∙◌, List, [], ◌∷◌, ◌++◌, ◌&&◌, not, Bool, true, false, retain,
  length, arith, str_ltb, if◌then◌else◌, Bool-cases, inl, inr,
}
use cassettedb.Prelude.Map
use cassettedb.Prelude.TextOrder.{str_ltb_asym}
use cassettedb.Engine.Operations.{Doc, Services, Engine}
use cassettedb.Engine.Queries.{query}
use cassettedb.Query.Types.{Floats, Query}
use cassettedb.Shard.Router.{ShardRouter}
use cassettedb.Shard.Queries.{place, sort_by_id, gathered, query_all}

-- No id is smaller than the one before it.
abbrev pub in_order : List Doc → Bool
in_order [] = true
in_order (d ∷ []) = true
in_order (d ∷ e ∷ ds) = not (str_ltb e.id d.id) && in_order (e ∷ ds)

-- The number of documents that pass a test.
abbrev pub passing : (Doc → Bool) → List Doc → ℕ
passing p ds = length (retain p ds)

place-in_order : (d : Doc) (ds : List Doc) → in_order ds ≡ true → in_order (place d ds) ≡ true
place-in_order d [] h = refl
place-in_order d (e ∷ []) h = elim (Bool-cases (str_ltb e.id d.id)) [
  | inl before ↦ rw (before, str_ltb_asym e.id d.id before) refl
  | inr after ↦ rw (after, after) refl
]
place-in_order d (e ∷ f ∷ ds) h = elim (Bool-cases (str_ltb e.id d.id)) [
  | inl before ↦ rw before (
      go (place-in_order d (f ∷ ds) (ground (arith, h))) (ground (arith, h))
        (str_ltb_asym e.id d.id before))
  | inr after ↦ rw after (ground (arith, after, h))
]
  where
    go :
        in_order (place d (f ∷ ds)) ≡ true
        → str_ltb f.id e.id ≡ false
        → str_ltb d.id e.id ≡ false
        → in_order (e ∷ place d (f ∷ ds)) ≡ true
    go k l m = elim (Bool-cases (str_ltb f.id d.id)) [
      | inl earlier ↦ rw earlier (
          rw l (
            subst (λ xs. in_order xs ≡ true)
              (ap (λ b. if b then f ∷ place d ds else d ∷ f ∷ ds) earlier) k))
      | inr later ↦ rw later (
          rw m (
            subst (λ xs. in_order xs ≡ true)
              (ap (λ b. if b then f ∷ place d ds else d ∷ f ∷ ds) later) k))
    ]

sort_by_id-in_order : (ds : List Doc) → in_order (sort_by_id ds) ≡ true
unfolding sort_by_id
sort_by_id-in_order [] = refl
sort_by_id-in_order (d ∷ ds) = place-in_order d (sort_by_id ds) (sort_by_id-in_order ds)

module _ (p : Doc → Bool) where
  passing-place : (d : Doc) (ds : List Doc) → passing p (place d ds) ≡ passing p (d ∷ ds)
  passing-place d [] = refl
  passing-place d (e ∷ ds) = ground (arith, passing-place d ds)

  passing-sort_by_id : (ds : List Doc) → passing p (sort_by_id ds) ≡ passing p ds
  unfolding sort_by_id
  passing-sort_by_id [] = refl
  passing-sort_by_id (d ∷ ds) =
      passing-place d (sort_by_id ds) ∙ (ground (arith, passing-sort_by_id ds))

  passing-append : (ds es : List Doc) → passing p (ds ++ es) ≡ passing p ds + passing p es
  passing-append [] es = omega arith
  passing-append (d ∷ ds) es = ground (arith, passing-append ds es)

module _ (fl : Floats) {V C : Type 0} (svc : Services V C) where
  -- As many as pass the test in the results of the engines one by one.
  abbrev pub passing_engines : (Doc → Bool) → List (Engine C) → Query fl.F64 → ℕ
  passing_engines p [] q = 0
  passing_engines p (engine ∷ engines) q =
      passing p (query fl svc engine q).documents + passing_engines p engines q

  passing-gathered :
      (p : Doc → Bool) (engines : List (Engine C)) (q : Query fl.F64)
      → passing p (gathered fl svc engines q) ≡ passing_engines p engines q
  passing-gathered p [] q = refl
  passing-gathered p (engine ∷ engines) q =
      passing-append p (query fl svc engine q).documents (gathered fl svc engines q)
      ∙ (omega (arith, passing-gathered p engines q))

  -- The result of query_all is in the order of the ids and counts its documents, and for every
  -- test of documents as many of them pass it as of the results of the query on the engines one by
  -- one, taken together.
  pub query_all-merged :
      (r : ShardRouter C) (q : Query fl.F64) (p : Doc → Bool)
      → (in_order (query_all fl svc r q).documents ≡ true)
        × ((query_all fl svc r q).count ≡ length (query_all fl svc r q).documents)
        × (passing p (query_all fl svc r q).documents ≡ passing_engines p (Map.values r.engines) q)
  unfolding query_all
  query_all-merged r q p = (
    sort_by_id-in_order (gathered fl svc (Map.values r.engines) q),
    refl,
    passing-sort_by_id p (gathered fl svc (Map.values r.engines) q)
        ∙ passing-gathered p (Map.values r.engines) q,
  )
