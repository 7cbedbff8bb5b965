-- ===== src/Db/Visible.antt =====
-- db.rs: the queries and deleted documents.
use cassettedb.Prelude.{
  ◌≡◌, refl, sym, ap, subst, ◌∙◌, Bool, true, false, not, ◌&&◌, Option, none, some, String, List,
  [], ◌∷◌, ◌++◌, all, retain, str_eq, arith, Bool-cases, Option-cases, inl, inr, either,
}
use cassettedb.Prelude.Map
use cassettedb.Prelude.Texts.{split_char, trim, trim_quotes}
use cassettedb.Json.{Value}
use cassettedb.Db.Types.{Document, Collection, Cassette, SecondaryIndex, Library}
use cassettedb.Db.Operations.{has_id, live}
use cassettedb.Db.Queries.{
  or_nothing, find_live, listed_docs, through_index, query_parts, query, query_jsonpath, selects,
}
use cassettedb.Db.Listed.{some_eq}
use cassettedb.Db.Search.{
  is_above, above_entries, search, search_tokens, find_all, find_entries, range_in, query_range,
}

-- None of the documents is deleted.
abbrev pub all_live : List Document → Bool
all_live = all (λ d. not d.deleted)

all_live-live : (ds : List Document) → all_live (live ds) ≡ true
unfolding live
all_live-live [] = refl
all_live-live (d ∷ ds) = ground (arith, all_live-live ds)

all_live-retain :
    (p : Document → Bool) (ds : List Document) → all_live ds ≡ true → all_live (retain p ds) ≡ true
all_live-retain p [] h = refl
all_live-retain p (d ∷ ds) h = ground (arith, h, all_live-retain p ds)

all_live-append :
    (ds es : List Document) → all_live ds ≡ true → all_live es ≡ true → all_live (ds ++ es) ≡ true
all_live-append [] es h k = k
all_live-append (d ∷ ds) es h k = ground (arith, h, k, all_live-append ds es)

all_live-listed_docs :
    (o : Option (List String)) (ds : List Document) → all_live (listed_docs o ds) ≡ true
all_live-listed_docs none ds = refl
all_live-listed_docs (some ids) [] = refl
all_live-listed_docs (some ids) (d ∷ ds) = ground (arith, all_live-listed_docs (some ids) ds)

find_live-live :
    (ds : List Document) (id : String) {d : Document}
    → find_live ds id ≡ some d
    → not d.deleted ≡ true
find_live-live [] id h = cc h
find_live-live (e ∷ ds) id {d} h = elim (Bool-cases (has_id id e && not e.deleted)) [
  | inl here ↦
      (let found : find_live (e ∷ ds) id ≡ some e =
          ap (λ b. elim b [ true ↦ some e | false ↦ find_live ds id ]) here in
        let same : e ≡ d = some_eq (sym found ∙ h) in
        subst (λ x. not x.deleted ≡ true) same (ground (arith, here)))
  | inr apart ↦
      find_live-live ds id
        (sym (ap (λ b. elim b [ true ↦ some e | false ↦ find_live ds id ]) apart) ∙ h)
]

all_live-find_all : (ds : List Document) (ids : List String) → all_live (find_all ds ids) ≡ true
unfolding find_all
all_live-find_all ds [] = refl
all_live-find_all ds (id ∷ ids) = elim (Option-cases (find_live ds id)) [
  | inl e ↦ rw e (all_live-find_all ds ids)
  | inr (d, e) ↦ rw (e, find_live-live ds id e) (all_live-find_all ds ids)
]

all_live-find_entries :
    (ds : List Document) (entries : SecondaryIndex) → all_live (find_entries ds entries) ≡ true
unfolding find_entries
all_live-find_entries ds [] = refl
all_live-find_entries ds ((key, ids) ∷ entries) =
    all_live-append (find_all ds ids) (find_entries ds entries) (all_live-find_all ds ids)
      (all_live-find_entries ds entries)

all_live-query_parts :
    (coll : Collection) (parts : List String) → all_live (query_parts coll parts) ≡ true
all_live-query_parts coll [] = all_live-live coll.documents
all_live-query_parts coll (left ∷ []) = all_live-live coll.documents
all_live-query_parts coll (left ∷ right ∷ []) = go (Map.get coll.secondary_indexes (trim left))
  where
    go :
        (o : Option SecondaryIndex)
        → all_live (through_index o (trim left) (trim_quotes (trim right)) coll.documents) ≡ true
    go none = all_live-retain _ (live coll.documents) (all_live-live coll.documents)
    go (some index) = all_live-listed_docs (Map.get index (trim_quotes (trim right))) coll.documents
all_live-query_parts coll (left ∷ right ∷ more ∷ parts) = all_live-live coll.documents

all_live-search_tokens :
    (coll : Collection) (tokens : List String) → all_live (search_tokens coll tokens) ≡ true
all_live-search_tokens coll [] = all_live-live coll.documents
all_live-search_tokens coll (t ∷ ts) = all_live-find_all coll.documents _

module _ (lib : Library) where
  all_live-range_in :
      (o : Option SecondaryIndex) (field op value : String) (ds : List Document)
      → all_live (range_in lib o field op value ds) ≡ true
  all_live-range_in none field op value ds = all_live-retain _ (live ds) (all_live-live ds)
  all_live-range_in (some index) field op value ds =
      either (λ found. all_live found ≡ true) (str_eq op ">")
        (λ above.
          all_live-retain (is_above lib field value) (find_entries ds (above_entries index value))
            (all_live-find_entries ds (above_entries index value)))
        (λ other. all_live-find_entries ds _)

  all_live-or_nothing :
      (o : Option Collection) (read : Collection → List Document)
      → ((coll : Collection) → all_live (read coll) ≡ true)
      → all_live (or_nothing o read) ≡ true
  all_live-or_nothing none read h = refl
  all_live-or_nothing (some coll) read h = h coll

  -- No document that query, query_range, query_jsonpath or search gives is deleted, whether an
  -- index answers or not.
  pub queries-all_live :
      (at_path : Value → String → Option Value) (c : Cassette)
      (collection text field op value : String)
      → (all_live (query c collection text) ≡ true)
        × (all_live (query_range lib c collection field op value) ≡ true)
        × (all_live (query_jsonpath at_path c collection text) ≡ true)
        × (all_live (search lib c collection text) ≡ true)
  unfolding query query_range query_jsonpath search
  queries-all_live at_path c collection text field op value =
      let o = Map.get c.collections collection in
      (
        all_live-or_nothing o _ (λ coll. all_live-query_parts coll (split_char 61 text)),
        all_live-or_nothing o _ (λ coll.
            all_live-range_in (Map.get coll.secondary_indexes field) field op value coll.documents),
        all_live-or_nothing o _ (λ coll.
            all_live-retain (λ d. selects (at_path d.content text)) (live coll.documents)
              (all_live-live coll.documents)),
        all_live-or_nothing o _ (λ coll. all_live-search_tokens coll (lib.tokens text)),
      )
