-- ===== src/Db/Scanned.antt =====
-- db.rs: a query that a secondary index answers, and the scan of all documents that it replaces.
use cassettedb.Prelude.{
  ◌≡◌, refl, sym, ap, ◌∙◌, Bool, true, false, not, ◌&&◌, ◌||◌, Option, none, some, String, List, [],
  ◌∷◌, any, all, All, retain, arith, eq_iff, Option-cases, inl, inr, str_eq_self,
}
use cassettedb.Prelude.Map
use cassettedb.Prelude.Texts.{split_char, trim, trim_quotes}
use cassettedb.Json.{Value, null, boolean, number, text, array, object, value_get}
use cassettedb.Index.Inverted.{contains, or_default}
use cassettedb.Index.Contents.{listed}
use cassettedb.Db.Types.{Document, Collection, Cassette, SecondaryIndex, Library}
use cassettedb.Db.Operations.{has_id, live}
use cassettedb.Db.Entries.{All-get}
use cassettedb.Db.Listed.{held, is_live, distinct_ids, has_key, key_is, held-none}
use cassettedb.Db.Invariant.{Fits, Indexed}
use cassettedb.Db.Queries.{
  text_is, matching, listed_docs, through_index, query, query_owned, query_parts, query_owned_parts,
}
use cassettedb.Db.Reached.{Reached, reached-Indexed}

retain-congruent :
    (p q : Document → Bool) (ds : List Document)
    → All (λ d. p d ≡ q d) ds
    → retain p ds ≡ retain q ds
retain-congruent p q [] h = refl
retain-congruent p q (d ∷ ds) h = ground (arith, h.0, retain-congruent p q ds h.1)

retain-live :
    (p : Document → Bool) (ds : List Document)
    → retain p (live ds) ≡ retain (λ d. not d.deleted && p d) ds
unfolding live
retain-live p [] = refl
retain-live p (d ∷ ds) = ground (arith, retain-live p ds)

pub All-weaken {ℓ} :
    {A : Type ℓ} (P Q : A → Type 0) (xs : List A) → ((x : A) → P x → Q x) → All P xs → All Q xs
All-weaken P Q [] step h = tt
All-weaken P Q (x ∷ xs) step h = (step x h.0, All-weaken P Q xs step h.1)

other_id :
    (e : Document) (ds : List Document)
    → any (has_id e.id) ds ≡ false
    → All (λ d. has_id d.id e ≡ false) ds
other_id e [] h = tt
other_id e (d ∷ ds) h =
    (ground (arith, h, eq_iff d.id e.id, eq_iff e.id d.id), other_id e ds (ground (arith, h)))

-- Among documents with distinct ids, a document alone decides what holds of its id.
pub held_self :
    (p : Document → Bool) (ds : List Document)
    → distinct_ids ds ≡ true
    → All (λ d. held p ds d.id ≡ p d) ds
held_self p [] h = tt
held_self p (e ∷ ds) h = (
  ground (arith, h, held-none p ds e.id, str_eq_self e.id),
  both ds (other_id e ds (ground (arith, h))) (held_self p ds (ground (arith, h))),
)
  where
    both :
        (es : List Document)
        → All (λ d. has_id d.id e ≡ false) es
        → All (λ d. held p ds d.id ≡ p d) es
        → All (λ d. held p (e ∷ ds) d.id ≡ p d) es
    both [] h k = tt
    both (d ∷ es) h k = (ground (arith, h.0, k.0), both es h.1 k.1)

-- The value at a key is a text or missing.
abbrev pub text_or_none : Option Value → Bool
text_or_none none = true
text_or_none (some (text s)) = true
text_or_none (some _) = false

key_is-text_is :
    (lib : Library) (o : Option Value) (val : String)
    → text_or_none o ≡ true
    → key_is lib o val ≡ text_is o val
key_is-text_is lib none val h = refl
key_is-text_is lib (some null) val h = cc h
key_is-text_is lib (some (boolean b)) val h = cc h
key_is-text_is lib (some (number n)) val h = cc h
key_is-text_is lib (some (text s)) val h = refl
key_is-text_is lib (some (array vs)) val h = cc h
key_is-text_is lib (some (object fs)) val h = cc h

abbrev pub texts_at : String → List Document → Bool
texts_at key ds = all (λ d. d.deleted || text_or_none (value_get d.content key)) ds

abbrev pub texts_in : Collection → List String → Bool
texts_in coll (left ∷ right ∷ []) = texts_at (trim left) coll.documents
texts_in coll _ = true

abbrev in_option : Option Collection → (Collection → Bool) → Bool
in_option none p = true
in_option (some coll) p = p coll

-- For a filter `key=val`, every live document's value at the key is a text, or there is none.
abbrev pub filter_texts : Cassette → String → String → Bool
filter_texts c collection filter =
    in_option (Map.get c.collections collection) (λ coll. texts_in coll (split_char 61 filter))

module _ (lib : Library) where
  listed-text_is :
      (key val : String) (ds all_docs : List Document) (index : SecondaryIndex)
      → Fits lib all_docs (key, index)
      → texts_at key ds ≡ true
      → All
          (λ d.
            held (is_live (has_key lib key val)) all_docs d.id ≡ is_live (has_key lib key val) d)
          ds
      → All (λ d. held (has_key lib key val) all_docs d.id ≡ has_key lib key val d) ds
      → All
          (λ d.
            (not d.deleted && listed index val d.id)
            ≡ (not d.deleted && text_is (value_get d.content key) val))
          ds
  listed-text_is key val [] all_docs index fit h live_self self = tt
  listed-text_is key val (d ∷ ds) all_docs index fit h live_self self = (
    ground (
      arith,
      fit val d.id,
      h,
      live_self.0,
      self.0,
      key_is-text_is lib (value_get d.content key) val,
    ),
    listed-text_is key val ds all_docs index fit (ground (arith, h)) live_self.1 self.1,
  )

  nothing_listed : (ds : List Document) → [] ≡ retain (λ d. not d.deleted && contains [] d.id) ds
  nothing_listed [] = refl
  nothing_listed (d ∷ ds) = ground (arith, nothing_listed ds)

  listed_docs_lem :
      (o : Option (List String)) (ds : List Document)
      → listed_docs o ds ≡ retain (λ d. not d.deleted && contains (or_default o) d.id) ds
  listed_docs_lem none ds = nothing_listed ds
  listed_docs_lem (some ids) ds = refl

  through_index-matching :
      (coll : Collection) (key val : String) (o : Option SecondaryIndex)
      → Map.get coll.secondary_indexes key ≡ o
      → Indexed lib coll
      → texts_at key coll.documents ≡ true
      → through_index o key val coll.documents ≡ matching key val coll.documents
  through_index-matching coll key val none found h texts = refl
  through_index-matching coll key val (some index) found (distinct, fits) texts =
      listed_docs_lem (Map.get index val) coll.documents
      ∙ retain-congruent (λ d. not d.deleted && listed index val d.id)
          (λ d. not d.deleted && text_is (value_get d.content key) val) coll.documents
          (listed-text_is key val coll.documents coll.documents index
            (All-get (Fits lib coll.documents) coll.secondary_indexes key fits found) texts
            (held_self (is_live (has_key lib key val)) coll.documents distinct)
            (held_self (has_key lib key val) coll.documents distinct))
      ∙ sym (retain-live (λ d. text_is (value_get d.content key) val) coll.documents)

  query_parts-query_owned_parts :
      (coll : Collection) (parts : List String)
      → Indexed lib coll
      → texts_in coll parts ≡ true
      → query_parts coll parts ≡ query_owned_parts coll parts
  query_parts-query_owned_parts coll [] h texts = refl
  query_parts-query_owned_parts coll (left ∷ []) h texts = refl
  query_parts-query_owned_parts coll (left ∷ right ∷ []) h texts =
      through_index-matching coll (trim left) (trim_quotes (trim right)) _ refl h texts
  query_parts-query_owned_parts coll (left ∷ right ∷ more ∷ parts) h texts = refl

  -- In a database that operations reach with ids that are new to their collections, query gives
  -- the documents that query_owned finds by a scan, in the same order, whether a secondary index
  -- answers it or not, if for a filter of the form key=val every document that is not deleted has
  -- a text at the key or nothing.
  pub query-query_owned :
      {c : Cassette} (collection filter : String)
      → Reached lib c
      → filter_texts c collection filter ≡ true
      → query c collection filter ≡ query_owned c collection filter
  unfolding query query_owned
  query-query_owned {c} collection filter r texts =
      elim (Option-cases (Map.get c.collections collection)) [
        | inl missing ↦ rw missing refl
        | inr (coll, found) ↦ rw found (
            query_parts-query_owned_parts coll (split_char 61 filter)
              (reached-Indexed lib collection r found)
              (sym (ap (λ o. in_option o (λ coll. texts_in coll (split_char 61 filter))) found)
                ∙ texts))
      ]
