-- ===== src/Db/Invariant.antt =====
-- db.rs: what every operation keeps of a collection's documents and secondary indexes.
use cassettedb.Prelude.{
  ◌≡◌, refl, Bool, true, false, ◌&&◌, ◌||◌, String, List, [], ◌∷◌, ◌++◌, any, All, arith, eq_iff,
}
use cassettedb.Index.Contents.{listed}
use cassettedb.Db.Types.{Document, Collection, SecondaryIndex, Library}
use cassettedb.Db.Operations.{has_id, set_first, live}
use cassettedb.Db.Listed.{implies, held, distinct_ids, has_key, is_live}

-- The first implies the second, and the second the third.
abbrev pub between : Bool → Bool → Bool → Bool
between a b c = implies a b && implies b c

module _ (lib : Library) where
  -- An index on the field lists each live document under its key, and nothing but documents, be they
  -- deleted, under their keys.
  abbrev pub Fits : List Document → String × SecondaryIndex → Type 0
  Fits ds (field, index) =
      (key id : String)
      → between (held (is_live (has_key lib field key)) ds id) (listed index key id)
          (held (has_key lib field key) ds id)
        ≡ true

  -- No two documents have the same id, and every secondary index fits the documents.
  abbrev pub Indexed : Collection → Type 0
  Indexed coll =
      (distinct_ids coll.documents ≡ true) × All (Fits coll.documents) coll.secondary_indexes

pub any-append :
    (ds es : List Document) (id : String)
    → any (has_id id) (ds ++ es) ≡ (any (has_id id) ds || any (has_id id) es)
any-append [] es id = refl
any-append (d ∷ ds) es id = ground (arith, any-append ds es id)

pub distinct_ids-append :
    (ds : List Document) (d : Document)
    → distinct_ids ds ≡ true
    → any (has_id d.id) ds ≡ false
    → distinct_ids (ds ++ d ∷ []) ≡ true
distinct_ids-append [] d h fresh = refl
distinct_ids-append (e ∷ ds) d h fresh = ground (
  arith,
  distinct_ids-append ds d,
  any-append ds (d ∷ []) e.id,
  eq_iff d.id e.id,
  eq_iff e.id d.id,
)

any-set_first :
    (ds : List Document) (id other : String) (new : Document)
    → new.id ≡ id
    → any (has_id other) (set_first id new ds) ≡ any (has_id other) ds
any-set_first [] id other new e = refl
any-set_first (d ∷ ds) id other new e =
    ground (arith, any-set_first ds id other new e, e, eq_iff d.id id)

pub distinct_ids-set_first :
    (ds : List Document) (id : String) (new : Document)
    → new.id ≡ id
    → distinct_ids (set_first id new ds) ≡ distinct_ids ds
distinct_ids-set_first [] id new e = refl
distinct_ids-set_first (d ∷ ds) id new e =
    ground
      (arith, distinct_ids-set_first ds id new e, any-set_first ds id d.id new e, e, eq_iff d.id id)

any-live :
    (ds : List Document) (id : String)
    → any (has_id id) ds ≡ false
    → any (has_id id) (live ds) ≡ false
unfolding live
any-live [] id h = refl
any-live (d ∷ ds) id h = ground (arith, any-live ds id)

pub distinct_ids-live :
    (ds : List Document) → distinct_ids ds ≡ true → distinct_ids (live ds) ≡ true
unfolding live
distinct_ids-live [] h = refl
distinct_ids-live (d ∷ ds) h = ground (arith, distinct_ids-live ds, any-live ds d.id)
