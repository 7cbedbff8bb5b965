-- ===== src/Db/Fitting.antt =====
-- db.rs: secondary indexes where a document takes another's place.
use cassettedb.Prelude.{
  ◌≡◌, ◌∙◌, Bool, true, false, not, ◌||◌, some, String, List, [], ◌∷◌, All, find?, str_eq,
  if◌then◌else◌, arith, eq_iff,
}
use cassettedb.Prelude.Map
use cassettedb.Db.Types.{Document, Collection, SecondaryIndex, Library}
use cassettedb.Db.Indexes.{
  add_to_secondary_index, remove_from_secondary_index, index_secondary,
  remove_from_secondary_index_all, map_entries,
}
use cassettedb.Db.Operations.{has_id, set_first, replace_doc}
use cassettedb.Db.Listed.{
  implies, held, distinct_ids, has_key, is_live, held-find?, held-set_first,
  listed-add_to_secondary_index, listed-remove_from_secondary_index,
}
use cassettedb.Db.Entries.{All-map_entries}
use cassettedb.Db.Invariant.{Fits, Indexed, distinct_ids-set_first}

module _ (lib : Library) where
  module _ (ds : List Document) (old new : Document) (distinct : distinct_ids ds ≡ true)
      (found : find? (has_id old.id) ds ≡ some old) (same : new.id ≡ old.id) where
    -- A property of the documents with an id, once the new one stands in the place of the old.
    held-replaced :
        (p : Document → Bool) (id : String)
        → held p (set_first old.id new ds) id ≡ (if str_eq old.id id then p new else held p ds id)
    held-replaced p id = held-set_first p ds old.id id new distinct found same

    held-old :
        (p : Document → Bool) (id : String)
        → implies (str_eq old.id id) (not (held p ds id) || p old) ≡ true
    held-old p id = ground (arith, held-find? p ds old.id distinct found, eq_iff old.id id)

    Fits-replaced :
        (field : String) (index : SecondaryIndex)
        → new.deleted ≡ false
        → Fits lib ds (field, index)
        → Fits lib (set_first old.id new ds) (
          field,
          add_to_secondary_index lib (remove_from_secondary_index lib index field old) field new,
        )
    Fits-replaced field index kept fit key id =
        rw
          (
            held-replaced (is_live (has_key lib field key)) id,
            held-replaced (has_key lib field key) id,
            listed-add_to_secondary_index lib (remove_from_secondary_index lib index field old)
                field new key id,
            listed-remove_from_secondary_index lib index field old key id,
            same,
          )
          (ground (arith, fit key id, held-old (has_key lib field key) id, kept))

    Fits-deleted :
        (e : String × SecondaryIndex)
        → new.deleted ≡ true
        → new.content ≡ old.content
        → Fits lib ds e
        → Fits lib (set_first old.id new ds) e
    Fits-deleted (field, index) gone unchanged fit key id =
        rw
          (
            held-replaced (is_live (has_key lib field key)) id,
            held-replaced (has_key lib field key) id,
            unchanged,
          )
          (ground (arith, fit key id, held-old (has_key lib field key) id, gone))

    pub replace_doc-Indexed :
        (coll : Collection)
        → coll.documents ≡ ds
        → new.deleted ≡ false
        → All (Fits lib ds) coll.secondary_indexes
        → Indexed lib (replace_doc lib coll old new)
    unfolding index_secondary remove_from_secondary_index_all
    replace_doc-Indexed coll e kept fits = rw e (
      distinct_ids-set_first ds old.id new same ∙ distinct,
      All-map_entries
          (λ entry.
            Fits lib (set_first old.id new ds)
              (entry.0, add_to_secondary_index lib entry.1 entry.0 new))
          (Fits lib (set_first old.id new ds))
          (λ field index. add_to_secondary_index lib index field new)
          (map_entries (λ field index. remove_from_secondary_index lib index field old)
            coll.secondary_indexes)
          (λ field index fit. fit)
          (All-map_entries (Fits lib ds)
            (λ entry.
              Fits lib (set_first old.id new ds)
                (entry.0, add_to_secondary_index lib entry.1 entry.0 new))
            (λ field index. remove_from_secondary_index lib index field old) coll.secondary_indexes
            (λ field index. Fits-replaced field index kept) fits),
    )

    pub All-Fits-deleted :
        (m : Map.Map SecondaryIndex)
        → new.deleted ≡ true
        → new.content ≡ old.content
        → All (Fits lib ds) m
        → All (Fits lib (set_first old.id new ds)) m
    All-Fits-deleted [] gone unchanged h = tt
    All-Fits-deleted (e ∷ m) gone unchanged h =
        (Fits-deleted e gone unchanged h.0, All-Fits-deleted m gone unchanged h.1)
