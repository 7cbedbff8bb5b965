-- ===== src/Db/Kept.antt =====
-- db.rs: the secondary indexes still fit the documents after each operation on a collection.
use cassettedb.Prelude.{
  ◌≡◌, refl, sym, subst, ◌∙◌, Bool, true, false, some, String, List, [], ◌∷◌, ◌++◌, any, find?,
  arith, Bool-cases, Option-cases, inl, inr, either,
}
use cassettedb.Prelude.Map
use cassettedb.Json.{Value}
use cassettedb.Db.Types.{Document, Collection, Library}
use cassettedb.Db.Indexes.{add_to_secondary_index, index_secondary}
use cassettedb.Db.Operations.{
  has_id, live, add_all, insert_doc, with_index, without_index, update_found, delete_found,
  compacted,
}
use cassettedb.Db.Listed.{
  has_key, held-append, held-live, held-is_live, listed-nil, is_live, find?-id,
  listed-add_to_secondary_index, listed-add_all,
}
use cassettedb.Db.Entries.{All-insert, All-remove, All-map_entries}
use cassettedb.Db.Invariant.{
  Fits, Indexed, distinct_ids-append, distinct_ids-set_first, distinct_ids-live,
}
use cassettedb.Db.Fitting.{replace_doc-Indexed, All-Fits-deleted}

module _ (lib : Library) where
  pub insert_doc-Indexed :
      (coll : Collection) (d : Document)
      → Indexed lib coll
      → any (has_id d.id) coll.documents ≡ false
      → d.deleted ≡ false
      → Indexed lib (insert_doc lib coll d)
  unfolding index_secondary
  insert_doc-Indexed coll d (distinct, fits) fresh kept = (
    distinct_ids-append coll.documents d distinct fresh,
    All-map_entries (Fits lib coll.documents) (Fits lib (coll.documents ++ d ∷ []))
        (λ field index. add_to_secondary_index lib index field d) coll.secondary_indexes
        (λ field index fit key id.
          rw
            (
              held-append (is_live (has_key lib field key)) coll.documents (d ∷ []) id,
              held-append (has_key lib field key) coll.documents (d ∷ []) id,
              listed-add_to_secondary_index lib index field d key id,
              kept,
            )
            (ground (arith, fit key id)))
        fits,
  )

  Fits-add_all :
      (field : String) (ds : List Document) → Fits lib ds (field, add_all lib [] field (live ds))
  Fits-add_all field ds key id =
      rw
        (
          listed-add_all lib [] field (live ds) key id,
          listed-nil key id,
          held-live (has_key lib field key) ds id,
        )
        (ground (arith, held-is_live (has_key lib field key) ds id))

  Fits_live-add_all :
      (field : String) (ds : List Document)
      → Fits lib (live ds) (field, add_all lib [] field (live ds))
  Fits_live-add_all field ds key id =
      rw (listed-add_all lib [] field (live ds) key id, listed-nil key id)
        (ground (arith, held-is_live (has_key lib field key) (live ds) id))

  pub with_index-Indexed :
      (coll : Collection) (field : String)
      → Indexed lib coll
      → Indexed lib (with_index lib coll field)
  with_index-Indexed coll field (distinct, fits) =
      elim (Bool-cases (Map.contains_key coll.secondary_indexes field)) [
        | inl e ↦ rw e (distinct, fits)
        | inr e ↦ rw e (
          distinct,
          All-insert (Fits lib coll.documents) coll.secondary_indexes field
              (add_all lib [] field (live coll.documents)) fits (Fits-add_all field coll.documents),
        )
      ]

  pub without_index-Indexed :
      (coll : Collection) (field : String)
      → Indexed lib coll
      → Indexed lib (without_index coll field)
  without_index-Indexed coll field (distinct, fits) =
      (distinct, All-remove (Fits lib coll.documents) coll.secondary_indexes field fits)

  pub compacted-Indexed : (coll : Collection) → Indexed lib coll → Indexed lib (compacted lib coll)
  compacted-Indexed coll (distinct, fits) = (
    distinct_ids-live coll.documents distinct,
    All-map_entries (Fits lib coll.documents) (Fits lib (live coll.documents))
        (λ field index. add_all lib [] field (live coll.documents)) coll.secondary_indexes
        (λ field index fit. Fits_live-add_all field coll.documents) fits,
  )

  -- The document found is found by its own id.
  found_again :
      (ds : List Document) (id : String) {d : Document}
      → find? (has_id id) ds ≡ some d
      → find? (has_id d.id) ds ≡ some d
  found_again ds id {d} found =
      subst (λ i. find? (has_id i) ds ≡ some d) (sym (find?-id ds id found)) found

  pub update_found-Indexed :
      (coll : Collection) (id now : String) (value : Value)
      → Indexed lib coll
      → Indexed lib (update_found lib coll (find? (has_id id) coll.documents) now value).0
  update_found-Indexed coll id now value h =
      elim (Option-cases (find? (has_id id) coll.documents)) [
        | inl missing ↦ rw missing h
        | inr (d, found) ↦ rw found (
            either {A = Collection × Bool} (λ after. Indexed lib after.0) d.deleted (λ gone. h)
              (λ kept.
                replace_doc-Indexed lib coll.documents d
                  (record d { content = value; updated_at = now }) h.0
                  (found_again coll.documents id found) refl coll refl kept h.1))
      ]

  pub delete_found-Indexed :
      (coll : Collection) (id now : String)
      → Indexed lib coll
      → Indexed lib (delete_found coll (find? (has_id id) coll.documents) now).0
  delete_found-Indexed coll id now (distinct, fits) =
      elim (Option-cases (find? (has_id id) coll.documents)) [
        | inl missing ↦ rw missing (distinct, fits)
        | inr (d, found) ↦ rw found (
          distinct_ids-set_first coll.documents d.id (record d { deleted = true; updated_at = now })
                refl
              ∙ distinct,
          All-Fits-deleted lib coll.documents d (record d { deleted = true; updated_at = now })
              distinct (found_again coll.documents id found) refl coll.secondary_indexes refl refl
              fits,
        )
      ]
