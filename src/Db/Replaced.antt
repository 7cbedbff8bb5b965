-- ===== src/Db/Replaced.antt =====
-- db.rs: the documents found in a collection after an update and after a delete.
use cassettedb.Prelude.{
  ◌≡◌, refl, sym, ap, ◌∙◌, Bool, true, false, Option, none, some, String, List, find?, str_eq,
  if◌then◌else◌, arith, eq_iff, Bool-cases, inl, inr, either,
}
use cassettedb.Json.{Value}
use cassettedb.Db.Types.{Document, Collection, Library}
use cassettedb.Db.Operations.{has_id, set_first, update_found, delete_found}
use cassettedb.Db.Queries.{find_live}
use cassettedb.Db.Listed.{distinct_ids, find?-id}
use cassettedb.Db.Invariant.{distinct_ids-set_first}
use cassettedb.Db.Found.{visible, find_live-find?, find?-set_first}

abbrev pub renewed : String → Value → Option Document → Option Document
renewed now value none = none
renewed now value (some d) = some (record d { content = value; updated_at = now })

module _ (ds : List Document) (id other : String) (distinct : distinct_ids ds ≡ true) where
  -- What is found at the id, if the texts are the same.
  found_at : str_eq id other ≡ true → find_live ds other ≡ visible (find? (has_id id) ds)
  found_at same =
      find_live-find? ds other distinct
      ∙ ap (λ i. visible (find? (has_id i) ds)) (sym ((eq_iff id other).0 same))

  replaced_found :
      {d : Document} (new : Document)
      → find? (has_id id) ds ≡ some d
      → new.id ≡ id
      → find_live (set_first id new ds) other
        ≡ (if str_eq id other then visible (some new) else find_live ds other)
  replaced_found new found same =
      find_live-find? (set_first id new ds) other (distinct_ids-set_first ds id new same ∙ distinct)
      ∙ ap visible (find?-set_first ds id other new found same)
      ∙ (elim (Bool-cases (str_eq id other)) [
        | inl e ↦ rw e refl
        | inr e ↦ rw e (sym (find_live-find? ds other distinct))
      ])

-- The documents found in a collection after an update and after a delete.
module _ (coll : Collection) (now id other : String)
    (distinct : distinct_ids coll.documents ≡ true) where
  unchanged :
      (value : Value) {d : Document}
      → find? (has_id id) coll.documents ≡ some d
      → d.deleted ≡ true
      → find_live coll.documents other ≡ (
          if str_eq id other
          then renewed now value (find_live coll.documents other)
          else find_live coll.documents other)
  unchanged value {d} found gone = elim (Bool-cases (str_eq id other)) [
    | inl e ↦
        (let nothing : find_live coll.documents other ≡ none =
            found_at coll.documents id other distinct e
            ∙ ap visible found
            ∙ ap (λ b. if b then none else some d) gone in
          ground (arith, nothing, e))
    | inr e ↦ rw e refl
  ]

  changed :
      (value : Value) {d : Document}
      → find? (has_id id) coll.documents ≡ some d
      → d.deleted ≡ false
      → find_live
          (set_first d.id (record d { content = value; updated_at = now }) coll.documents)
          other
        ≡ (if str_eq id other
            then renewed now value (find_live coll.documents other)
            else find_live coll.documents other)
  changed value {d} found kept =
      let same : d.id ≡ id = find?-id coll.documents id found in
      let new : Document = record d { content = value; updated_at = now } in
      ap (λ i. find_live (set_first i new coll.documents) other) same
      ∙ replaced_found coll.documents id other distinct new found same
      ∙ (elim (Bool-cases (str_eq id other)) [
        | inl e ↦
            (let there : find_live coll.documents other ≡ some d =
                found_at coll.documents id other distinct e
                ∙ ap visible found
                ∙ ap (λ b. if b then none else some d) kept in
              rw (e, there) (ap (λ b. if b then none else some new) kept))
        | inr e ↦ rw e refl
      ])

  pub update_found-found :
      (lib : Library) (value : Value) (o : Option Document)
      → find? (has_id id) coll.documents ≡ o
      → find_live (update_found lib coll o now value).0.documents other ≡ (
          if str_eq id other
          then renewed now value (find_live coll.documents other)
          else find_live coll.documents other)
  update_found-found lib value none missing = elim (Bool-cases (str_eq id other)) [
    | inl e ↦
        (let nothing : find_live coll.documents other ≡ none =
            found_at coll.documents id other distinct e ∙ ap visible missing in
          ground (arith, nothing, e))
    | inr e ↦ rw e refl
  ]
  update_found-found lib value (some d) found =
      either {A = Collection × Bool}
        (λ after. find_live after.0.documents other ≡ (
          if str_eq id other
          then renewed now value (find_live coll.documents other)
          else find_live coll.documents other))
        d.deleted (λ gone. unchanged value found gone) (λ kept. changed value found kept)

  pub delete_found-found :
      (o : Option Document)
      → find? (has_id id) coll.documents ≡ o
      → find_live (delete_found coll o now).0.documents other
        ≡ (if str_eq id other then none else find_live coll.documents other)
  delete_found-found none missing = elim (Bool-cases (str_eq id other)) [
    | inl e ↦
        (let nothing : find_live coll.documents other ≡ none =
            found_at coll.documents id other distinct e ∙ ap visible missing in
          ground (arith, nothing, e))
    | inr e ↦ rw e refl
  ]
  delete_found-found (some d) found =
      let same : d.id ≡ id = find?-id coll.documents id found in
      ap
        (λ i.
          find_live (set_first i (record d { deleted = true; updated_at = now }) coll.documents)
            other)
        same
      ∙ replaced_found coll.documents id other distinct
          (record d { deleted = true; updated_at = now }) found same
