-- ===== src/Db/Found.antt =====
-- db.rs: which document the reads find after a change to a list of documents.
use cassettedb.Prelude.{
  ◌≡◌, refl, sym, ◌∙◌, true, false, Option, none, some, String, List, [], ◌∷◌, ◌++◌, any, find?,
  str_eq, if◌then◌else◌, arith, eq_iff, Bool-cases, inl, inr,
}
use cassettedb.Db.Types.{Document}
use cassettedb.Db.Operations.{has_id, set_first}
use cassettedb.Db.Listed.{distinct_ids, find?-later}
use cassettedb.Db.Queries.{find_live}

-- A document that is not deleted.
abbrev pub visible : Option Document → Option Document
visible none = none
visible (some d) = if d.deleted then none else some d

find_live-none :
    (ds : List Document) (id : String) → any (has_id id) ds ≡ false → find_live ds id ≡ none
find_live-none [] id h = refl
find_live-none (d ∷ ds) id h = ground (arith, h, find_live-none ds id)

pub find_live-find? :
    (ds : List Document) (id : String)
    → distinct_ids ds ≡ true
    → find_live ds id ≡ visible (find? (has_id id) ds)
find_live-find? [] id h = refl
find_live-find? (d ∷ ds) id h =
    ground (arith, h, find_live-find? ds id, find_live-none ds id, eq_iff d.id id)

pub find?-set_first :
    (ds : List Document) (id other : String) {d : Document} (new : Document)
    → find? (has_id id) ds ≡ some d
    → new.id ≡ id
    → find? (has_id other) (set_first id new ds)
      ≡ (if str_eq id other then some new else find? (has_id other) ds)
find?-set_first [] id other new found same = cc found
find?-set_first (e ∷ ds) id other {d} new found same = elim (Bool-cases (has_id id e)) [
  | inl here ↦ ground (arith, here, same, eq_iff e.id id, eq_iff id other)
  | inr apart ↦
      (let later =
          find?-set_first ds id other {d = d} new (sym (find?-later id e ds apart) ∙ found) same in
        ground (arith, apart, later, eq_iff e.id id, eq_iff e.id other, eq_iff id other))
]

pub find_live-append :
    (ds : List Document) (d : Document) (id : String)
    → any (has_id d.id) ds ≡ false
    → d.deleted ≡ false
    → find_live (ds ++ d ∷ []) id ≡ (if str_eq d.id id then some d else find_live ds id)
find_live-append [] d id fresh kept = ground (arith, kept)
find_live-append (e ∷ ds) d id fresh kept =
    ground (
      arith,
      fresh,
      find_live-append ds d id,
      kept,
      eq_iff d.id id,
      eq_iff e.id d.id,
      eq_iff e.id id,
    )
