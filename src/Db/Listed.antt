-- ===== src/Db/Listed.antt =====
-- db.rs: which documents stand under which keys of a secondary index.
use cassettedb.Prelude.{
  ◌≡◌, refl, sym, ap, ◌∙◌, Bool, true, false, not, ◌&&◌, ◌||◌, Option, none, some, String, List, [],
  ◌∷◌, ◌++◌, any, find?, str_eq, if◌then◌else◌, arith, eq_iff, Option-cases, Bool-cases, inl, inr,
}
use cassettedb.Prelude.Map.{get, get-insert_sorted}
use cassettedb.Json.{Value, value_get}
use cassettedb.Index.Inverted.{contains, or_default}
use cassettedb.Index.Contents.{listed, contains-append, listed-drop_token}
use cassettedb.Db.Types.{Document, SecondaryIndex, Library}
use cassettedb.Db.Indexes.{
  push_sorted, add_to_secondary_index, remove_from_secondary_index, value_to_index_key,
}
use cassettedb.Db.Operations.{has_id, set_first, live, add_all}

abbrev pub implies : Bool → Bool → Bool
implies a b = not a || b

-- A document with the id has the property.
abbrev pub held : (Document → Bool) → List Document → String → Bool
held p ds id = any (λ d. has_id id d && p d) ds

abbrev pub is_live : (Document → Bool) → Document → Bool
is_live p d = not d.deleted && p d

-- No two documents have the same id.
abbrev pub distinct_ids : List Document → Bool
distinct_ids [] = true
distinct_ids (d ∷ ds) = not (any (has_id d.id) ds) && distinct_ids ds

pub held-none :
    (p : Document → Bool) (ds : List Document) (id : String)
    → any (has_id id) ds ≡ false
    → held p ds id ≡ false
held-none p [] id h = refl
held-none p (d ∷ ds) id h = ground (arith, held-none p ds id)

pub held-append :
    (p : Document → Bool) (ds es : List Document) (id : String)
    → held p (ds ++ es) id ≡ (held p ds id || held p es id)
held-append p [] es id = refl
held-append p (d ∷ ds) es id = ground (arith, held-append p ds es id)

pub held-live :
    (p : Document → Bool) (ds : List Document) (id : String)
    → held p (live ds) id ≡ held (is_live p) ds id
unfolding live
held-live p [] id = refl
held-live p (d ∷ ds) id = ground (arith, held-live p ds id)

module _ (id : String) (e : Document) (ds : List Document) where
  pub find?-here : has_id id e ≡ true → find? (has_id id) (e ∷ ds) ≡ some e
  find?-here h = ap (λ b. elim b [ true ↦ some e | false ↦ find? (has_id id) ds ]) h

  pub find?-later : has_id id e ≡ false → find? (has_id id) (e ∷ ds) ≡ find? (has_id id) ds
  find?-later h = ap (λ b. elim b [ true ↦ some e | false ↦ find? (has_id id) ds ]) h

pub some_eq : {d e : Document} → some d ≡ some e → d ≡ e
some_eq h = cc h

pub find?-id :
    (ds : List Document) (id : String) {d : Document} → find? (has_id id) ds ≡ some d → d.id ≡ id
find?-id [] id h = cc h
find?-id (e ∷ ds) id {d} h = elim (Bool-cases (has_id id e)) [
  | inl same ↦ ap (λ d. d.id) (some_eq (sym h ∙ find?-here id e ds same)) ∙ (eq_iff e.id id).0 same
  | inr apart ↦ find?-id ds id (sym (find?-later id e ds apart) ∙ h)
]

pub held-is_live :
    (p : Document → Bool) (ds : List Document) (id : String)
    → implies (held (is_live p) ds id) (held p ds id) ≡ true
held-is_live p [] id = refl
held-is_live p (d ∷ ds) id = ground (arith, held-is_live p ds id)

pub listed-nil : (key id : String) → listed [] key id ≡ false
unfolding get
listed-nil key id = refl

module _ (p : Document → Bool) where
  pub held-find? :
      (ds : List Document) (id : String) {d : Document}
      → distinct_ids ds ≡ true
      → find? (has_id id) ds ≡ some d
      → held p ds id ≡ p d
  held-find? [] id h found = cc found
  held-find? (e ∷ ds) id {d} h found = elim (Bool-cases (has_id id e)) [
    | inl same ↦
        (let head : d ≡ e = some_eq (sym found ∙ find?-here id e ds same) in
          rw head (
            let only : any (has_id id) ds ≡ false =
              rw (sym ((eq_iff e.id id).0 same)) (ground (arith, h)) in
            ground (arith, same, held-none p ds id only)))
    | inr apart ↦
        (let later =
            held-find? ds id (ground (arith, h)) (sym (find?-later id e ds apart) ∙ found) in
          ground (arith, apart, later))
  ]

  pub held-set_first :
      (ds : List Document) (id other : String) {d : Document} (new : Document)
      → distinct_ids ds ≡ true
      → find? (has_id id) ds ≡ some d
      → new.id ≡ id
      → held p (set_first id new ds) other ≡ (if str_eq id other then p new else held p ds other)
  held-set_first [] id other new h found e = cc found
  held-set_first (e ∷ ds) id other new h found same = elim (Bool-cases (has_id id e)) [
    | inl here ↦ rw here (
        let only : held p ds id ≡ false =
          held-none p ds id (rw (sym ((eq_iff e.id id).0 here)) (ground (arith, h))) in
        ground (arith, only, same, eq_iff e.id id, eq_iff id other))
    | inr apart ↦ rw apart (
        let later =
          held-set_first ds id other new (ground (arith, h))
            (sym (find?-later id e ds apart) ∙ found) same in
        ground (arith, apart, later, eq_iff id other))
  ]

module _ (lib : Library) where
  abbrev pub key_is : Option Value → String → Bool
  key_is none key = false
  key_is (some value) key = str_eq (value_to_index_key lib value) key

  -- Whether the document stands under the key in an index on the field.
  abbrev pub has_key : String → String → Document → Bool
  has_key field key doc = key_is (value_get doc.content field) key

  pub listed-push_sorted :
      (index : SecondaryIndex) (k id key other : String)
      → listed (push_sorted index k id) key other
        ≡ (listed index key other || (str_eq k key && str_eq id other))
  unfolding push_sorted
  listed-push_sorted index k id key other =
      ap (λ o. contains (or_default o) other)
        (get-insert_sorted index k key (or_default (get index k) ++ id ∷ []))
      ∙ (elim (Bool-cases (str_eq k key)) [
        | inl same ↦ rw same (
            contains-append (or_default (get index k)) (id ∷ []) other
            ∙ ap (λ t. contains (or_default (get index t)) other || (str_eq id other || false))
                ((eq_iff k key).0 same)
            ∙ ground arith)
        | inr apart ↦ rw apart (ground arith)
      ])

  pub listed-add_to_secondary_index :
      (index : SecondaryIndex) (field : String) (doc : Document) (key id : String)
      → listed (add_to_secondary_index lib index field doc) key id
        ≡ (listed index key id || (has_id id doc && has_key field key doc))
  unfolding add_to_secondary_index
  listed-add_to_secondary_index index field doc key id =
      elim (Option-cases (value_get doc.content field)) [
        | inl e ↦ rw e (ground arith)
        | inr (value, e) ↦
            rw e
              (listed-push_sorted index (value_to_index_key lib value) doc.id key id ∙ ground arith)
      ]

  pub listed-remove_from_secondary_index :
      (index : SecondaryIndex) (field : String) (doc : Document) (key id : String)
      → listed (remove_from_secondary_index lib index field doc) key id
        ≡ (listed index key id && not (has_id id doc && has_key field key doc))
  unfolding remove_from_secondary_index
  listed-remove_from_secondary_index index field doc key id =
      elim (Option-cases (value_get doc.content field)) [
        | inl e ↦ rw e (ground arith)
        | inr (value, e) ↦
            rw e
              (listed-drop_token index doc.id (value_to_index_key lib value) key id ∙ ground arith)
      ]

  pub listed-add_all :
      (index : SecondaryIndex) (field : String) (ds : List Document) (key id : String)
      → listed (add_all lib index field ds) key id
        ≡ (listed index key id || held (has_key field key) ds id)
  listed-add_all index field [] key id = ground arith
  listed-add_all index field (d ∷ ds) key id =
      listed-add_all (add_to_secondary_index lib index field d) field ds key id
      ∙ (rw (listed-add_to_secondary_index index field d key id) (ground arith))
