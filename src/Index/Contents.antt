-- ===== src/Index/Contents.antt =====
-- index.rs: which documents stand under which terms.
use cassettedb.Prelude.{
  ◌≡◌, refl, sym, ap, ◌∙◌, Bool, true, false, not, ◌&&◌, ◌||◌, none, some, String, List, [], ◌∷◌,
  ◌++◌, str_eq, if◌then◌else◌, arith, eq_iff, Option-cases, Bool-cases, inl, inr,
}
use cassettedb.Prelude.Map.{get, get-insert, get-remove}
use cassettedb.Json.{
  Value, Values, Fields, text, array, object, no_values, value_then, no_fields, field_then,
}
use cassettedb.Index.Inverted.{
  Postings, contains, set_insert, set_remove, or_default, add_token, drop_token, add_tokens,
  drop_tokens, keep_set, is_empty,
}

-- The document stands under the term.
abbrev pub listed : Postings → String → String → Bool
listed m term id = contains (or_default (get m term)) id

pub contains-append :
    (xs ys : List String) (id : String)
    → contains (xs ++ ys) id ≡ (contains xs id || contains ys id)
contains-append [] ys id = refl
contains-append (x ∷ xs) ys id = ground (arith, contains-append xs ys id)

contains-set_insert :
    (ids : List String) (id other : String)
    → contains (set_insert ids id) other ≡ (contains ids other || str_eq id other)
contains-set_insert ids id other = elim (Bool-cases (contains ids id)) [
  | inl e ↦ rw e (elim (Bool-cases (str_eq id other)) [
    | inl same ↦
        (let held = ap (contains ids) ((eq_iff id other).0 same) in ground (arith, e, same, held))
    | inr apart ↦ ground (arith, apart)
  ])
  | inr e ↦ rw e (contains-append ids (id ∷ []) other ∙ ground arith)
]

contains-set_remove :
    (ids : List String) (id other : String)
    → contains (set_remove ids id) other ≡ (contains ids other && not (str_eq id other))
contains-set_remove [] id other = refl
contains-set_remove (x ∷ xs) id other =
    ground (arith, contains-set_remove xs id other, eq_iff x id, eq_iff x other, eq_iff id other)

listed-add_token :
    (m : Postings) (id token term other : String)
    → listed (add_token m id token) term other
      ≡ (listed m term other || (str_eq token term && str_eq id other))
unfolding add_token
listed-add_token m id token term other =
    ap (λ o. contains (or_default o) other)
      (get-insert m token term (set_insert (or_default (get m token)) id))
    ∙ (elim (Bool-cases (str_eq token term)) [
      | inl same ↦ rw same (
          contains-set_insert (or_default (get m token)) id other
          ∙ ap (λ t. contains (or_default (get m t)) other || str_eq id other)
              ((eq_iff token term).0 same))
      | inr apart ↦ rw apart (ground arith)
    ])

empty_nothing : (ids : List String) → is_empty ids ≡ true → (id : String) → contains ids id ≡ false
empty_nothing [] h id = refl
empty_nothing (x ∷ ids) h id = cc h

listed-keep_set :
    (m : Postings) (token : String) (ids : List String) (term other : String)
    → listed (keep_set m token ids) term other
      ≡ (if str_eq token term then contains ids other else listed m term other)
listed-keep_set m token ids term other = elim (Bool-cases (is_empty ids)) [
  | inl e ↦ rw e (
      ap (λ o. contains (or_default o) other) (get-remove m token term)
      ∙ (elim (Bool-cases (str_eq token term)) [
        | inl same ↦ rw same (sym (empty_nothing ids e other))
        | inr apart ↦ rw apart refl
      ]))
  | inr e ↦ rw e (
      ap (λ o. contains (or_default o) other) (get-insert m token term ids)
      ∙ (elim (Bool-cases (str_eq token term)) [
        | inl same ↦ rw same refl
        | inr apart ↦ rw apart refl
      ]))
]

pub listed-drop_token :
    (m : Postings) (id token term other : String)
    → listed (drop_token m id token) term other
      ≡ (listed m term other && not (str_eq token term && str_eq id other))
unfolding drop_token
listed-drop_token m id token term other = elim (Option-cases (get m token)) [
  | inl missing ↦ rw missing (elim (Bool-cases (str_eq token term)) [
    | inl same ↦
        (let nothing : get m term ≡ none =
            ap (get m) (sym ((eq_iff token term).0 same)) ∙ missing in
          rw nothing)
    | inr apart ↦ rw apart (ground arith)
  ])
  | inr (ids, found) ↦ rw found (
      listed-keep_set m token (set_remove ids id) term other
      ∙ (elim (Bool-cases (str_eq token term)) [
        | inl same ↦
            (let here : get m term ≡ some ids =
                ap (get m) (sym ((eq_iff token term).0 same)) ∙ found in
              rw (same, here) (contains-set_remove ids id other))
        | inr apart ↦ rw apart (ground arith)
      ]))
]

module _ (tokenize : String → List String) where
  -- The tokens of the texts in a value.
  unfoldable mutual
    pub tokens : Value → List String
    tokens (text s) = tokenize s
    tokens (array vs) = tokens_of vs
    tokens (object fs) = tokens_in fs
    tokens _ = []

    pub tokens_of : Values → List String
    tokens_of no_values = []
    tokens_of (value_then v vs) = tokens v ++ tokens_of vs

    pub tokens_in : Fields → List String
    tokens_in no_fields = []
    tokens_in (field_then k v fs) = tokens v ++ tokens_in fs

  pub listed-add_tokens :
      (m : Postings) (id : String) (ts : List String) (term other : String)
      → listed (add_tokens m id ts) term other
        ≡ (listed m term other || (contains ts term && str_eq id other))
  listed-add_tokens m id [] term other = ground arith
  listed-add_tokens m id (t ∷ ts) term other =
      listed-add_tokens (add_token m id t) id ts term other
      ∙ (rw (listed-add_token m id t term other) (ground arith))

  pub listed-drop_tokens :
      (m : Postings) (id : String) (ts : List String) (term other : String)
      → listed (drop_tokens m id ts) term other
        ≡ (listed m term other && not (contains ts term && str_eq id other))
  listed-drop_tokens m id [] term other = ground arith
  listed-drop_tokens m id (t ∷ ts) term other =
      listed-drop_tokens (drop_token m id t) id ts term other
      ∙ (rw (listed-drop_token m id t term other) (ground arith))

  pub add_tokens-append :
      (m : Postings) (id : String) (xs ys : List String)
      → add_tokens m id (xs ++ ys) ≡ add_tokens (add_tokens m id xs) id ys
  add_tokens-append m id [] ys = refl
  add_tokens-append m id (x ∷ xs) ys = add_tokens-append (add_token m id x) id xs ys

  pub drop_tokens-append :
      (m : Postings) (id : String) (xs ys : List String)
      → drop_tokens m id (xs ++ ys) ≡ drop_tokens (drop_tokens m id xs) id ys
  drop_tokens-append m id [] ys = refl
  drop_tokens-append m id (x ∷ xs) ys = drop_tokens-append (drop_token m id x) id xs ys
