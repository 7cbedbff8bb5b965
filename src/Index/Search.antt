-- ===== src/Index/Search.antt =====
-- index.rs: what indexing and removing a document change, and what a search finds.
use cassettedb.Prelude.{
  ◌≡◌, refl, sym, ap, ◌∙◌, Bool, false, not, ◌&&◌, ◌||◌, Option, none, some, String, List, [], ◌∷◌,
  all, retain, str_eq, arith, eq_iff, Option-cases, Bool-cases, inl, inr,
}
use cassettedb.Prelude.Map.{get}
use cassettedb.Json.{
  Value, Values, Fields, text, array, object, no_values, value_then, no_fields, field_then, null,
  boolean, number,
}
use cassettedb.Index.Inverted.{
  Postings, InvertedIndex, contains, add_tokens, drop_tokens, index_value, index_values, is_empty,
  index_fields, remove_value, remove_values, remove_fields, index_document, remove_document, narrow,
  search_tokens, search,
}
use cassettedb.Index.Contents.{
  listed, tokens, tokens_of, tokens_in, listed-add_tokens, listed-drop_tokens, add_tokens-append,
  drop_tokens-append,
}

module _ (tokenize : String → List String) where
  mutual
    unfolding index_value tokens

    index_value-tokens :
        (m : Postings) (id : String) (v : Value)
        → index_value tokenize m id v ≡ add_tokens m id (tokens tokenize v)
    index_value-tokens m id (text s) = refl
    index_value-tokens m id (array vs) = index_values-tokens m id vs
    index_value-tokens m id (object fs) = index_fields-tokens m id fs
    index_value-tokens m id null = refl
    index_value-tokens m id (boolean b) = refl
    index_value-tokens m id (number n) = refl

    index_values-tokens :
        (m : Postings) (id : String) (vs : Values)
        → index_values tokenize m id vs ≡ add_tokens m id (tokens_of tokenize vs)
    index_values-tokens m id no_values = refl
    index_values-tokens m id (value_then v vs) =
        index_values-tokens (index_value tokenize m id v) id vs
        ∙ ap (λ n. add_tokens n id (tokens_of tokenize vs)) (index_value-tokens m id v)
        ∙ sym (add_tokens-append tokenize m id (tokens tokenize v) (tokens_of tokenize vs))

    index_fields-tokens :
        (m : Postings) (id : String) (fs : Fields)
        → index_fields tokenize m id fs ≡ add_tokens m id (tokens_in tokenize fs)
    index_fields-tokens m id no_fields = refl
    index_fields-tokens m id (field_then k v fs) =
        index_fields-tokens (index_value tokenize m id v) id fs
        ∙ ap (λ n. add_tokens n id (tokens_in tokenize fs)) (index_value-tokens m id v)
        ∙ sym (add_tokens-append tokenize m id (tokens tokenize v) (tokens_in tokenize fs))

  mutual
    unfolding remove_value tokens

    remove_value-tokens :
        (m : Postings) (id : String) (v : Value)
        → remove_value tokenize m id v ≡ drop_tokens m id (tokens tokenize v)
    remove_value-tokens m id (text s) = refl
    remove_value-tokens m id (array vs) = remove_values-tokens m id vs
    remove_value-tokens m id (object fs) = remove_fields-tokens m id fs
    remove_value-tokens m id null = refl
    remove_value-tokens m id (boolean b) = refl
    remove_value-tokens m id (number n) = refl

    remove_values-tokens :
        (m : Postings) (id : String) (vs : Values)
        → remove_values tokenize m id vs ≡ drop_tokens m id (tokens_of tokenize vs)
    remove_values-tokens m id no_values = refl
    remove_values-tokens m id (value_then v vs) =
        remove_values-tokens (remove_value tokenize m id v) id vs
        ∙ ap (λ n. drop_tokens n id (tokens_of tokenize vs)) (remove_value-tokens m id v)
        ∙ sym (drop_tokens-append tokenize m id (tokens tokenize v) (tokens_of tokenize vs))

    remove_fields-tokens :
        (m : Postings) (id : String) (fs : Fields)
        → remove_fields tokenize m id fs ≡ drop_tokens m id (tokens_in tokenize fs)
    remove_fields-tokens m id no_fields = refl
    remove_fields-tokens m id (field_then k v fs) =
        remove_fields-tokens (remove_value tokenize m id v) id fs
        ∙ ap (λ n. drop_tokens n id (tokens_in tokenize fs)) (remove_value-tokens m id v)
        ∙ sym (drop_tokens-append tokenize m id (tokens tokenize v) (tokens_in tokenize fs))

  -- After a document is indexed, a document stands under a term exactly if it did before or if it
  -- is the indexed one and the term is a token of a text in its value.
  pub index_document_lem :
      (index : InvertedIndex) (id : String) (v : Value) (term other : String)
      → listed (index_document tokenize index id v).map term other
        ≡ (listed index.map term other || (contains (tokens tokenize v) term && str_eq id other))
  unfolding index_document
  index_document_lem index id v term other =
      ap (λ m. listed m term other) (index_value-tokens index.map id v)
      ∙ listed-add_tokens tokenize index.map id (tokens tokenize v) term other

  remove_document_lem :
      (index : InvertedIndex) (id : String) (v : Value) (term other : String)
      → listed (remove_document tokenize index id v).map term other ≡ (
          listed index.map term other && not (contains (tokens tokenize v) term && str_eq id other))
  unfolding remove_document
  remove_document_lem index id v term other =
      ap (λ m. listed m term other) (remove_value-tokens index.map id v)
      ∙ listed-drop_tokens tokenize index.map id (tokens tokenize v) term other

  -- A document that stood under no term and is indexed and removed again with the same value
  -- leaves every document under the terms under which it stood before.
  pub remove_document-index_document :
      (index : InvertedIndex) (id : String) (v : Value) (term other : String)
      → ((t : String) → listed index.map t id ≡ false)
      → listed (remove_document tokenize (index_document tokenize index id v) id v).map term other
        ≡ listed index.map term other
  remove_document-index_document index id v term other fresh =
      remove_document_lem (index_document tokenize index id v) id v term other
      ∙ (rw (index_document_lem index id v term other) (elim (Bool-cases (str_eq id other)) [
        | inl same ↦
            (let absent : listed index.map term other ≡ false =
                ap (listed index.map term) (sym ((eq_iff id other).0 same)) ∙ fresh term in
              rw (same, absent) (ground arith))
        | inr apart ↦ rw apart (ground arith)
      ]))

  contains-retain :
      (p : String → Bool) (xs : List String) (id : String)
      → contains (retain p xs) id ≡ (contains xs id && p id)
  contains-retain p [] id = refl
  contains-retain p (x ∷ xs) id =
      let rest = contains-retain p xs id in
      elim (Bool-cases (str_eq x id)) [
        | inl same ↦ (let alike = ap p ((eq_iff x id).0 same) in ground (arith, rest, same, alike))
        | inr apart ↦ ground (arith, rest, apart)
      ]

  search_tokens_found :
      (m : Postings) (result : Option (List String)) (t : String) (ts ids : List String)
      → get m t ≡ some ids
      → search_tokens m result (t ∷ ts) ≡ search_tokens m (some (narrow result ids)) ts
  unfolding search_tokens
  search_tokens_found m result t ts ids h =
      ap
        (λ (o : Option (List String)). elim o [
          | none ↦ []
          | some ids ↦ search_tokens m (some (narrow result ids)) ts
        ])
        h

  search_tokens_missing :
      (m : Postings) (result : Option (List String)) (t : String) (ts : List String)
      → get m t ≡ none
      → search_tokens m result (t ∷ ts) ≡ []
  unfolding search_tokens
  search_tokens_missing m result t ts h =
      ap
        (λ (o : Option (List String)). elim o [
          | none ↦ []
          | some ids ↦ search_tokens m (some (narrow result ids)) ts
        ])
        h

  search_tokens_kept :
      (m : Postings) (kept ts : List String) (id : String)
      → contains (search_tokens m (some kept) ts) id
        ≡ (contains kept id && all (λ t. listed m t id) ts)
  unfolding search_tokens
  search_tokens_kept m kept [] id = ground arith
  search_tokens_kept m kept (t ∷ ts) id = elim (Option-cases (get m t)) [
    | inl missing ↦ rw (missing, search_tokens_missing m (some kept) t ts missing) (ground arith)
    | inr (ids, found) ↦
        rw (found, search_tokens_found m (some kept) t ts ids found)
          (search_tokens_kept m (retain (contains ids) kept) ts id
            ∙ (rw (contains-retain (contains ids) kept id) (ground arith)))
  ]

  search_of :
      (m : Postings) (ts : List String) (id : String)
      → contains (search_tokens m none ts) id ≡ (not (is_empty ts) && all (λ t. listed m t id) ts)
  unfolding search_tokens
  search_of m [] id = refl
  search_of m (t ∷ ts) id = elim (Option-cases (get m t)) [
    | inl missing ↦ rw (missing, search_tokens_missing m none t ts missing)
    | inr (ids, found) ↦
        rw (found, search_tokens_found m none t ts ids found) (search_tokens_kept m ids ts id)
  ]

  -- A search finds exactly the documents that stand under every token of the query, and none for a
  -- query without tokens.
  pub search_lem :
      (index : InvertedIndex) (query id : String)
      → contains (search tokenize index query) id
        ≡ (not (is_empty (tokenize query)) && all (λ t. listed index.map t id) (tokenize query))
  unfolding search
  search_lem index query id = search_of index.map (tokenize query) id
