-- ===== src/Prelude/Map.antt =====
-- `HashMap<String, V>` as an association list with one entry for each key. Where the program
-- iterates over a HashMap the order is unspecified; an iteration here is in order of first insertion.
use mathlib.Core.Path.{◌≡◌, refl}
use mathlib.Core.Bool.{Bool, true, false}
use mathlib.Core.Option.{Option, none, some}
use mathlib.Core.List.{List, [], ◌∷◌, map}
use Prim.Native.String.{String}
use native.Mathlib.Omega.{arith}
use text.Mathlib.TextEquality.{eq_iff}
use cassettedb.Prelude.Tests.{str_eq, str_ltb, if◌then◌else◌}

abbrev pub Map {ℓ} : Type ℓ → Type ℓ
Map V = List (String × V)

module _ {ℓ} {V : Type ℓ} where
  unfoldable pub get : Map V → String → Option V
  get [] k = none
  get ((j, v) ∷ m) k = if str_eq j k then some v else get m k

  unfoldable pub insert : Map V → String → V → Map V
  insert [] k v = (k, v) ∷ []
  insert ((j, w) ∷ m) k v = if str_eq j k then (k, v) ∷ m else (j, w) ∷ insert m k v

  unfoldable pub remove : Map V → String → Map V
  remove [] k = []
  remove ((j, v) ∷ m) k = let rest = remove m k in if str_eq j k then rest else (j, v) ∷ rest

  -- `BTreeMap::insert`: the entries stay in the order of their keys.
  unfoldable pub insert_sorted : Map V → String → V → Map V
  insert_sorted [] k v = (k, v) ∷ []
  insert_sorted ((j, w) ∷ m) k v =
      if str_eq j k
      then (k, v) ∷ m
      else if str_ltb k j
      then (k, v) ∷ (j, w) ∷ m
      else (j, w) ∷ insert_sorted m k v

  unfoldable pub contains_key : Map V → String → Bool
  contains_key [] k = false
  contains_key ((j, v) ∷ m) k = if str_eq j k then true else contains_key m k

  abbrev pub keys : Map V → List String
  keys = map (λ e. e.0)

  abbrev pub values : Map V → List V
  values = map (λ e. e.1)

  pub get-insert :
      (m : Map V) (k j : String) (v : V)
      → get (insert m k v) j ≡ (if str_eq k j then some v else get m j)
  unfolding get insert
  get-insert [] k j v = refl
  get-insert ((i, w) ∷ m) k j v =
      ground (arith, get-insert m k j v, eq_iff i k, eq_iff i j, eq_iff k j)

  pub get-insert_sorted :
      (m : Map V) (k j : String) (v : V)
      → get (insert_sorted m k v) j ≡ (if str_eq k j then some v else get m j)
  unfolding get insert_sorted
  get-insert_sorted [] k j v = refl
  get-insert_sorted ((i, w) ∷ m) k j v =
      ground (arith, get-insert_sorted m k j v, eq_iff i k, eq_iff i j, eq_iff k j)

  pub get-remove :
      (m : Map V) (k j : String) → get (remove m k) j ≡ (if str_eq k j then none else get m j)
  unfolding get remove
  get-remove [] k j = ground arith
  get-remove ((i, w) ∷ m) k j = ground (arith, get-remove m k j, eq_iff i k, eq_iff i j, eq_iff k j)

module _ {ℓ} {V : Type ℓ} where
  pub contains_key-of_some :
      (m : Map V) (k : String) {v : V} → get m k ≡ some v → contains_key m k ≡ true
  unfolding get contains_key
  contains_key-of_some [] k h = cc
  contains_key-of_some ((j, w) ∷ m) k {v} h = ground (arith, contains_key-of_some m k {v = v})

pub ruleset map_laws = (get-insert, get-insert_sorted, get-remove)
