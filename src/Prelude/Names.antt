-- ===== src/Prelude/Names.antt =====
-- Distinct names: two lists of names out of a third, which together are longer, have one in common.
use Prim.Native.Nat.{ℕ, ◌+◌, ◌≤◌, ◌<◌}
use Prim.Native.String.{String}
use mathlib.Core.Path.{◌≡◌, refl, sym, ap, subst}
use mathlib.Core.Logic.{◌≢◌, ◌⊎◌, inl, inr}
use mathlib.Core.List.{List, [], ◌∷◌, ◌++◌}
use native.Mathlib.Omega.{arith}
use text.Mathlib.TextEquality.{eq_iff}
use cassettedb.Prelude.Tests.{str_eq, Bool-cases}
use cassettedb.Prelude.Lists.{length, length-append}

abbrev pub Among : {A : Type 0} → A → List A → Type 0
Among a [] = ⊥
Among a (x ∷ xs) = (a ≡ x) ⊎ Among a xs

abbrev pub Distinct : List String → Type 0
Distinct [] = Unit
Distinct (x ∷ xs) = ¬ (Among x xs) × Distinct xs

pub Among-append_left : {A : Type 0} (a : A) (xs ys : List A) → Among a xs → Among a (xs ++ ys)
Among-append_left a [] ys h = absurd h
Among-append_left a (x ∷ xs) ys (inl e) = inl e
Among-append_left a (x ∷ xs) ys (inr h) = inr (Among-append_left a xs ys h)

pub Among-append_right : {A : Type 0} (a : A) (xs ys : List A) → Among a ys → Among a (xs ++ ys)
Among-append_right a [] ys h = h
Among-append_right a (x ∷ xs) ys h = inr (Among-append_right a xs ys h)

pub Among-append :
    {A : Type 0} (a : A) (xs ys : List A) → Among a (xs ++ ys) → Among a xs ⊎ Among a ys
Among-append a [] ys h = inr h
Among-append a (x ∷ xs) ys (inl e) = inl (inl e)
Among-append a (x ∷ xs) ys (inr h) = elim (Among-append a xs ys h) [
  | inl l ↦ inl (inr l)
  | inr r ↦ inr r
]

-- Where a name stands in a list.
split :
    {a : String} (xs : List String)
    → Among a xs
    → (front : List String) × (back : List String) × (xs ≡ front ++ a ∷ back)
split [] h = absurd h
split {a} (x ∷ xs) (inl e) = ([], xs, ap (λ y. y ∷ xs) (sym e))
split {a} (x ∷ xs) (inr h) = let (front, back, e) = split xs h in (x ∷ front, back, ap (◌∷◌ x) e)

Among-remove :
    {a b : String} (front back : List String)
    → b ≢ a
    → Among b (front ++ a ∷ back)
    → Among b (front ++ back)
Among-remove {a} {b} front back ne h = elim (Among-append b front (a ∷ back) h) [
  | inl l ↦ Among-append_left b front back l
  | inr (inl e) ↦ absurd (ne e)
  | inr (inr r) ↦ Among-append_right b front back r
]

pub length-le_of_Distinct :
    (xs ys : List String)
    → Distinct xs
    → ((v : String) → Among v xs → Among v ys)
    → length xs ≤ length ys
length-le_of_Distinct [] ys d sub = omega arith
length-le_of_Distinct (x ∷ xs) ys d sub =
    let (front, back, e) = split ys (sub x (inl refl)) in
    let shorter : length xs ≤ length (front ++ back) =
      length-le_of_Distinct xs (front ++ back) d.1 (λ v h.
        Among-remove front back (λ same. d.0 (subst (λ u. Among u xs) same h))
          (subst (Among v) e (sub v (inr h)))) in
    omega (
      arith,
      shorter,
      ap {B = ℕ} length e,
      length-append front (x ∷ back),
      length-append front back,
    )

dec-Among : (v : String) (xs : List String) → Among v xs ⊎ ¬ (Among v xs)
dec-Among v [] = inr (λ h. h)
dec-Among v (x ∷ xs) = elim (Bool-cases (str_eq v x)) [
  | inl e ↦ inl (inl ((eq_iff v x).0 e))
  | inr ne ↦ elim (dec-Among v xs) [
    | inl h ↦ inl (inr h)
    | inr none ↦ inr (elim [ inl e ↦ cc (ne, (eq_iff v x).1 e) | inr h ↦ none h ])
  ]
]

common_or_disjoint :
    (xs ys : List String)
    → ((v : String) × Among v xs × Among v ys) ⊎ ((v : String) → Among v xs → ¬ (Among v ys))
common_or_disjoint [] ys = inr (λ v h. absurd h)
common_or_disjoint (x ∷ xs) ys = elim (dec-Among x ys) [
  | inl h ↦ inl (x, inl refl, h)
  | inr none ↦ elim (common_or_disjoint xs ys) [
    | inl (v, l, r) ↦ inl (v, inr l, r)
    | inr apart ↦
        inr (λ v. elim [ inl e ↦ λ h. none (subst (λ u. Among u ys) e h) | inr l ↦ apart v l ])
  ]
]

pub Distinct-append :
    (xs ys : List String)
    → Distinct xs
    → Distinct ys
    → ((v : String) → Among v xs → ¬ (Among v ys))
    → Distinct (xs ++ ys)
Distinct-append [] ys dx dy apart = dy
Distinct-append (x ∷ xs) ys dx dy apart = (
  (λ h. elim (Among-append x xs ys h) [ inl l ↦ dx.0 l | inr r ↦ apart x (inl refl) r ]),
  Distinct-append xs ys dx.1 dy (λ v l. apart v (inr l)),
)

-- Two sets of names out of `all` that together have more names than `all` share one.
pub common_name :
    (xs ys names : List String)
    → Distinct xs
    → Distinct ys
    → ((v : String) → Among v xs → Among v names)
    → ((v : String) → Among v ys → Among v names)
    → length names < length xs + length ys
    → (v : String) × Among v xs × Among v ys
common_name xs ys names dx dy sx sy h = elim (common_or_disjoint xs ys) [
  | inl found ↦ found
  | inr apart ↦ absurd (
      omega (
        arith,
        length-append xs ys,
        length-le_of_Distinct (xs ++ ys) names (Distinct-append xs ys dx dy apart)
            (λ v m. elim (Among-append v xs ys m) [ inl l ↦ sx v l | inr r ↦ sy v r ]),
      ))
]
