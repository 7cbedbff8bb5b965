-- ===== src/Bytes/Text.antt =====
-- A concrete reading of texts as numbers, by code points, which shows that the law of the string
-- conversions can hold.
use Prim.Native.Char.{Char, char, code, nul, IsScalar}
use Prim.Native.Nat.{Ordering, compare}
use text.Mathlib.TextEquality.{Char-path}
use mathlib.Core.Path.{ap₂}
use cassettedb.Prelude.{ℕ, String, List, [], ◌∷◌, ◌≡◌, refl, ◌⊎◌, inl, inr}

abbrev pub text_bytes : String → List ℕ
text_bytes String.[] = []
text_bytes (String.◌∷◌ c s) = code c ∷ text_bytes s

Ordering-cases : (o : Ordering) → (o ≡ Ordering.lt) ⊎ ((o ≡ Ordering.eq) ⊎ (o ≡ Ordering.gt))
Ordering-cases Ordering.lt = inl refl
Ordering-cases Ordering.eq = inr (inl refl)
Ordering-cases Ordering.gt = inr (inr refl)

scalar? : (n : ℕ) → IsScalar n ⊎ ¬ (IsScalar n)
scalar? n = elim (Ordering-cases (compare n 55296)) [
  | inl e ↦ inl (rw e tt)
  | inr (inl e) ↦ elim (Ordering-cases (compare 57343 n)) [
    | inl f ↦ elim (Ordering-cases (compare n 1114112)) [
      | inl g ↦ inl (rw (e, f, g) tt)
      | inr (inl g) ↦ inr (λ s. rw (e, f, g) at s)
      | inr (inr g) ↦ inr (λ s. rw (e, f, g) at s)
    ]
    | inr (inl f) ↦ inr (λ s. rw (e, f) at s)
    | inr (inr f) ↦ inr (λ s. rw (e, f) at s)
  ]
  | inr (inr e) ↦ elim (Ordering-cases (compare 57343 n)) [
    | inl f ↦ elim (Ordering-cases (compare n 1114112)) [
      | inl g ↦ inl (rw (e, f, g) tt)
      | inr (inl g) ↦ inr (λ s. rw (e, f, g) at s)
      | inr (inr g) ↦ inr (λ s. rw (e, f, g) at s)
    ]
    | inr (inl f) ↦ inr (λ s. rw (e, f) at s)
    | inr (inr f) ↦ inr (λ s. rw (e, f) at s)
  ]
]

char_of : (n : ℕ) → IsScalar n ⊎ ¬ (IsScalar n) → Char
char_of n (inl p) = char n p
char_of n (inr h) = nul

char_of-code : (c : Char) (d : IsScalar (code c) ⊎ ¬ (IsScalar (code c))) → char_of (code c) d ≡ c
unfolding char_of
char_of-code c (inl p) = Char-path _ _ refl
char_of-code (char n p) (inr h) = absurd (h p)

pub text_of : List ℕ → String
unfolding char_of
text_of [] = ""
text_of (n ∷ ns) = String.◌∷◌ (char_of n (scalar? n)) (text_of ns)

pub text_of-text_bytes : (s : String) → text_of (text_bytes s) ≡ s
unfolding text_of
text_of-text_bytes String.[] = refl
text_of-text_bytes (String.◌∷◌ c s) =
    ap₂ String.◌∷◌ (char_of-code c (scalar? (code c))) (text_of-text_bytes s)
