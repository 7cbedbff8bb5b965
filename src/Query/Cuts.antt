-- ===== src/Query/Cuts.antt =====
-- query.rs: where `find_balanced` cuts a text.
use Prim.Native.Char.{Char, code}
use Prim.Native.String.{◌++◌ as ◌+++◌, len}
use Prim.Native.String.append
use text.Mathlib.Text.{get?}
use text.Mathlib.TextLemmas.{append_assoc, append-nil}
use text.Mathlib.TextPositions.{len-append, get?-append_middle}
use cassettedb.Prelude.{
  ℕ, zero, suc, ◌+◌, ◌≡◌, refl, sym, ap, ◌∙◌, subst, Option, none, some, String, Bool, true, false,
  Bool-cases, inl, inr, if◌then◌else◌, ◌==◌, ==_iff, arith,
}
use cassettedb.Prelude.Texts.{strip_prefix}
use cassettedb.Prelude.TextLengths.{strip_prefix-append}
use cassettedb.Prelude.Integers.{ℤ, pos, negsuc}
use cassettedb.Query.Parse.{
  find_from, find_balanced, depth_after, deeper, shallower, is_outside, starts_with, width,
}

-- How often a character with this code stands in a text.
abbrev pub count : ℕ → String → ℕ
count k String.[] = 0
count k (String.◌∷◌ c s) = let rest = count k s in if code c == k then suc rest else rest

-- One where a text begins with the character.
abbrev pub first : ℕ → String → ℕ
first k String.[] = 0
first k (String.◌∷◌ c s) = if code c == k then 1 else 0

abbrev opened : ℤ → ℕ
opened (pos n) = n
opened (negsuc n) = 0

abbrev closed : ℤ → ℕ
closed (pos n) = 0
closed (negsuc n) = suc n

abbrev one_if : Bool → ℕ
one_if b = if b then 1 else 0

deeper_lem : (d : ℤ) → opened (deeper d) + closed d ≡ suc (opened d + closed (deeper d))
deeper_lem (pos n) = omega arith
deeper_lem (negsuc zero) = omega arith
deeper_lem (negsuc (suc n)) = omega arith

shallower_lem : (d : ℤ) → suc (opened (shallower d) + closed d) ≡ opened d + closed (shallower d)
shallower_lem (pos zero) = omega arith
shallower_lem (pos (suc n)) = omega arith
shallower_lem (negsuc n) = omega arith

depth_step :
    (d : ℤ) (c : ℕ)
    → opened (depth_after d c) + closed d + one_if (c == b')')
      ≡ opened d + closed (depth_after d c) + one_if (c == b'(')
depth_step d c = elim (Bool-cases (c == b'(')) [
  | inl e ↦
      (let same : c ≡ b'(' = (==_iff c b'(').0 e in
        subst
          (λ c.
            opened (depth_after d c) + closed d + one_if (c == b')')
            ≡ opened d + closed (depth_after d c) + one_if (c == b'('))
          (sym same) (omega (arith, deeper_lem d)))
  | inr e ↦ elim (Bool-cases (c == b')')) [
    | inl k ↦ rw (e, k) (omega (arith, shallower_lem d))
    | inr k ↦ rw (e, k) (omega arith)
  ]
]

outside_lem : (d : ℤ) → is_outside d ≡ true → (opened d ≡ 0) × (closed d ≡ 0)
outside_lem (pos zero) h = (refl, refl)
outside_lem (pos (suc n)) h = cc h
outside_lem (negsuc n) h = cc h

count_cons :
    (k : ℕ) (c : Char) (s : String) → count k (String.◌∷◌ c s) ≡ one_if (code c == k) + count k s
count_cons k c s = ground arith

len_cons : (c : Char) (s : String) → len (String.◌∷◌ c s) ≡ width c + len s
len_cons c s =
    ap len (sym (append.cons c "" s ∙ ap (String.◌∷◌ c) (append.nil s)))
    ∙ len-append (String.◌∷◌ c "") s

starts_with-append :
    (s needle : String) → starts_with s needle ≡ true → (right : String) × (s ≡ needle +++ right)
starts_with-append s needle h = of (strip_prefix s needle) refl h
  where
    of :
        (o : Option String)
        → strip_prefix s needle ≡ o
        → elim o [ none ↦ false | some _ ↦ true ] ≡ true
        → (right : String) × (s ≡ needle +++ right)
    of none e k = cc k
    of (some right) e k = (right, strip_prefix-append s needle e)

get?_of :
    (s t u : String) {whole : String} {a b : ℕ}
    → whole ≡ s +++ (t +++ u)
    → a ≡ len s
    → b ≡ len s + len t
    → get? whole a b ≡ some t
get?_of s t u {whole} {a} {b} same from to =
    ap (λ w. get? w a b) same
    ∙ ap (λ a. get? (s +++ (t +++ u)) a b) from
    ∙ ap (λ b. get? (s +++ (t +++ u)) (len s) b) to
    ∙ get?-append_middle s t u

-- A position `place` of a text that begins place `i` with this depth.
abbrev CutAt : ℤ → ℕ → String → String → ℕ → Type 0
CutAt depth i s needle place =
    (left : String) × (right : String) × (s ≡ left +++ (needle +++ right))
    × (place ≡ i + len left)
    × (opened depth + count b'(' left + first b'(' (needle +++ right)
        ≡ closed depth + count b')' left + first b')' (needle +++ right))

here-CutAt :
    (depth : ℤ) (i : ℕ) (c : Char) (s needle : String)
    → is_outside (depth_after depth (code c)) ≡ true
    → starts_with (String.◌∷◌ c s) needle ≡ true
    → CutAt depth i (String.◌∷◌ c s) needle i
here-CutAt depth i c s needle outside starts =
    let (right, same) = starts_with-append (String.◌∷◌ c s) needle starts in
    let (o, k) = outside_lem (depth_after depth (code c)) outside in
    (
      "",
      right,
      same ∙ sym (append.nil (needle +++ right)),
      omega arith,
      omega (arith, depth_step depth (code c), o, k, ap (first b'(') same, ap (first b')') same),
    )

later-CutAt :
    (depth : ℤ) (i : ℕ) (c : Char) (s needle : String) (place : ℕ)
    → CutAt (depth_after depth (code c)) (i + width c) s needle place
    → CutAt depth i (String.◌∷◌ c s) needle place
later-CutAt depth i c s needle place (left, right, same, there, balanced) = (
  String.◌∷◌ c left,
  right,
  ap (String.◌∷◌ c) same ∙ sym (append.cons c left (needle +++ right)),
  omega (arith, there, len_cons c left),
  omega
      (arith, balanced, depth_step depth (code c), count_cons b'(' c left, count_cons b')' c left),
)

find_from-CutAt :
    (depth : ℤ) (i : ℕ) (haystack needle : String) {place : ℕ}
    → find_from depth i haystack needle ≡ some place
    → CutAt depth i haystack needle place
unfolding find_from
find_from-CutAt depth i String.[] needle h = cc h
find_from-CutAt depth i (String.◌∷◌ c s) needle {place} h =
    let here = depth_after depth (code c) in
    let later : find_from here (i + width c) s needle ≡ some place
        → CutAt depth i (String.◌∷◌ c s) needle place =
      λ e.
        later-CutAt depth i c s needle place
          (find_from-CutAt here (i + width c) s needle {place = place} e) in
    elim (Bool-cases (is_outside here)) [
      | inl outside ↦ elim (Bool-cases (starts_with (String.◌∷◌ c s) needle)) [
        | inl starts ↦
            (let found : ◌≡◌ {A = Option ℕ} (some i) (some place) = rw (outside, starts) at h in
              subst (CutAt depth i (String.◌∷◌ c s) needle) (cc found)
                (here-CutAt depth i c s needle outside starts))
        | inr other ↦ later (rw (outside, other) at h)
      ]
      | inr inside ↦ later (rw inside at h)
    ]

-- The position that find_balanced gives divides the text into what stands before it, the needle,
-- and what stands after the needle; the slices before the position and behind the needle are these
-- two texts, and do not panic; and up to the first character at the position, inclusive, as many
-- parentheses are opened as closed.
pub find_balanced-append :
    (haystack needle : String) {place : ℕ}
    → find_balanced haystack needle ≡ some place
    → (left : String) × (right : String) × (haystack ≡ left +++ (needle +++ right))
      × (get? haystack 0 place ≡ some left)
      × (get? haystack (place + len needle) (len haystack) ≡ some right)
      × (count b'(' left + first b'(' (needle +++ right)
          ≡ count b')' left + first b')' (needle +++ right))
unfolding find_balanced
find_balanced-append haystack needle {place} h =
    let (left, right, same, there, balanced) = find_from-CutAt (pos 0) 0 haystack needle h in
    let apart : haystack ≡ (left +++ needle) +++ (right +++ "") =
      same
      ∙ sym (append_assoc left needle right)
      ∙ ap (λ r. (left +++ needle) +++ r) (sym (append-nil right)) in
    let whole =
      ap len apart
      ∙ len-append (left +++ needle) (right +++ "")
      ∙ ap (λ r. len (left +++ needle) + len r) (append-nil right) in
    (
      left,
      right,
      same,
      get?_of "" left (needle +++ right) (same ∙ sym (append.nil (left +++ (needle +++ right))))
          refl (omega (arith, there)),
      get?_of (left +++ needle) right "" apart (omega (arith, there, len-append left needle)) whole,
      omega (arith, balanced),
    )
