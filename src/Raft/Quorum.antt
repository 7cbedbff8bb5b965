-- ===== src/Raft/Quorum.antt =====
-- raft.rs, the sorted match indices of `record_append_success`.
use cassettedb.Prelude.{
  ℕ, zero, suc, ◌+◌, ◌/◌, ◌≤◌, ◌<◌, ◌≡◌, refl, ◌↔◌, List, [], ◌∷◌, length, All, arith, leb,
  if◌then◌else◌, Bool-cases, inl, inr,
}
use cassettedb.Raft.Append.{insert_descending, sort_descending, get_or, quorum_match}

-- How many of the indices are at least `v`.
abbrev pub count_ge : ℕ → List ℕ → ℕ
count_ge v [] = 0
count_ge v (x ∷ xs) = (if leb v x then 1 else 0) + count_ge v xs

abbrev IsDescending : List ℕ → Type 0
IsDescending [] = Unit
IsDescending (x ∷ xs) = All (λ y. y ≤ x) xs × IsDescending xs

count_ge-insert_descending :
    (v x : ℕ) (ys : List ℕ)
    → count_ge v (insert_descending x ys) ≡ (if leb v x then 1 else 0) + count_ge v ys
unfolding insert_descending
count_ge-insert_descending v x [] = refl
count_ge-insert_descending v x (y ∷ ys) = ground (arith, count_ge-insert_descending v x ys)

count_ge-sort_descending : (v : ℕ) (xs : List ℕ) → count_ge v (sort_descending xs) ≡ count_ge v xs
unfolding sort_descending
count_ge-sort_descending v [] = refl
count_ge-sort_descending v (x ∷ xs) =
    omega
      (arith, count_ge-insert_descending v x (sort_descending xs), count_ge-sort_descending v xs)

length-insert_descending : (x : ℕ) (ys : List ℕ) → length (insert_descending x ys) ≡ suc (length ys)
unfolding insert_descending
length-insert_descending x [] = refl
length-insert_descending x (y ∷ ys) = ground (arith, length-insert_descending x ys)

length-sort_descending : (xs : List ℕ) → length (sort_descending xs) ≡ length xs
unfolding sort_descending
length-sort_descending [] = refl
length-sort_descending (x ∷ xs) =
    omega (arith, length-insert_descending x (sort_descending xs), length-sort_descending xs)

All-le_trans : (x y : ℕ) (zs : List ℕ) → x ≤ y → All (λ z. z ≤ x) zs → All (λ z. z ≤ y) zs
All-le_trans x y [] h a = tt
All-le_trans x y (z ∷ zs) h a = (omega arith, All-le_trans x y zs h a.1)

All-insert_descending :
    (b x : ℕ) (ys : List ℕ)
    → x ≤ b
    → All (λ z. z ≤ b) ys
    → All (λ z. z ≤ b) (insert_descending x ys)
unfolding insert_descending
All-insert_descending b x [] h a = (h, tt)
All-insert_descending b x (y ∷ ys) h a = ground (arith, All-insert_descending b x ys)

insert_descending-IsDescending :
    (x : ℕ) (ys : List ℕ) → IsDescending ys → IsDescending (insert_descending x ys)
unfolding insert_descending
insert_descending-IsDescending x [] h = (tt, tt)
insert_descending-IsDescending x (y ∷ ys) h = elim (Bool-cases (leb y x)) [
  | inl e ↦ rw e ((ground arith, All-le_trans y x ys (ground arith) h.0), h)
  | inr e ↦
      rw e
        (All-insert_descending y x ys (ground arith) h.0, insert_descending-IsDescending x ys h.1)
]

sort_descending-IsDescending : (xs : List ℕ) → IsDescending (sort_descending xs)
unfolding sort_descending
sort_descending-IsDescending [] = tt
sort_descending-IsDescending (x ∷ xs) =
    insert_descending-IsDescending x (sort_descending xs) (sort_descending-IsDescending xs)

count_ge-above : (v x : ℕ) (ys : List ℕ) → x < v → All (λ y. y ≤ x) ys → count_ge v ys ≡ 0
count_ge-above v x [] h a = refl
count_ge-above v x (y ∷ ys) h a = ground (arith, count_ge-above v x ys h a.1)

descending_count :
    (v i : ℕ) (ys : List ℕ)
    → IsDescending ys
    → i < length ys
    → (v ≤ get_or ys i 0) ↔ (i < count_ge v ys)
descending_count v i [] d h = elim h [ ]
descending_count v zero (y ∷ ys) d h = ground (arith, count_ge-above v y ys)
descending_count v (suc i) (y ∷ ys) d h =
    ground (arith, descending_count v i ys d.1, count_ge-above v y ys)

-- The index looked up in the sorted match indices is in range, and the match index found is the
-- greatest that more than half of a non-empty list of match indices have reached.
pub quorum_match_lem :
    (v : ℕ) (indices : List ℕ)
    → 0 < length indices
    → (length indices / 2 < length (sort_descending indices))
      × ((v ≤ quorum_match indices) ↔ (length indices / 2 < count_ge v indices))
unfolding quorum_match
quorum_match_lem v indices h =
    let size = length-sort_descending indices in
    let half : length indices / 2 < length (sort_descending indices) = omega arith in
    (
      half,
      rw (← count_ge-sort_descending v indices) (
          descending_count v (length indices / 2) (sort_descending indices)
            (sort_descending-IsDescending indices) half),
    )
