-- ===== src/Db/Entries.antt =====
-- Predicates on the entries of a map, for the maps of collections and of indexes.
use cassettedb.Prelude.{
  ◌≡◌, subst, some, String, [], ◌∷◌, All, str_eq, Bool-cases, inl, inr, eq_iff, arith,
}
use cassettedb.Prelude.Map.{Map, get, insert, remove}
use cassettedb.Db.Indexes.{map_entries}

module _ {V : Type 0} (P : String × V → Type 0) where
  pub All-insert : (m : Map V) (k : String) (v : V) → All P m → P (k, v) → All P (insert m k v)
  unfolding insert
  All-insert [] k v h p = (p, tt)
  All-insert ((j, w) ∷ m) k v h p = elim (Bool-cases (str_eq j k)) [
    | inl e ↦ rw e (p, h.1)
    | inr e ↦ rw e (h.0, All-insert m k v h.1 p)
  ]

  pub All-remove : (m : Map V) (k : String) → All P m → All P (remove m k)
  unfolding remove
  All-remove [] k h = tt
  All-remove ((j, w) ∷ m) k h = elim (Bool-cases (str_eq j k)) [
    | inl e ↦ rw e (All-remove m k h.1)
    | inr e ↦ rw e (h.0, All-remove m k h.1)
  ]

  pub All-get : (m : Map V) (k : String) {v : V} → All P m → get m k ≡ some v → P (k, v)
  unfolding get
  All-get [] k h e = cc e
  All-get ((j, w) ∷ m) k {v} h e = elim (Bool-cases (str_eq j k)) [
    | inl same ↦
        (let found : w ≡ v = ground (arith, e, same) in
          subst (λ i. P (i, v)) ((eq_iff j k).0 same) (subst (λ u. P (j, u)) found h.0))
    | inr apart ↦ All-get m k h.1 (ground (arith, e, apart))
  ]

pub All-map_entries :
    {V : Type 0} (P Q : String × V → Type 0) (f : String → V → V) (m : Map V)
    → ((k : String) (v : V) → P (k, v) → Q (k, f k v))
    → All P m
    → All Q (map_entries f m)
All-map_entries P Q f [] step h = tt
All-map_entries P Q f ((k, v) ∷ m) step h = (step k v h.0, All-map_entries P Q f m step h.1)
