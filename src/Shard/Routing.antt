-- ===== src/Shard/Routing.antt =====
-- shard.rs: where the router sends a document.
use cassettedb.Prelude.{
  ℕ, zero, suc, ◌≡◌, ◌≢◌, ◌⊎◌, inl, inr, refl, sym, ap, ◌∙◌, subst, Option, none, some, String,
  List, [], ◌∷◌, ◌++◌, leb, ltb, ◌==◌, arith, Bool-cases, Option-cases, All,
}
use cassettedb.Prelude.Names.{Among}
use cassettedb.Shard.Router.{
  Ring, Hashing, ring_insert, at_least, first, or_first, hash_key, add_virtual, add_shards,
  shard_for,
}

-- A further virtual node takes over the key or leaves it where it was.
abbrev pub KeptOr : String → Option String → Option String → Type 0
KeptOr s after before = (after ≡ some s) ⊎ (after ≡ before)

at_least-ring_insert :
    (ring : Ring) (h k : ℕ) (s : String)
    → KeptOr s (at_least (ring_insert ring h s) k) (at_least ring k)
unfolding at_least ring_insert
at_least-ring_insert [] h k s = elim (Bool-cases (leb k h)) [
  | inl e ↦ inl (rw e refl)
  | inr e ↦ inr (rw e refl)
]
at_least-ring_insert ((j, t) ∷ ring) h k s = ground (arith, at_least-ring_insert ring h k s)

first-ring_insert :
    (ring : Ring) (h : ℕ) (s : String) → KeptOr s (first (ring_insert ring h s)) (first ring)
unfolding ring_insert
first-ring_insert [] h s = inl refl
first-ring_insert ((j, t) ∷ ring) h s = ground arith

-- The shard of a hash.
abbrev route : Ring → ℕ → Option String
route ring k = or_first ring (at_least ring k)

or_first_kept :
    (s : String) (ring' ring : Ring) (after before : Option String)
    → KeptOr s after before
    → KeptOr s (first ring') (first ring)
    → KeptOr s (or_first ring' after) (or_first ring before)
or_first_kept s ring' ring after before (inl e) f = inl (ap (or_first ring') e)
or_first_kept s ring' ring none none (inr e) f = f
or_first_kept s ring' ring none (some t) (inr e) f = cc e
or_first_kept s ring' ring (some t) none (inr e) f = cc e
or_first_kept s ring' ring (some t) (some u) (inr e) f = inr e

KeptOr-trans : (s : String) (c b a : Option String) → KeptOr s c b → KeptOr s b a → KeptOr s c a
KeptOr-trans s c b a (inl e) f = inl e
KeptOr-trans s c b a (inr e) (inl f) = inl (e ∙ f)
KeptOr-trans s c b a (inr e) (inr f) = inr (e ∙ f)

-- The entries of the ring are of these shards.
abbrev Ringed : List String → Ring → Type 0
Ringed shards ring = All (λ (e : ℕ × String). Among e.1 shards) ring

ring_insert-Ringed :
    (shards : List String) (ring : Ring) (h : ℕ) (s : String)
    → Among s shards
    → Ringed shards ring
    → Ringed shards (ring_insert ring h s)
unfolding ring_insert
ring_insert-Ringed shards [] h s m r = (m, tt)
ring_insert-Ringed shards ((j, t) ∷ ring) h s m (here, r) =
    let rest = ring_insert-Ringed shards ring h s m r in
    elim (Bool-cases (j == h)) [
      | inl e ↦ rw e (m, r)
      | inr e ↦ elim (Bool-cases (ltb h j)) [
        | inl f ↦ rw (e, f) (m, (here, r))
        | inr f ↦ rw (e, f) (here, rest)
      ]
    ]

at_least-Ringed :
    (shards : List String) (ring : Ring) (k : ℕ) {t : String}
    → Ringed shards ring
    → at_least ring k ≡ some t
    → Among t shards
unfolding at_least
at_least-Ringed shards [] k r h = cc h
at_least-Ringed shards ((j, u) ∷ ring) k {t} (here, r) h = elim (Bool-cases (leb k j)) [
  | inl e ↦
      (let now : some u ≡ some t = rw e at h in
        let same : u ≡ t = cc now in subst (λ x. Among x shards) same here)
  | inr e ↦ (let now : at_least ring k ≡ some t = rw e at h in at_least-Ringed shards ring k r now)
]

-- A ring with an entry leads every hash to one of its shards.
route-Ringed :
    (shards : List String) (ring : Ring) (k : ℕ)
    → Ringed shards ring
    → first ring ≢ none
    → (t : String) × (route ring k ≡ some t) × Among t shards
route-Ringed shards [] k r h = absurd (h refl)
route-Ringed shards ((j, u) ∷ ring) k r h = elim (Option-cases (at_least ((j, u) ∷ ring) k)) [
  | inl e ↦ (u, ap (or_first ((j, u) ∷ ring)) e, r.0)
  | inr (t, e) ↦ (t, ap (or_first ((j, u) ∷ ring)) e, at_least-Ringed shards ((j, u) ∷ ring) k r e)
]

ring_insert_nonempty : (ring : Ring) (h : ℕ) (s : String) → first (ring_insert ring h s) ≢ none
unfolding ring_insert
ring_insert_nonempty [] h s e = cc e
ring_insert_nonempty ((j, t) ∷ ring) h s e = ground (arith, e)

module _ (hashing : Hashing) where
  -- The virtual nodes of one more shard.
  add_virtual-KeptOr :
      (n v : ℕ) (ring : Ring) (s : String) (k : ℕ)
      → KeptOr s (route (add_virtual hashing n v ring s) k) (route ring k)
  unfolding add_virtual
  add_virtual-KeptOr zero v ring s k = inr refl
  add_virtual-KeptOr (suc n) v ring s k =
      let h = hash_key hashing (hashing.virtual_name s v) in
      let ring' = ring_insert ring h s in
      KeptOr-trans s _ (route ring' k) (route ring k) (add_virtual-KeptOr n (suc v) ring' s k) (
        or_first_kept s ring' ring (at_least ring' k) (at_least ring k)
          (at_least-ring_insert ring h k s) (first-ring_insert ring h s))

  add_virtual-Ringed :
      (n v : ℕ) (ring : Ring) (s : String) (shards : List String)
      → Among s shards
      → Ringed shards ring
      → Ringed shards (add_virtual hashing n v ring s)
  unfolding add_virtual
  add_virtual-Ringed zero v ring s shards m r = r
  add_virtual-Ringed (suc n) v ring s shards m r =
      add_virtual-Ringed n (suc v) _ s shards m (ring_insert-Ringed shards ring _ s m r)

  add_virtual_nonempty :
      (n v : ℕ) (ring : Ring) (s : String)
      → first ring ≢ none
      → first (add_virtual hashing n v ring s) ≢ none
  unfolding add_virtual
  add_virtual_nonempty zero v ring s h = h
  add_virtual_nonempty (suc n) v ring s h =
      add_virtual_nonempty n (suc v) _ s (ring_insert_nonempty ring _ s)

  add_shards-append :
      (n : ℕ) (ring : Ring) (shards : List String) (s : String)
      → add_shards hashing n ring (shards ++ s ∷ [])
        ≡ add_virtual hashing n 0 (add_shards hashing n ring shards) s
  unfolding add_shards
  add_shards-append n ring [] s = refl
  add_shards-append n ring (t ∷ shards) s =
      add_shards-append n (add_virtual hashing n 0 ring t) shards s

  add_shards-Ringed :
      (n : ℕ) (ring : Ring) (shards all_shards : List String)
      → ((t : String) → Among t shards → Among t all_shards)
      → Ringed all_shards ring
      → Ringed all_shards (add_shards hashing n ring shards)
  unfolding add_shards
  add_shards-Ringed n ring [] all_shards sub r = r
  add_shards-Ringed n ring (t ∷ shards) all_shards sub r =
      add_shards-Ringed n (add_virtual hashing n 0 ring t) shards all_shards (λ u m. sub u (inr m))
        (add_virtual-Ringed n 0 ring t all_shards (sub t (inl refl)) r)

  add_shards_keeps_nonempty :
      (n : ℕ) (ring : Ring) (shards : List String)
      → first ring ≢ none
      → first (add_shards hashing n ring shards) ≢ none
  unfolding add_shards
  add_shards_keeps_nonempty n ring [] h = h
  add_shards_keeps_nonempty n ring (t ∷ shards) h =
      add_shards_keeps_nonempty n (add_virtual hashing n 0 ring t) shards
        (add_virtual_nonempty n 0 ring t h)

  add_shards_nonempty :
      (n : ℕ) (s : String) (shards : List String)
      → first (add_shards hashing (suc n) [] (s ∷ shards)) ≢ none
  unfolding add_shards add_virtual
  add_shards_nonempty n s shards =
      let ring = ring_insert [] (hash_key hashing (hashing.virtual_name s 0)) s in
      add_shards_keeps_nonempty (suc n) (add_virtual hashing n 1 ring s) shards (
        add_virtual_nonempty n 1 ring s
          (ring_insert_nonempty [] (hash_key hashing (hashing.virtual_name s 0)) s))

  -- For a ring made of at least one virtual node of each of one or more shards, shard_for gives
  -- every document one of these shards. When the virtual nodes of a further shard are added after
  -- the others, it gives the document the new shard or the same one as before.
  pub shard_for-add_shards :
      (n : ℕ) (s : String) (shards : List String) (new doc_id : String)
      → ((t : String) × (shard_for hashing (add_shards hashing (suc n) [] (s ∷ shards)) doc_id
            ≡ some t)
          × Among t (s ∷ shards))
        × KeptOr new
            (shard_for hashing (add_shards hashing (suc n) [] ((s ∷ shards) ++ new ∷ [])) doc_id)
            (shard_for hashing (add_shards hashing (suc n) [] (s ∷ shards)) doc_id)
  unfolding shard_for
  shard_for-add_shards n s shards new doc_id =
      let ring = add_shards hashing (suc n) [] (s ∷ shards) in
      let k = hash_key hashing doc_id in
      (
        route-Ringed (s ∷ shards) ring k
            (add_shards-Ringed (suc n) [] (s ∷ shards) (s ∷ shards) (λ t m. m) tt)
            (add_shards_nonempty n s shards),
        subst (λ r. KeptOr new (route r k) (route ring k))
            (sym (add_shards-append (suc n) [] (s ∷ shards) new))
            (add_virtual-KeptOr (suc n) 0 ring new k),
      )
