-- ===== src/Raft/Matching.antt =====
-- raft.rs: what `handle_append_entries` makes of the log when the entries follow on from an entry that
-- the log holds.
use mathlib.Core.List.{append_assoc, map-append, append-nil}
use native.Mathlib.Nat.{add-zero}
use native.Mathlib.Numerals.{add-one}
use cassettedb.Prelude.{
  ℕ, zero, suc, ◌+◌, ◌-◌, ◌≤◌, ◌≡◌, refl, sym, ap, ◌∙◌, ◌⊎◌, inl, inr, some, List, [], ◌∷◌, ◌++◌,
  map, length, get_elem?, take, drop, arith, length-append, length-take, get_elem?-some,
  get_elem?-none, take-append_length, drop-append_length, drop-take, take-map, length-map,
  get_elem?-lt, take-suc, take-take-suc, take_all, ltb, ◌==◌, Bool-cases,
}
use cassettedb.Raft.Types.{Term, LogEntry}
use cassettedb.Raft.Log.{entry}
use cassettedb.Raft.Append.{append_one, append_all}

-- The entries carry the indices `k`, `k + 1`, …; a log carries them from 1.
abbrev pub IsIndexed : ℕ → List LogEntry → Type 0
IsIndexed k [] = Unit
IsIndexed k (e ∷ es) = (e.index ≡ k) × IsIndexed (suc k) es

abbrev pub terms : List LogEntry → List Term
terms = map (λ e. e.term)

suc_sub_one : (i : ℕ) → suc i - 1 ≡ i
suc_sub_one i = omega arith

pub entry-get_elem? : (log : List LogEntry) (i : ℕ) → entry log (suc i) ≡ get_elem? log i
unfolding entry
entry-get_elem? log i = ground (arith, get_elem?-none log i, suc_sub_one i)

-- Where entry `suc p` of a log of at least `p` entries is compared with `e`, the log is cut at `p` and
-- continues with `e`, or it holds an entry of the same term there and stays.
append_one_cases :
    (log : List LogEntry) (e : LogEntry) (p : ℕ)
    → e.index ≡ suc p
    → p ≤ length log
    → (append_one log e ≡ take p log ++ e ∷ [])
      ⊎ ((x : LogEntry) × (get_elem? log p ≡ some x) × (x.term ≡ e.term) × (append_one log e ≡ log))
unfolding append_one
append_one_cases log e p index fits = elim (Bool-cases (ltb (length log) (suc p))) [
  | inl past ↦
      let full : length log ≡ p = ground arith in
      inl (ground (arith, index, take_all p log (omega arith)))
  | inr inside ↦
      let (x, found) = get_elem?-some log p (ground arith) in
      elim (Bool-cases (x.term == e.term)) [
        | inl same ↦ inr (x, found, ground arith, ground (arith, index, entry-get_elem? log p))
        | inr differ ↦ inl (ground (arith, index, entry-get_elem? log p, suc_sub_one p))
      ]
]

IsIndexed-take : (k n : ℕ) (log : List LogEntry) → IsIndexed k log → IsIndexed k (take n log)
IsIndexed-take k zero log h = tt
IsIndexed-take k (suc n) [] h = tt
IsIndexed-take k (suc n) (e ∷ es) h = (h.0, IsIndexed-take (suc k) n es h.1)

pub IsIndexed-append :
    (k : ℕ) (log : List LogEntry) (e : LogEntry)
    → e.index ≡ k + length log
    → IsIndexed k log
    → IsIndexed k (log ++ e ∷ [])
IsIndexed-append k [] e i h = (omega arith, tt)
IsIndexed-append k (x ∷ log) e i h = (h.0, IsIndexed-append (suc k) log e (omega arith) h.1)

-- `after` keeps the first `p` entries of `before`, and has the terms `ts` behind them.
pub record Continues (p : ℕ) (before after : List LogEntry) (ts : List Term) : Type 0 where
  pub fits : p + length ts ≤ length after
  pub kept : take p after ≡ take p before
  pub carried : terms (take (p + length ts) after) ≡ terms (take p before) ++ ts
  pub indexed : IsIndexed 1 before → IsIndexed 1 after

append_one-Continues :
    (log : List LogEntry) (e : LogEntry) (p : ℕ)
    → e.index ≡ suc p
    → p ≤ length log
    → Continues p log (append_one log e) (e.term ∷ [])
append_one-Continues log e p index fits = elim (append_one_cases log e p index fits) [
  | inl cut ↦
      let size : length (take p log) ≡ p = omega (arith, length-take p log) in
      rw cut (record {
        fits = omega (arith, length-append (take p log) (e ∷ []));
        kept = rw size at (take-append_length (take p log) (e ∷ []));
        carried =
            rw
              (
                add-one p,
                take_all (suc p) (take p log ++ e ∷ [])
                    (omega (arith, length-append (take p log) (e ∷ []))),
              )
              (rw map-append);
        indexed = λ h. IsIndexed-append 1 (take p log) e (omega arith) (IsIndexed-take 1 p log h);
      })
  | inr (x, found, same, stays) ↦ rw stays (record {
    fits = omega (arith, get_elem?-lt log p found);
    kept = refl;
    carried = rw (add-one p, take-suc log p found, map-append, same);
    indexed = λ h. h;
  })
]

Continues-trans :
    {p : ℕ} {a b c : List LogEntry} {t : Term} {ts : List Term}
    → Continues p a b (t ∷ [])
    → Continues (suc p) b c ts
    → Continues p a c (t ∷ ts)
Continues-trans {p} {a} {b} {c} {t} {ts} f g = record {
  fits = omega (arith, g.fits);
  kept = sym (take-take-suc p c) ∙ ap (take p) g.kept ∙ take-take-suc p b ∙ f.kept;
  carried =
      let shift : p + suc (length ts) ≡ suc p + length ts = omega arith in
      let first : terms (take (suc p) b) ≡ terms (take p a) ++ t ∷ [] =
        rw (add-one p) at f.carried in
      rw (shift, g.carried, first, append_assoc);
  indexed = λ h. g.indexed (f.indexed h);
}

pub append_all-Continues :
    (log es : List LogEntry) (p : ℕ)
    → IsIndexed (suc p) es
    → p ≤ length log
    → Continues p log (append_all log es) (terms es)
unfolding append_all
append_all-Continues log [] p h fits = record {
  fits = omega arith;
  kept = refl;
  carried = rw (add-zero, append-nil);
  indexed = λ h. h;
}
append_all-Continues log (e ∷ es) p h fits =
    let one = append_one-Continues log e p h.0 fits in
    Continues-trans one
      (append_all-Continues (append_one log e) es (suc p) h.1 (omega (arith, one.fits)))

-- `terms log` holds `t ∷ ts` from position `p` on: there is an entry of term `t` there, and `ts`
-- follows.
held_head :
    (k p : ℕ) (log : List LogEntry) (t : Term) (ts : List Term)
    → take (suc k) (drop p (terms log)) ≡ t ∷ ts
    → ((x : LogEntry) × (get_elem? log p ≡ some x) × (x.term ≡ t))
      × (take k (drop (suc p) (terms log)) ≡ ts)
held_head k zero [] t ts h = cc
held_head k zero (x ∷ log) t ts h = ((x, refl, cc), cc)
held_head k (suc p) [] t ts h = cc
held_head k (suc p) (x ∷ log) t ts h = held_head k p log t ts h

append_one_same :
    (log : List LogEntry) (e x : LogEntry) (p : ℕ)
    → e.index ≡ suc p
    → get_elem? log p ≡ some x
    → x.term ≡ e.term
    → append_one log e ≡ log
unfolding append_one
append_one_same log e x p index found same =
    let inside = get_elem?-lt log p found in ground (arith, index, entry-get_elem? log p)

append_all_same :
    (log es : List LogEntry) (p : ℕ)
    → IsIndexed (suc p) es
    → take (length (terms es)) (drop p (terms log)) ≡ terms es
    → append_all log es ≡ log
unfolding append_all
append_all_same log [] p numbered h = refl
append_all_same log (e ∷ es) p numbered h =
    let (at, rest) = held_head (length (terms es)) p log e.term (terms es) h in
    let same = append_one_same log e at.0 p numbered.0 at.1 at.2 in
    rw same (append_all_same log es (suc p) numbered.1 rest)

-- Entries that a log already holds, by their terms, do not change it.
pub append_all_twice :
    (log es : List LogEntry) (p : ℕ)
    → IsIndexed (suc p) es
    → p ≤ length log
    → append_all (append_all log es) es ≡ append_all log es
append_all_twice log es p numbered held =
    let after = append_all log es in
    let n = length (terms es) in
    let size : length (terms (take p log)) ≡ p =
      omega (arith, length-map {0, 0} (λ (e : LogEntry). e.term) (take p log), length-take p log) in
    let tail : drop p (terms (take p log) ++ terms es) ≡ terms es =
      rw size at (drop-append_length (terms (take p log)) (terms es)) in
    append_all_same after es p numbered (
      sym (drop-take p n (terms after))
      ∙ ap (drop p) (take-map (λ (e : LogEntry). e.term) (p + n) after)
      ∙ ap (drop p) (append_all-Continues log es p numbered held).carried
      ∙ tail)
