-- ===== src/Prelude/TextOrder.antt =====
-- The order of texts is asymmetric and transitive.
use Prim.Native.Char.{code}
use Prim.Native.Nat.{ℕ, Ordering, compare as compare_ℕ}
use Prim.Native.String.{String, compare, then}
use Prim.Native.String.compare.{nil-cons, cons-nil, cons-cons}
use mathlib.Core.Path.{◌≡◌, refl, sym, ap, subst, ◌∙◌}
use mathlib.Core.Bool.{true, false}
use native.Mathlib.Omega.{arith}
use cassettedb.Prelude.Tests.{str_ltb}

abbrev flip : Ordering → Ordering
flip Ordering.lt = Ordering.gt
flip Ordering.eq = Ordering.eq
flip Ordering.gt = Ordering.lt

compare_ℕ-flip : (m n : ℕ) → flip (compare_ℕ m n) ≡ compare_ℕ n m
compare_ℕ-flip m n = ground arith

flip-then : (o p : Ordering) → flip (then o p) ≡ then (flip o) (flip p)
flip-then Ordering.lt p = refl
flip-then Ordering.eq p = refl
flip-then Ordering.gt p = refl

pub compare-flip : (s t : String) → flip (compare s t) ≡ compare t s
compare-flip String.[] String.[] = refl
compare-flip String.[] (String.◌∷◌ d t) = ap flip (nil-cons d t) ∙ sym (cons-nil d t)
compare-flip (String.◌∷◌ c s) String.[] = ap flip (cons-nil c s) ∙ sym (nil-cons c s)
compare-flip (String.◌∷◌ c s) (String.◌∷◌ d t) =
    ap flip (cons-cons c d s t)
    ∙ flip-then (compare_ℕ (code c) (code d)) (compare s t)
    ∙ ap (λ o. then o (flip (compare s t))) (compare_ℕ-flip (code c) (code d))
    ∙ ap (then (compare_ℕ (code d) (code c))) (compare-flip s t)
    ∙ sym (cons-cons d c t s)

pub str_ltb_asym : (s t : String) → str_ltb s t ≡ true → str_ltb t s ≡ false
str_ltb_asym s t h = go (compare s t) (compare t s) (compare-flip s t) h
  where
    go :
        (o p : Ordering)
        → flip o ≡ p
        → elim o [ Ordering.lt ↦ true | _ ↦ false ] ≡ true
        → elim p [ Ordering.lt ↦ true | _ ↦ false ] ≡ false
    go Ordering.lt p e h = subst (λ p. elim p [ Ordering.lt ↦ true | _ ↦ false ] ≡ false) e refl
    go Ordering.eq p e h = cc h
    go Ordering.gt p e h = cc h
