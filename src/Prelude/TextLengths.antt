-- ===== src/Prelude/TextLengths.antt =====
-- Lengths of the parts of a text, and the text that its parts make up.
use Prim.Native.Char.{code}
use Prim.Native.Nat.{ℕ, ◌+◌, ◌≤◌}
use Prim.Native.String.{String, ◌++◌ as ◌+++◌}
use Prim.Native.String.append
use mathlib.Core.Path.{◌≡◌, sym, ap, ◌∙◌}
use mathlib.Core.Bool.{Bool, ◌&&◌}
use mathlib.Core.Option.{none, some}
use mathlib.Core.Logic.{inl, inr}
use native.Mathlib.Omega.{arith}
use text.Mathlib.TextEquality.{Char-path}
use cassettedb.Prelude.Tests.{◌==◌, ==_iff, Bool-cases}
use cassettedb.Prelude.Texts.{
  chars, trim_start_matches, trim_end_matches, trim, is_whitespace, empty_text, strip_prefix,
}

chars-trim_start_matches : (p : ℕ → Bool) (s : String) → chars (trim_start_matches p s) ≤ chars s
unfolding trim_start_matches
chars-trim_start_matches p String.[] = omega arith
chars-trim_start_matches p (String.◌∷◌ c s) = elim (Bool-cases (p (code c))) [
  | inl e ↦ rw e (omega (arith, chars-trim_start_matches p s))
  | inr e ↦ rw e (omega arith)
]

chars-trim_end_matches : (p : ℕ → Bool) (s : String) → chars (trim_end_matches p s) ≤ chars s
unfolding trim_end_matches
chars-trim_end_matches p String.[] = omega arith
chars-trim_end_matches p (String.◌∷◌ c s) =
    elim (Bool-cases (empty_text (trim_end_matches p s) && p (code c))) [
      | inl e ↦ rw e (omega arith)
      | inr e ↦ rw e (omega (arith, chars-trim_end_matches p s))
    ]

pub chars-trim : (s : String) → chars (trim s) ≤ chars s
chars-trim s = omega (
  arith,
  chars-trim_start_matches is_whitespace s,
  chars-trim_end_matches is_whitespace (trim_start_matches is_whitespace s),
)

pub chars-append : (s t : String) → chars (s +++ t) ≡ chars s + chars t
chars-append String.[] t = ap chars (append.nil t) ∙ omega arith
chars-append (String.◌∷◌ c s) t = ap chars (append.cons c s t) ∙ omega (arith, chars-append s t)

-- A text is the prefix that was stripped and the rest.
pub strip_prefix-append :
    (s p : String) {rest : String} → strip_prefix s p ≡ some rest → s ≡ p +++ rest
unfolding strip_prefix
strip_prefix-append s String.[] {rest} h =
    let same : s ≡ rest = cc h in same ∙ sym (append.nil rest)
strip_prefix-append String.[] (String.◌∷◌ c p) h = cc h
strip_prefix-append (String.◌∷◌ d s) (String.◌∷◌ c p) {rest} h =
    elim (Bool-cases (code d == code c)) [
      | inl e ↦
          (let found : strip_prefix s p ≡ some rest = rw e at h in
            ap (λ x. String.◌∷◌ x s) (Char-path d c ((==_iff (code d) (code c)).0 e))
            ∙ ap (String.◌∷◌ c) (strip_prefix-append s p found)
            ∙ sym (append.cons c p rest))
      | inr e ↦ (let nothing : none ≡ some rest = rw e at h in cc nothing)
    ]
