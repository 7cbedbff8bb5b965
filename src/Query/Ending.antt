-- ===== src/Query/Ending.antt =====
-- query.rs: `Query::parse` ends.
use Prim.Native.String.{◌++◌ as ◌+++◌, len}
use text.Mathlib.Text.{get?}
use cassettedb.Prelude.{
  ℕ, zero, suc, ◌+◌, ◌<◌, ◌≡◌, ap, refl, subst, sym, Option, none, some, String, Bool, true, false,
  arith, if◌then◌else◌, str_eq, ◌||◌,
}
use cassettedb.Prelude.Errors.{ok, err}
use cassettedb.Prelude.Texts.{chars, trim, strip_prefix, empty_text}
use cassettedb.Prelude.TextLengths.{chars-trim, chars-append}
use cassettedb.Query.Types.{Floats, Query, Outcome, panic, returned, and, or}
use cassettedb.Query.Parse.{
  find_balanced, Parsed, both, connective, parse_trimmed, parse_within, parse, parse_search,
  comparisons, operators, sliced,
}
use cassettedb.Query.Cuts.{find_balanced-append}

-- A parse that has ended.
abbrev pub Ended : {F : Type 0} → Parsed F → Type 0
Ended {F} p = (outcome : Outcome (Query F)) × (p ≡ some outcome)

both-Ended :
    {F : Type 0} (make : Query F → Query F → Query F) (p q : Parsed F)
    → Ended p
    → Ended q
    → Ended (both make p q)
both-Ended make none q (o, e) k = cc e
both-Ended make (some panic) q h k = (_, refl)
both-Ended make (some (returned (err e))) q h k = (_, refl)
both-Ended make (some (returned (ok a))) none h (o, e) = cc e
both-Ended make (some (returned (ok a))) (some b) h k = (_, refl)

branch-Ended :
    {F : Type 0} (b : Bool) {p q : Parsed F} → Ended p → Ended q → Ended (if b then p else q)
branch-Ended true h k = h
branch-Ended false h k = k

-- A property of what follows the slices holds of both together, where neither panics.
sliced-of :
    {T : Type 0} (P : T → Type 0) (input : String) (a b : ℕ) (panics : T)
    (next : String → String → T) {left right : String}
    → get? input 0 a ≡ some left
    → get? input b (len input) ≡ some right
    → P (next left right)
    → P (sliced input a b panics next)
sliced-of P input a b panics next {left} {right} h k of =
    let second : P
        (elim (get? input b (len input)) [ none ↦ panics | some right ↦ next left right ]) =
      subst (λ o. P (elim o [ none ↦ panics | some right ↦ next left right ])) (sym k) of in
    subst
      (λ o. P (elim o [
        | none ↦ panics
        | some left ↦ elim (get? input b (len input)) [
          | none ↦ panics
          | some right ↦ next left right
        ]
      ]))
      (sym h) second

module _ (fl : Floats) (parse_part : String → Parsed fl.F64) (input : String) where
  -- The texts on the two sides of a cut are shorter than the text.
  parts_shorter :
      (needle left right : String)
      → 0 < chars needle
      → input ≡ left +++ (needle +++ right)
      → (chars left < chars input) × (chars right < chars input)
  parts_shorter needle left right h same =
      let whole = ap chars same in
      let lengths = chars-append left (needle +++ right) in
      let others = chars-append needle right in
      (omega (arith, whole, lengths, others, h), omega (arith, whole, lengths, others, h))

  cut-Ended :
      ((part : String) → chars part < chars input → Ended (parse_part part))
      → (word needle : String) (make : Query fl.F64 → Query fl.F64 → Query fl.F64) (cut : Option ℕ)
        (otherwise : Parsed fl.F64)
      → 0 < chars needle
      → find_balanced input needle ≡ cut
      → Ended otherwise
      → Ended (elim cut [
        | some at ↦ connective fl parse_part input word (len needle) make at
        | none ↦ otherwise
      ])
  cut-Ended ih word needle make none otherwise h found k = k
  cut-Ended ih word needle make (some place) otherwise h found k =
      let (left, right, same, before, after, _) = find_balanced-append input needle found in
      let (l, r) = parts_shorter needle left right h same in
      sliced-of Ended input place (place + len needle) _ _ before after (
        branch-Ended (empty_text (trim left)) (_, refl)
          (branch-Ended (empty_text (trim right)) (_, refl)
            (both-Ended make (parse_part left) (parse_part right) (ih left l) (ih right r))))

  parse_trimmed-Ended :
      ((part : String) → chars part < chars input → Ended (parse_part part))
      → Ended (parse_trimmed fl parse_part input)
  parse_trimmed-Ended ih =
      branch-Ended (empty_text input) (_, refl)
        (branch-Ended (str_eq input "*" || str_eq input "$") (_, refl)
          (after (strip_prefix input "search(")))
    where
      after :
          (o : Option String)
          → Ended (elim o [
            | some inner ↦ some (parse_search input inner)
            | none ↦ elim (find_balanced input " and ") [
              | some at ↦ connective fl parse_part input "and" 5 and at
              | none ↦ elim (find_balanced input " or ") [
                | some at ↦ connective fl parse_part input "or" 4 or at
                | none ↦ some (comparisons fl input operators)
              ]
            ]
          ])
      after (some inner) = (_, refl)
      after none =
          cut-Ended ih "and" " and " and (find_balanced input " and ") _ (omega arith) refl (
            cut-Ended ih "or" " or " or (find_balanced input " or ") _ (omega arith) refl (_, refl))

parse_within-Ended :
    (fl : Floats) (n : ℕ) (input : String) → chars input < n → Ended (parse_within fl n input)
unfolding parse_within
parse_within-Ended fl zero input h = absurd (omega arith)
parse_within-Ended fl (suc n) input h =
    parse_trimmed-Ended fl (parse_within fl n) (trim input)
      (λ part shorter. parse_within-Ended fl n part (omega (arith, chars-trim input)))

-- Parsing ends on every text: one round more than the text has characters is enough for all parts
-- that the connectives divide it into.
pub parse-Ended : (fl : Floats) (input : String) → Ended (parse fl input)
unfolding parse
parse-Ended fl input = parse_within-Ended fl (suc (chars input)) input (omega arith)
