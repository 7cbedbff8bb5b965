-- ===== src/Query/Parse.antt =====
-- query.rs: `Query::parse` and `find_balanced`. Positions are counted in bytes; the depth of
-- parentheses, an `i32`, is an integer without bounds, which no text of fewer than 2^31 characters
-- leaves.
use Prim.Native.Char.{Char, code}
use Prim.Native.String.{◌++◌ as ◌+++◌, len}
use text.Mathlib.Text.{get?}
use cassettedb.Prelude.{
  ℕ, zero, suc, ◌+◌, ◌-◌, min, Option, none, some, String, List, [], ◌∷◌, Bool, true, false, ◌||◌,
  ◌&&◌, if◌then◌else◌, str_eq, ltb, ◌==◌,
}
use cassettedb.Prelude.Errors.{ok, err}
use cassettedb.Prelude.Texts.{
  chars, trim, trim_quotes, trim_matches, strip_prefix, strip_last, empty_text,
}
use cassettedb.Prelude.Integers.{ℤ, pos, negsuc}
use cassettedb.Query.Types.{
  Floats, Query, all, eq, gt, lt, gte, lte, search, and, or, Outcome, panic, returned, fail, ◌>>?◌,
}
use cassettedb.Query.Operands.{parse_path, parse_value, parse_number}

-- The depth of parentheses.
abbrev pub deeper : ℤ → ℤ
deeper (pos n) = pos (suc n)
deeper (negsuc zero) = pos zero
deeper (negsuc (suc n)) = negsuc n

abbrev pub shallower : ℤ → ℤ
shallower (pos zero) = negsuc zero
shallower (pos (suc n)) = pos n
shallower (negsuc n) = negsuc (suc n)

abbrev pub is_outside : ℤ → Bool
is_outside (pos zero) = true
is_outside _ = false

abbrev pub depth_after : ℤ → ℕ → ℤ
depth_after depth c =
    if c == b'(' then deeper depth else if c == b')' then shallower depth else depth

abbrev pub starts_with : String → String → Bool
starts_with s p = elim (strip_prefix s p) [ none ↦ false | some _ ↦ true ]

-- The bytes of a character.
abbrev pub width : Char → ℕ
width c = len (String.◌∷◌ c "")

-- The loop over `char_indices` from the position `i` on.
unfoldable pub find_from : ℤ → ℕ → String → String → Option ℕ
find_from depth i String.[] needle = none
find_from depth i (String.◌∷◌ c s) needle =
    let here = depth_after depth (code c) in
    let later = find_from here (i + width c) s needle in
    if is_outside here && starts_with (String.◌∷◌ c s) needle then some i else later

unfoldable pub find_balanced : String → String → Option ℕ
find_balanced haystack needle = find_from (pos zero) 0 haystack needle

abbrev pub Parsed : Type 0 → Type 0
Parsed F = Option (Outcome (Query F))

-- Two queries parsed one after the other, the second only where the first is parsed.
abbrev pub both : {F : Type 0} → (Query F → Query F → Query F) → Parsed F → Parsed F → Parsed F
both make none right = none
both make (some panic) right = some panic
both make (some (returned (err e))) right = some (returned (err e))
both make (some (returned (ok a))) none = none
both make (some (returned (ok a))) (some b) = some (b >>? λ b. returned (ok (make a b)))

pub data Variant : Type 0 where
  gte_op lte_op gt_op lt_op eq_op : Variant

abbrev pub operators : List (String × Variant)
operators = (">=", gte_op) ∷ ("<=", lte_op) ∷ (">", gt_op) ∷ ("<", lt_op) ∷ ("==", eq_op) ∷ []

-- `input[..n]`, which panics inside a character.
abbrev pub text_before : {T : Type 0} → String → ℕ → (String → Outcome T) → Outcome T
text_before input n next = elim (get? input 0 n) [ none ↦ panic | some s ↦ next s ]

abbrev pub search_of : {F : Type 0} → String → String → Outcome (Query F)
search_of input term =
    if empty_text term
    then text_before input (min 20 (len input)) (λ s. fail "Empty search term in search(...)" 7 s)
    else returned (ok (search term))

abbrev pub parse_search : {F : Type 0} → String → String → Outcome (Query F)
parse_search input inner = elim (strip_last inner b')') [
  | none ↦ fail "Unclosed search(...) expression — missing closing ')'" (len input - 1) input
  | some inner ↦ search_of input (trim_matches (λ c. c == b'\'') (trim_quotes (trim inner)))
]

-- The slices before a position and from another one on, either of which can panic.
abbrev pub sliced : {T : Type 0} → String → ℕ → ℕ → T → (String → String → T) → T
sliced input at after panics next = elim (get? input 0 at) [
  | none ↦ panics
  | some left ↦ elim (get? input after (len input)) [ none ↦ panics | some right ↦ next left right ]
]

module _ (fl : Floats) where
  abbrev pub number_of :
      (List String → fl.F64 → Query fl.F64)
      → List String
      → String
      → String
      → ℕ
      → Outcome (Query fl.F64)
  number_of make path op right after = elim (parse_number fl right) [
    | none ↦
        fail
          ("Expected numeric value for '" +++ (op +++ ("' comparison, got '" +++ (right +++ "'"))))
          after right
    | some n ↦ returned (ok (make path n))
  ]

  abbrev pub operand_of : Variant → List String → String → String → ℕ → Outcome (Query fl.F64)
  operand_of eq_op path op right after =
      parse_value fl right >>? λ value. returned (ok (eq path value))
  operand_of gt_op path op right after = number_of gt path op right after
  operand_of lt_op path op right after = number_of lt path op right after
  operand_of gte_op path op right after = number_of gte path op right after
  operand_of lte_op path op right after = number_of lte path op right after

  abbrev pub comparison : String → String → Variant → String → String → ℕ → Outcome (Query fl.F64)
  comparison input op variant left right at =
      if empty_text (trim left)
      then fail ("Missing left-hand side of '" +++ (op +++ "' comparison")) at input
      else if empty_text (trim right)
      then fail ("Missing right-hand side of '" +++ (op +++ "' comparison")) (at + len op) input
      else parse_path (trim left) >>? λ path. operand_of variant path op (trim right) (at + len op)

  abbrev pub unable : String → Outcome (Query fl.F64)
  unable input =
      let message = "Unable to parse query: '" +++ (input +++ "'") in
      if ltb 40 (len input)
      then text_before input 40 (λ s. fail message 0 (s +++ "..."))
      else fail message 0 input

  abbrev pub comparisons : String → List (String × Variant) → Outcome (Query fl.F64)
  comparisons input [] = unable input
  comparisons input ((op, variant) ∷ ops) = elim (find_balanced input op) [
    | some at ↦
        sliced input at (at + len op) panic
          (λ left right. comparison input op variant left right at)
    | none ↦ comparisons input ops
  ]

  -- The two sides of `and` or `or`, where the text has one: `skip` is the length of the word with its
  -- blanks.
  abbrev pub connective :
      (String → Parsed fl.F64)
      → String
      → String
      → ℕ
      → (Query fl.F64 → Query fl.F64 → Query fl.F64)
      → ℕ
      → Parsed fl.F64
  connective parse input word skip make at = sliced input at (at + skip) (some panic) (λ left right.
      if empty_text (trim left)
      then some (fail ("Missing left-hand side of '" +++ (word +++ "' expression")) at input)
      else if empty_text (trim right)
      then some
          (fail ("Missing right-hand side of '" +++ (word +++ "' expression")) (at + skip) input)
      else both make (parse left) (parse right))

  -- The steps of a parse that calls `parse` for the two sides of a connective.
  abbrev pub parse_trimmed : (String → Parsed fl.F64) → String → Parsed fl.F64
  parse_trimmed parse input =
      if empty_text input
      then some (fail "Empty query string" 0 "")
      else if str_eq input "*" || str_eq input "$"
      then some (returned (ok all))
      else elim (strip_prefix input "search(") [
        | some inner ↦ some (parse_search input inner)
        | none ↦ elim (find_balanced input " and ") [
          | some at ↦ connective parse input "and" 5 and at
          | none ↦ elim (find_balanced input " or ") [
            | some at ↦ connective parse input "or" 4 or at
            | none ↦ some (comparisons input operators)
          ]
        ]
      ]

  -- On fuel: none is a parse that has not ended.
  unfoldable pub parse_within : ℕ → String → Parsed fl.F64
  parse_within zero input = none
  parse_within (suc n) input = parse_trimmed (parse_within n) (trim input)

  unfoldable pub parse : String → Parsed fl.F64
  parse input = parse_within (suc (chars input)) input
