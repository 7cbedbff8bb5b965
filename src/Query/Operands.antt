-- ===== src/Query/Operands.antt =====
-- query.rs: the operands of a comparison: paths, values and numbers.
use cassettedb.Prelude.{ℕ, Option, none, some, String, List, true, false, if◌then◌else◌, str_eq}
use cassettedb.Prelude.Errors.{ok}
use cassettedb.Prelude.Texts.{
  trim, strip_prefix, strip_last, or_text, empty_text, split_char, parse_i64,
}
use cassettedb.Json.{Value, null, boolean, number, text}
use cassettedb.Query.Types.{Floats, Outcome, panic, returned, fail}

abbrev path_after : String → Outcome (List String)
path_after s =
    if empty_text s then fail "Empty field path" 0 s else returned (ok (split_char b'.' s))

unfoldable pub parse_path : String → Outcome (List String)
parse_path input =
    let s = trim input in
    let s = or_text (strip_prefix s "$") s in let s = or_text (strip_prefix s ".") s in path_after s

-- `s[1..s.len() - 1]`, given `s` without its first character, where `s` ends with the quote: of a quote
-- alone the slice is out of range.
abbrev inside : String → ℕ → Option (Outcome Value)
inside rest quote =
    if empty_text rest
    then some panic
    else elim (strip_last rest quote) [ none ↦ none | some s ↦ some (returned (ok (text s))) ]

-- None where the text does not both start and end with the quote.
abbrev pub quoted : String → ℕ → String → Option (Outcome Value)
quoted s quote sign = elim (strip_prefix s sign) [ none ↦ none | some rest ↦ inside rest quote ]

module _ (fl : Floats) where
  abbrev parse_word : String → Value
  parse_word s =
      if str_eq s "true"
      then boolean true
      else if str_eq s "false"
      then boolean false
      else if str_eq s "null"
      then null
      else text s

  abbrev float_or_word : String → Option String → Value
  float_or_word s none = parse_word s
  float_or_word s (some n) = number n

  abbrev parse_unquoted : String → Value
  parse_unquoted s = elim (parse_i64 s) [
    | some n ↦ number n
    | none ↦ elim (fl.parse_f64 s) [
      | some x ↦ float_or_word s (fl.from_f64 x)
      | none ↦ parse_word s
    ]
  ]

  unfoldable pub parse_value : String → Outcome Value
  parse_value input =
      let s = trim input in
      elim (quoted s b'"' "\"") [
        | some value ↦ value
        | none ↦ elim (quoted s b'\'' "'") [
          | some value ↦ value
          | none ↦ returned (ok (parse_unquoted s))
        ]
      ]

  -- The error of `parse_number` is not used: its caller makes another.
  unfoldable pub parse_number : String → Option fl.F64
  parse_number s = fl.parse_f64 (trim s)
