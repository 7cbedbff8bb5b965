-- ===== src/Prelude/Texts.antt =====
-- The functions of `str` that the program calls, over the characters of a text.
use Prim.Native.Char.{Char, code}
use Prim.Native.Nat.{ℕ, zero, suc, ◌+◌, ◌-◌, ◌*◌, ◌/◌, ◌%◌, ◌^◌}
use Prim.Native.String.{String, ◌++◌ as ◌+++◌}
use mathlib.Core.Bool.{Bool, true, false, ◌&&◌, ◌||◌}
use mathlib.Core.List.{List, [], ◌∷◌}
use mathlib.Core.Option.{Option, none, some}
use cassettedb.Prelude.Lists.{get_elem?}
use cassettedb.Prelude.Tests.{◌==◌, leb, ltb, if◌then◌else◌}

abbrev pub empty_text : String → Bool
empty_text String.[] = true
empty_text (String.◌∷◌ c s) = false

abbrev cons_first : Char → List String → List String
cons_first c [] = []
cons_first c (s ∷ ss) = String.◌∷◌ c s ∷ ss

-- `split` at a character, given by its number.
unfoldable pub split_char : ℕ → String → List String
split_char sep String.[] = "" ∷ []
split_char sep (String.◌∷◌ c s) =
    let rest = split_char sep s in if code c == sep then "" ∷ rest else cons_first c rest

unfoldable pub trim_start_matches : (ℕ → Bool) → String → String
trim_start_matches p String.[] = ""
trim_start_matches p (String.◌∷◌ c s) =
    let rest = trim_start_matches p s in if p (code c) then rest else String.◌∷◌ c s

unfoldable pub trim_end_matches : (ℕ → Bool) → String → String
trim_end_matches p String.[] = ""
trim_end_matches p (String.◌∷◌ c s) =
    let rest = trim_end_matches p s in
    if empty_text rest && p (code c) then "" else String.◌∷◌ c rest

abbrev pub trim_matches : (ℕ → Bool) → String → String
trim_matches p s = trim_end_matches p (trim_start_matches p s)

-- `char::is_whitespace`: the characters with the property White_Space.
abbrev pub is_whitespace : ℕ → Bool
is_whitespace c =
    (leb 9 c && leb c 13)
    || c == 32
    || c == 133
    || c == 160
    || c == 5760
    || (leb 8192 c && leb c 8202)
    || c == 8232
    || c == 8233
    || c == 8239
    || c == 8287
    || c == 12288

abbrev pub trim : String → String
trim = trim_matches is_whitespace

-- `trim_matches('"')`
abbrev pub trim_quotes : String → String
trim_quotes = trim_matches (λ c. c == 34)

-- The number of characters.
abbrev pub chars : String → ℕ
chars String.[] = 0
chars (String.◌∷◌ c s) = suc (chars s)

unfoldable pub strip_prefix : String → String → Option String
strip_prefix s String.[] = some s
strip_prefix String.[] (String.◌∷◌ c p) = none
strip_prefix (String.◌∷◌ d s) (String.◌∷◌ c p) =
    let rest = strip_prefix s p in if code d == code c then rest else none

abbrev before : Char → Option String → Option String
before c none = none
before c (some s) = some (String.◌∷◌ c s)

-- `strip_suffix` of one character.
unfoldable pub strip_last : String → ℕ → Option String
strip_last String.[] last = none
strip_last (String.◌∷◌ c s) last =
    let rest = strip_last s last in
    if empty_text s then (if code c == last then some "" else none) else before c rest

abbrev pub or_text : Option String → String → String
or_text none s = s
or_text (some t) s = t

abbrev digit : ℕ → String
digit n = or_text (get_elem? ("0" ∷ "1" ∷ "2" ∷ "3" ∷ "4" ∷ "5" ∷ "6" ∷ "7" ∷ "8" ∷ "9" ∷ []) n) ""

-- `to_string` of a number with at most as many digits as the fuel.
unfoldable pub decimal : ℕ → ℕ → String
decimal zero n = ""
decimal (suc fuel) n =
    let front = decimal fuel (n / 10) in if ltb n 10 then digit n else front +++ digit (n % 10)

abbrev is_digit : ℕ → Bool
is_digit c = leb 48 c && leb c 57

-- The value of a text of digits, after the digits before it.
abbrev digits_value : ℕ → String → Option ℕ
digits_value n String.[] = some n
digits_value n (String.◌∷◌ c s) =
    let rest = digits_value (10 * n + (code c - 48)) s in if is_digit (code c) then rest else none

abbrev pub nonempty_digits : String → Option ℕ
nonempty_digits s = if empty_text s then none else digits_value 0 s

abbrev up_to : ℕ → Option ℕ → Option ℕ
up_to bound none = none
up_to bound (some n) = if leb n bound then some n else none

abbrev signed : String → Option ℕ → Option String
signed sign none = none
signed sign (some n) = some ((if n == 0 then "" else sign) +++ decimal 20 n)

-- `parse::<i64>` and `to_string` of the number.
unfoldable pub parse_i64 : String → Option String
parse_i64 s = elim (strip_prefix s "-") [
  | some t ↦ signed "-" (up_to (2 ^ 63) (nonempty_digits t))
  | none ↦ signed "" (up_to (2 ^ 63 - 1) (nonempty_digits (or_text (strip_prefix s "+") s)))
]
