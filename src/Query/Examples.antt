-- ===== src/Query/Examples.antt =====
-- query.rs on small queries, with natural numbers for the doubles.
use cassettedb.Prelude.{str_eq, ℕ, ◌+◌, ◌≡◌, refl, [], ◌∷◌, some, String, ltb, leb}
use cassettedb.Prelude.Errors.{ok}
use cassettedb.Prelude.Texts.{
  nonempty_digits, decimal, split_char, trim_start_matches, trim_end_matches, strip_prefix,
  strip_last, parse_i64,
}
use cassettedb.Json.{Value, number, object, no_fields, field_then}
use cassettedb.Index.Inverted.{InvertedIndex}
use cassettedb.Document.{Document}
use cassettedb.Query.Types.{Floats, Query, and, or, eq, gte, panic, returned}
use cassettedb.Query.Operands.{parse_path, parse_value, parse_number}
use cassettedb.Query.Parse.{parse, parse_within, find_balanced, find_from}
use Prim.Native.String.{◌++◌ as ◌+++◌}
use cassettedb.Query.Cuts.{find_balanced-append, count, first}
use text.Mathlib.Text.{get?}
use Prim.Native.String.{len}
use cassettedb.Query.Ending.{Ended, parse-Ended}

abbrev pub naturals : Floats
naturals = record {
  F64 = ℕ;
  parse_f64 = nonempty_digits;
  from_f64 = λ n. some (decimal 20 n);
  as_f64 = nonempty_digits;
  lt = ltb;
  le = leb;
  number_eq = str_eq;
}

-- `and` is looked for before `or`, so that it binds less.
precedence_run :
    parse naturals "a == 1 or b == 2 and c >= 3"
    ≡ some (
        returned (
          ok (
            and (or (eq ("a" ∷ []) (number "1")) (eq ("b" ∷ []) (number "2"))) (gte ("c" ∷ []) 3))))
unfolding parse parse_within find_balanced find_from parse_path parse_value parse_number split_char
    trim_start_matches trim_end_matches strip_prefix strip_last parse_i64 decimal
precedence_run = refl

-- A value that is one quotation mark.
panic_run : parse naturals "a == \"" ≡ some panic
unfolding parse parse_within find_balanced find_from parse_path parse_value split_char
    trim_start_matches trim_end_matches strip_prefix strip_last
panic_run = refl

parse-Ended_example : Ended (parse naturals "a == 1 and")
parse-Ended_example = parse-Ended naturals "a == 1 and"

abbrev doc : String → Document Value
doc n = record { id = n; content = object (field_then "n" (number n) no_fields); meta = [] }

abbrev no_index : InvertedIndex
no_index = record { map = [] }

abbrev n_at_least : ℕ → Query ℕ
n_at_least n = gte ("n" ∷ []) n

abbrev is_two : Query ℕ
is_two = eq ("n" ∷ []) (number "2")

cut_run : find_balanced "(a and b) and c" " and " ≡ some 9
unfolding find_balanced find_from strip_prefix
cut_run = refl

find_balanced-append_example :
    (left : String) × (right : String) × ("(a and b) and c" ≡ left +++ (" and " +++ right))
    × (get? "(a and b) and c" 0 9 ≡ some left)
    × (get? "(a and b) and c" (9 + len " and ") (len "(a and b) and c") ≡ some right)
    × (count b'(' left + first b'(' (" and " +++ right)
        ≡ count b')' left + first b')' (" and " +++ right))
find_balanced-append_example = find_balanced-append "(a and b) and c" " and " cut_run
