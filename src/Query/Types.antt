-- ===== src/Query/Types.antt =====
-- query.rs: the parsed query, its result and the errors of the parser. The doubles are a parameter.
use Prim.Native.String.{◌++◌ as ◌+++◌}
use cassettedb.Prelude.{ℕ, List, Option, none, some, String, Bool, if◌then◌else◌}
use cassettedb.Prelude.Errors.{Result, ok, err, invalid_query}
use cassettedb.Prelude.Texts.{decimal, empty_text}
use cassettedb.Document.{Document}
use cassettedb.Json.{Value}

-- `f64`: what `parse` reads, the text of the JSON number for it, `as_f64` of a number's text, the
-- comparisons `<` and `<=`, and the equality of two JSON numbers, given by their texts.
pub record Floats : Type 1 where
  pub F64 : Type 0
  pub parse_f64 : String → Option F64
  pub from_f64 : F64 → Option String
  pub as_f64 : String → Option F64
  pub lt : F64 → F64 → Bool
  pub le : F64 → F64 → Bool
  pub number_eq : String → String → Bool

pub data Query (F : Type 0) : Type 0 where
  all : Query F
  eq : List String → Value → Query F
  gt lt gte lte : List String → F → Query F
  search : String → Query F
  and or : Query F → Query F → Query F

pub record QueryResult : Type 0 where
  pub documents : List (Document Value)
  pub count : ℕ

pub record ParseError : Type 0 where
  pub message : String
  pub position : Option ℕ
  pub context : String

abbrev at_position : Option ℕ → String
at_position none = ""
at_position (some pos) = " at position " +++ decimal 20 pos

-- `Display`
unfoldable pub parse_error_text : ParseError → String
parse_error_text e =
    e.message
    +++ (at_position e.position
        +++ (if empty_text e.context then "" else " near '" +++ (e.context +++ "'")))

-- What a call comes to: a slice out of range panics.
pub data Outcome (T : Type 0) : Type 0 where
  panic : Outcome T
  returned : Result T → Outcome T

abbrev pub fail : {T : Type 0} → String → ℕ → String → Outcome T
fail message position context = returned (
    err (
      invalid_query (
        parse_error_text
          (record { message = message; position = some position; context = context }))))

-- The `?` operator.
infixl 5 ◌>>?◌
abbrev pub ◌>>?◌ : {T U : Type 0} → Outcome T → (T → Outcome U) → Outcome U
panic >>? next = panic
returned (err e) >>? next = returned (err e)
returned (ok t) >>? next = next t
