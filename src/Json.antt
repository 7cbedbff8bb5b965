-- ===== src/Json.antt =====
-- `serde_json::Value` and the calls of it that the program makes. A number is the text that
-- `to_string` gives for it, and the fields of an object stand in the order of the map.
use cassettedb.Prelude.Texts.{nonempty_digits, or_text, strip_prefix}
use cassettedb.Prelude.{
  ℕ, ◌-◌, ltb, Bool, true, false, ◌&&◌, not, Option, none, some, String, str_eq, if◌then◌else◌,
}

mutual
  pub data Value : Type 0 where
    null : Value
    boolean : Bool → Value
    number : String → Value
    text : String → Value
    array : Values → Value
    object : Fields → Value

  pub data Values : Type 0 where
    no_values : Values
    value_then : Value → Values → Values

  pub data Fields : Type 0 where
    no_fields : Fields
    field_then : String → Value → Fields → Fields

abbrev pub bool_eq : Bool → Bool → Bool
bool_eq true b = b
bool_eq false b = not b

-- `==`, given the equality of numbers.
module _ (number_eq : String → String → Bool) where
  unfoldable mutual
    pub value_eq : Value → Value → Bool
    value_eq null null = true
    value_eq (boolean a) (boolean b) = bool_eq a b
    value_eq (number m) (number n) = number_eq m n
    value_eq (text s) (text t) = str_eq s t
    value_eq (array vs) (array ws) = values_eq vs ws
    value_eq (object fs) (object gs) = fields_eq fs gs
    value_eq _ _ = false

    pub values_eq : Values → Values → Bool
    values_eq no_values no_values = true
    values_eq (value_then v vs) (value_then w ws) = value_eq v w && values_eq vs ws
    values_eq _ _ = false

    pub fields_eq : Fields → Fields → Bool
    fields_eq no_fields no_fields = true
    fields_eq (field_then j v fs) (field_then k w gs) =
        str_eq j k && (value_eq v w && fields_eq fs gs)
    fields_eq _ _ = false

-- `Map::get`
unfoldable pub get_field : Fields → String → Option Value
get_field no_fields k = none
get_field (field_then j v fs) k = if str_eq j k then some v else get_field fs k

-- `Value::get` of a text: only an object has fields.
abbrev pub value_get : Value → String → Option Value
value_get (object fs) k = get_field fs k
value_get _ k = none

abbrev pub as_str : Value → Option String
as_str (text s) = some s
as_str _ = none

-- An integer, with its sign.
abbrev pub is_integer : String → Bool
is_integer s = elim (nonempty_digits (or_text (strip_prefix s "-") s)) [
  | none ↦ false
  | some n ↦ true
]

-- All numbers are integers, and arrays and objects are nested at most as deep as given.
unfoldable mutual
  pub exact_within : Value → ℕ → Bool
  exact_within null depth = true
  exact_within (boolean b) depth = true
  exact_within (number n) depth = is_integer n
  exact_within (text s) depth = true
  exact_within (array vs) depth = ltb 0 depth && values_exact vs (depth - 1)
  exact_within (object fs) depth = ltb 0 depth && fields_exact fs (depth - 1)

  pub values_exact : Values → ℕ → Bool
  values_exact no_values depth = true
  values_exact (value_then v vs) depth = exact_within v depth && values_exact vs depth

  pub fields_exact : Fields → ℕ → Bool
  fields_exact no_fields depth = true
  fields_exact (field_then k v fs) depth = exact_within v depth && fields_exact fs depth
