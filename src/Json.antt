-- ===== src/Json.antt =====
-- src/json_validation.h: the walk that checks a value which the parser has no use for.
-- A document is what the JSON library answers to the calls that the source makes on it: each value has
-- its type with the answer of the getter for that type, and an iteration ends or breaks off with an
-- error. A `get_array` or `get_object` that fails is an iteration that breaks off at once, since the
-- source treats the two alike. The answers themselves are arguments of the model.
pub mod Token
use mathlib.Core.Option.{Option, some}
use mathlib.Core.Option
use ir_assignment.Prelude.{
  ℕ, zero, suc, ◌+◌, Bool, true, false, List, [], ◌∷◌, ltb, ◌==◌, if◌then◌else◌,
}
use ir_assignment.SymbolIdentity.{bytes_equal}
use ir_assignment.Json.Token.{is_valid_json_number_token, trim_json_whitespace}

abbrev pub max_json_nesting_depth : ℕ
max_json_nesting_depth = 64

-- The error codes that the source tells apart; `other` stands for all the rest.
pub data JsonError : Type 0 where
  depth_error incorrect_type number_out_of_range number_error n_atom_error : JsonError
  unexpected_error : JsonError
  other : ℕ → JsonError

-- What a getter of the library answers.
pub data Read {ℓ} (A : Type ℓ) : Type ℓ where
  got : A → Read A
  lacks : JsonError → Read A

mutual
  pub data Value : Type 0 where
    untyped : JsonError → Value
    array : Elements → Value
    object : Fields → Value
    number : (raw_json_token : List ℕ) → (get_uint64 : Read ℕ) → Value
    string : (get_string : Read (List ℕ)) → Value
    boolean : (get_bool : Read Bool) → Value
    null : (raw_json_token : List ℕ) → Value

  pub data Elements : Type 0 where
    end_of_array : Elements
    array_breaks : JsonError → Elements
    element : Value → Elements → Elements

  pub data Fields : Type 0 where
    end_of_object : Fields
    object_breaks : JsonError → Fields
    member : (unescaped_key : Read (List ℕ)) → Value → Fields → Fields

-- `none` is `SUCCESS`.
abbrev pub error_of {ℓ} : {A : Type ℓ} → Read A → Option JsonError
error_of (got x) = Option.none
error_of (lacks e) = some e

-- "null"
abbrev pub null_text : List ℕ
null_text = b'n' ∷ b'u' ∷ b'l' ∷ b'l' ∷ []

abbrev number_error_of : List ℕ → Option JsonError
number_error_of token = if is_valid_json_number_token token then Option.none else some number_error

abbrev null_error_of : List ℕ → Option JsonError
null_error_of token = if bytes_equal token null_text then Option.none else some n_atom_error

-- The first error, or what comes behind.
abbrev pub and_then : Option JsonError → Option JsonError → Option JsonError
and_then Option.none next = next
and_then (some e) next = some e

unfoldable mutual
  pub validate_json_value : Value → ℕ → Option JsonError
  validate_json_value (untyped e) container_depth = some e
  validate_json_value (array elements) container_depth =
      let inside = validate_elements elements (container_depth + 1) in
      if ltb max_json_nesting_depth container_depth then some depth_error else inside
  validate_json_value (object fields) container_depth =
      let inside = validate_fields fields (container_depth + 1) in
      if ltb max_json_nesting_depth container_depth then some depth_error else inside
  validate_json_value (number token get_uint64) container_depth = number_error_of token
  validate_json_value (string get_string) container_depth = error_of get_string
  validate_json_value (boolean get_bool) container_depth = error_of get_bool
  validate_json_value (null token) container_depth = null_error_of token

  pub validate_elements : Elements → ℕ → Option JsonError
  validate_elements end_of_array depth = Option.none
  validate_elements (array_breaks e) depth = some e
  validate_elements (element child elements) depth =
      and_then (validate_json_value child depth) (validate_elements elements depth)

  pub validate_fields : Fields → ℕ → Option JsonError
  validate_fields end_of_object depth = Option.none
  validate_fields (object_breaks e) depth = some e
  validate_fields (member key child fields) depth =
      and_then (error_of key)
        (and_then (validate_json_value child depth) (validate_fields fields depth))

-- The type of a document that is an object is not asked for here.
unfoldable pub validate_non_object_document : Value → List ℕ → ℕ → Option JsonError
validate_non_object_document (untyped e) source depth = some e
validate_non_object_document (array elements) source depth = validate_elements elements depth
validate_non_object_document (object fields) source depth = some unexpected_error
validate_non_object_document (number token get_uint64) source depth =
    number_error_of (trim_json_whitespace source)
validate_non_object_document (string get_string) source depth = error_of get_string
validate_non_object_document (boolean get_bool) source depth = error_of get_bool
validate_non_object_document (null token) source depth = null_error_of (trim_json_whitespace source)
