-- ===== src/Parser.antt =====
-- src/spot_payload_parser.cpp: what the parts of the parser share, its failures and its comparisons.
-- Duplicates is the table of the prices of a message, Levels the walk over one side of the book,
-- Trade and Depth the two kinds of message, Document the whole of `SpotPayloadParser::parse`.
pub mod Duplicates
pub mod Levels
pub mod Trade
pub mod Depth
pub mod Document
mod Tests
use mathlib.Core.Option.{Option, some}
use mathlib.Core.Option
use ir_assignment.Prelude.{
  ℕ, ◌-◌, Bool, true, false, ◌&&◌, ◌||◌, List, [], ◌∷◌, leb, ◌==◌, if◌then◌else◌,
}
use ir_assignment.Payload.{SpotParseError, SpotField}
use ir_assignment.Payload
use ir_assignment.FixedPoint.{DecimalParseError}
use ir_assignment.FixedPoint
use ir_assignment.Json.{
  JsonError, depth_error, incorrect_type, number_out_of_range, Read, got, lacks, Value, untyped,
  string, number, validate_json_value,
}

pub record ParseFailure : Type 0 where
  pub error : SpotParseError
  pub field : SpotField
  pub decimal_error : DecimalParseError

abbrev pub no_failure : ParseFailure
no_failure = record {
  error = SpotParseError.none;
  field = SpotField.none;
  decimal_error = FixedPoint.none;
}

-- `fail` without a decimal error.
abbrev pub fail : SpotParseError → SpotField → ParseFailure
fail error field = record { error = error; field = field; decimal_error = FixedPoint.none }

abbrev pub is_none : SpotParseError → Bool
is_none SpotParseError.none = true
is_none _ = false

abbrev pub classify_json_error : JsonError → SpotParseError
classify_json_error depth_error = SpotParseError.json_nesting_too_deep
classify_json_error _ = SpotParseError.malformed_json

abbrev pub fail_json : JsonError → ParseFailure
fail_json e = fail (classify_json_error e) SpotField.root

abbrev pub is_fatal_document_error : SpotParseError → Bool
is_fatal_document_error SpotParseError.malformed_json = true
is_fatal_document_error SpotParseError.json_nesting_too_deep = true
is_fatal_document_error _ = false

abbrev pub is_internal : SpotParseError → Bool
is_internal SpotParseError.internal_capacity_error = true
is_internal _ = false

abbrev pub is_schema_conversion_error : JsonError → Bool
is_schema_conversion_error incorrect_type = true
is_schema_conversion_error number_out_of_range = true
is_schema_conversion_error _ = false

-- `normalize`
abbrev pub upper : ℕ → ℕ
upper c = if leb b'a' c && leb c b'z' then c - (b'a' - b'A') else c

unfoldable pub equals_ascii_case_insensitive : List ℕ → List ℕ → Bool
equals_ascii_case_insensitive [] [] = true
equals_ascii_case_insensitive [] (d ∷ rhs) = false
equals_ascii_case_insensitive (c ∷ lhs) [] = false
equals_ascii_case_insensitive (c ∷ lhs) (d ∷ rhs) =
    upper c == upper d && equals_ascii_case_insensitive lhs rhs

-- A value that was read, or why it was not.
pub data Field {ℓ} (A : Type ℓ) : Type ℓ where
  value : A → Field A
  failed : ParseFailure → Field A

abbrev pub root_field_container_depth : ℕ
root_field_container_depth = 2

-- A value of the wrong type, which is checked all the same.
abbrev wrong_type {ℓ} : {A : Type ℓ} → Value → SpotField → Field A
wrong_type v field = elim (validate_json_value v root_field_container_depth) [
  | Option.none ↦ failed (fail SpotParseError.wrong_type field)
  | some e ↦ failed (fail_json e)
]

abbrev string_of : Read (List ℕ) → Field (List ℕ)
string_of (got s) = value s
string_of (lacks e) = failed (fail_json e)

unfoldable pub read_json_string : Value → SpotField → Field (List ℕ)
read_json_string (untyped e) field = failed (fail_json e)
read_json_string (string get_string) field = string_of get_string
read_json_string v field = wrong_type v field

abbrev uint64_of : SpotField → Read ℕ → Field ℕ
uint64_of field (got n) = value n
uint64_of field (lacks e) =
    if is_schema_conversion_error e
    then failed (fail SpotParseError.wrong_type field)
    else failed (fail_json e)

unfoldable pub read_json_uint64 : Value → SpotField → Field ℕ
read_json_uint64 (untyped e) field = failed (fail_json e)
read_json_uint64 (number token get_uint64) field = uint64_of field get_uint64
read_json_uint64 v field = wrong_type v field
