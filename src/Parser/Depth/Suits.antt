-- ===== src/Parser/Depth/Suits.antt =====
-- src/spot_payload_parser.cpp: which values suit the fields of `parse_depth`, and what reading a value
-- says of it.
use mathlib.Core.Option.{Option, some}
use ir_assignment.Prelude.{
  ℕ, suc, ◌≡◌, refl, Bool, true, false, arith, if◌then◌else◌, if_cases, List,
}
use ir_assignment.Payload.{SpotParseError, SpotField}
use ir_assignment.SymbolIdentity.{bytes_equal}
use ir_assignment.Json.{
  JsonError, got, lacks, Value, untyped, array, object, number, string, boolean, null, Fields,
  end_of_object, object_breaks, member, validate_json_value,
}
use ir_assignment.Parser.{
  fail, fail_json, Field, value, failed, is_none, read_json_string, read_json_uint64,
  root_field_container_depth, is_schema_conversion_error, equals_ascii_case_insensitive,
}
use ir_assignment.Parser.Depth.{
  Shape, Bit, event_type, symbol, bids, asks, bit_equal, field_of_key, depth_update_text,
}

abbrev pub is_text : (List ℕ → Bool) → Value → Bool
is_text f (string (got s)) = f s
is_text f _ = false

abbrev pub is_count : Value → Bool
is_count (number t (got n)) = true
is_count _ = false

abbrev pub is_array : Value → Bool
is_array (array levels) = true
is_array _ = false

-- The value is of the type that the field wants, and the type of the event and the symbol are right.
abbrev pub suits : Shape → Bit → Value → Bool
suits m event_type v = is_text (λ s. bytes_equal s depth_update_text) v
suits m symbol v = is_text (λ s. equals_ascii_case_insensitive s m.expected_symbol) v
suits m bids v = is_array v
suits m asks v = is_array v
suits m _ v = is_count v

abbrev pub names : Option Bit → Bit → Bool
names Option.none bit = false
names (some b) bit = bit_equal b bit

-- How often a field is in an object.
unfoldable pub times : Shape → Bit → Fields → ℕ
times m bit end_of_object = 0
times m bit (object_breaks e) = 0
times m bit (member (lacks e) v fields) = times m bit fields
times m bit (member (got key) v fields) =
    let rest = times m bit fields in if names (field_of_key m key) bit then suc rest else rest

abbrev pub SuitsAt : Shape → Option Bit → Value → Type 0
SuitsAt m Option.none v = Unit
SuitsAt m (some bit) v = suits m bit v ≡ true

-- Every value of a field suits.
unfoldable pub AllSuit : Shape → Fields → Type 0
AllSuit m end_of_object = Unit
AllSuit m (object_breaks e) = Unit
AllSuit m (member (lacks e) v fields) = AllSuit m fields
AllSuit m (member (got key) v fields) = SuitsAt m (field_of_key m key) v × AllSuit m fields

-- Reading a value: it is of the type, or there is an error.
abbrev pub IsText : Value → Field (List ℕ) → Type 0
IsText v (value s) = v ≡ string (got s)
IsText v (failed f) = is_none f.error ≡ false

abbrev pub IsCount : Value → Field ℕ → Type 0
IsCount v (value n) = is_count v ≡ true
IsCount v (failed f) = is_none f.error ≡ false

pub json_fault : (e : JsonError) → is_none (fail_json e).error ≡ false
json_fault e = ground arith

no_string_lem :
    (v w : Value) (f : SpotField)
    → IsText w (elim (validate_json_value v root_field_container_depth) [
      | Option.none ↦ failed (fail SpotParseError.wrong_type f)
      | some e ↦ failed (fail_json e)
    ])
no_string_lem v w f =
    elim (validate_json_value v root_field_container_depth)
      as (λ (o : Option JsonError). IsText w (elim o [
        | Option.none ↦ failed (fail SpotParseError.wrong_type f)
        | some e ↦ failed (fail_json e)
      ])) [ Option.none ↦ refl | some e ↦ json_fault e ]

no_number_lem :
    (v w : Value) (f : SpotField)
    → IsCount w (elim (validate_json_value v root_field_container_depth) [
      | Option.none ↦ failed (fail SpotParseError.wrong_type f)
      | some e ↦ failed (fail_json e)
    ])
no_number_lem v w f =
    elim (validate_json_value v root_field_container_depth)
      as (λ (o : Option JsonError). IsCount w (elim o [
        | Option.none ↦ failed (fail SpotParseError.wrong_type f)
        | some e ↦ failed (fail_json e)
      ])) [ Option.none ↦ refl | some e ↦ json_fault e ]

pub read_json_string-IsText : (v : Value) (f : SpotField) → IsText v (read_json_string v f)
unfolding read_json_string
read_json_string-IsText (untyped e) f = json_fault e
read_json_string-IsText (string (got s)) f = refl
read_json_string-IsText (string (lacks e)) f = json_fault e
read_json_string-IsText (array x) f = no_string_lem (array x) (array x) f
read_json_string-IsText (object x) f = no_string_lem (object x) (object x) f
read_json_string-IsText (number t n) f = no_string_lem (number t n) (number t n) f
read_json_string-IsText (boolean b) f = no_string_lem (boolean b) (boolean b) f
read_json_string-IsText (null t) f = no_string_lem (null t) (null t) f

pub read_json_uint64-IsCount : (v : Value) (f : SpotField) → IsCount v (read_json_uint64 v f)
unfolding read_json_uint64
read_json_uint64-IsCount (untyped e) f = json_fault e
read_json_uint64-IsCount (number t (got n)) f = refl
read_json_uint64-IsCount (number t (lacks e)) f =
    if_cases (IsCount (number t (lacks e))) (is_schema_conversion_error e) (λ _. refl)
      (λ _. json_fault e)
read_json_uint64-IsCount (array x) f = no_number_lem (array x) (array x) f
read_json_uint64-IsCount (object x) f = no_number_lem (object x) (object x) f
read_json_uint64-IsCount (string t) f = no_number_lem (string t) (string t) f
read_json_uint64-IsCount (boolean b) f = no_number_lem (boolean b) (boolean b) f
read_json_uint64-IsCount (null t) f = no_number_lem (null t) (null t) f
