-- ===== src/Parser/Depth/Reads.antt =====
-- src/spot_payload_parser.cpp: what `parse_depth` keeps while it goes on, and the errors of reading a
-- value.
use mathlib.Core.Path.{subst}
use mathlib.Core.Option.{Option, some}
use ir_assignment.Prelude.{ℕ, ◌≡◌, refl, sym, true, false, ◌||◌, arith, if_cases, List}
use ir_assignment.Payload.{bid, ask, LevelUpdate, SpotParseError, SpotField, SpotDepthEvent}
use ir_assignment.Json.{
  JsonError, Read, got, lacks, Value, untyped, array, object, number, string, boolean, null,
  validate_json_value,
}
use ir_assignment.Parser.{
  ParseFailure, fail, fail_json, Field, value, failed, is_none, is_fatal_document_error,
  is_internal, classify_json_error, read_json_string, read_json_uint64, root_field_container_depth,
  is_schema_conversion_error, string_of, uint64_of, wrong_type,
}
use ir_assignment.Parser.Levels.{Impl, SideResult}
use ir_assignment.Parser.Levels.Loop.{IsImpl}
use ir_assignment.Parser.Levels.Kept.{IsLevelList, IsReadyImpl}
use ir_assignment.Parser.Depth.{Shape, Depth, Walk, ends, goes_on, depth_of, assigned, is_depth5}

-- What the loop keeps while it goes on.
pub record IsDepth (m : Shape) (d : Depth) : Type 0 where
  pub ready : IsReadyImpl d.impl
  pub bids_kept : IsLevelList bid (is_depth5 m) (depth_of d).bids
  pub asks_kept : IsLevelList ask (is_depth5 m) (depth_of d).asks
  pub mild : is_internal d.result.error ≡ false

-- A walk that ends at once has an error, which is not the table's.
abbrev pub IsWalk : Shape → Walk → Type 0
IsWalk m (goes_on d) = IsDepth m d
IsWalk m (ends d) =
    ((n : ℕ) × IsImpl n d.impl)
    × (is_none d.result.error ≡ false)
    × (is_internal d.result.error ≡ false)

abbrev pub IsMildField {ℓ} : {A : Type ℓ} → Field A → Type 0
IsMildField (value x) = Unit
IsMildField (failed f) = is_internal f.error ≡ false

pub json_mild : (e : JsonError) → is_internal (fail_json e).error ≡ false
json_mild e = ground arith

pub json_not_none : (e : JsonError) → is_none (classify_json_error e) ≡ false
json_not_none e = ground arith

pub fatal_not_none : (e : SpotParseError) → is_fatal_document_error e ≡ true → is_none e ≡ false
fatal_not_none e h = ground (arith, h)

pub none_not_fatal : (e : SpotParseError) → is_none e ≡ true → is_fatal_document_error e ≡ false
none_not_fatal e h = ground (arith, h)

pub harmless_not_fatal :
    (e : SpotParseError)
    → is_fatal_document_error e || is_internal e ≡ false
    → is_fatal_document_error e ≡ false
harmless_not_fatal e h = ground (arith, h)

wrong_type-IsMildField {ℓ} :
    (A : Type ℓ) (v : Value) (f : SpotField) → IsMildField {A = A} (wrong_type v f)
wrong_type-IsMildField A v f =
    elim (validate_json_value v root_field_container_depth)
      as (λ (o : Option JsonError). IsMildField {A = A} (elim o [
        | Option.none ↦ failed (fail SpotParseError.wrong_type f)
        | some e ↦ failed (fail_json e)
      ])) [ Option.none ↦ refl | some e ↦ json_mild e ]

string_of-IsMildField : (r : Read (List ℕ)) → IsMildField (string_of r)
string_of-IsMildField (got s) = tt
string_of-IsMildField (lacks e) = json_mild e

pub read_json_string-IsMildField : (v : Value) (f : SpotField) → IsMildField (read_json_string v f)
unfolding read_json_string
read_json_string-IsMildField (untyped e) f = json_mild e
read_json_string-IsMildField (string t) f = string_of-IsMildField t
read_json_string-IsMildField (array x) f = wrong_type-IsMildField (List ℕ) (array x) f
read_json_string-IsMildField (object x) f = wrong_type-IsMildField (List ℕ) (object x) f
read_json_string-IsMildField (number t n) f = wrong_type-IsMildField (List ℕ) (number t n) f
read_json_string-IsMildField (boolean b) f = wrong_type-IsMildField (List ℕ) (boolean b) f
read_json_string-IsMildField (null t) f = wrong_type-IsMildField (List ℕ) (null t) f

uint64_of-IsMildField : (f : SpotField) (r : Read ℕ) → IsMildField (uint64_of f r)
uint64_of-IsMildField f (got n) = tt
uint64_of-IsMildField f (lacks e) =
    if_cases IsMildField (is_schema_conversion_error e) (λ _. refl) (λ _. json_mild e)

pub read_json_uint64-IsMildField : (v : Value) (f : SpotField) → IsMildField (read_json_uint64 v f)
unfolding read_json_uint64
read_json_uint64-IsMildField (untyped e) f = json_mild e
read_json_uint64-IsMildField (number t n) f = uint64_of-IsMildField f n
read_json_uint64-IsMildField (array x) f = wrong_type-IsMildField ℕ (array x) f
read_json_uint64-IsMildField (object x) f = wrong_type-IsMildField ℕ (object x) f
read_json_uint64-IsMildField (string t) f = wrong_type-IsMildField ℕ (string t) f
read_json_uint64-IsMildField (boolean b) f = wrong_type-IsMildField ℕ (boolean b) f
read_json_uint64-IsMildField (null t) f = wrong_type-IsMildField ℕ (null t) f

assigned_impl :
    (d : Depth) (assign : List LevelUpdate → SpotDepthEvent) (impl : Impl) (f : ParseFailure)
    (output : Option (List LevelUpdate))
    → (assigned d assign (record { impl = impl; output = output; failure = f })).impl ≡ impl
assigned_impl d assign impl f Option.none = refl
assigned_impl d assign impl f (some levels) = refl

pub assigned_kept :
    (d : Depth) (assign : List LevelUpdate → SpotDepthEvent) (r : SideResult)
    → (n : ℕ) × IsImpl n r.impl
    → (n : ℕ) × IsImpl n (assigned d assign r).impl
assigned_kept d assign r k =
    subst (λ (impl : Impl). (n : ℕ) × IsImpl n impl)
      (sym (assigned_impl d assign r.impl r.failure r.output)) k
