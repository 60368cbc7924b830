-- ===== src/Parser/Trade/Audit/Walk.antt =====
-- src/spot_payload_parser.cpp: the loop of `parse_trade` against the walk of src/json_validation.h, field
-- by field.
use mathlib.Core.Path.{subst}
use mathlib.Core.Option.{Option, some}
use ir_assignment.Prelude.{
  ℕ, ◌≡◌, refl, sym, ap, Bool, true, false, arith, List, [], ◌∷◌, if◌then◌else◌, Bool-cases, inl,
  inr,
}
use ir_assignment.Payload.{SpotParseError, SpotField, SpotParseResult}
use ir_assignment.Json.{
  JsonError, got, lacks, Value, untyped, array, object, number, string, boolean, null, Fields,
  end_of_object, object_breaks, member, and_then, validate_json_value, validate_fields,
}
use ir_assignment.SymbolIdentity.{bytes_equal}
use ir_assignment.Parser.{
  equals_ascii_case_insensitive, fail, fail_json, Field, value, failed, is_internal,
  is_fatal_document_error, classify_json_error, read_json_string, root_field_container_depth,
}
use ir_assignment.Parser.Depth.Suits.{is_text}
use ir_assignment.Parser.Trade.{
  trade_text, seen_event_type, note_event_type, seen_symbol, note_symbol, Scan, ends, goes_on,
  after_string, other_field, trade_field, scan_then, trade_fields,
}

-- A refusal for what the walk found, or the given result.
abbrev pub IsVerdict : Option JsonError → SpotParseResult → SpotParseResult → Type 0
IsVerdict Option.none wanted r = r ≡ wanted
IsVerdict (some e) wanted r = (r.error ≡ classify_json_error e) × (r.field ≡ SpotField.root)

-- The same of one field.
abbrev IsScanned : Option JsonError → SpotParseResult → Scan → Type 0
IsScanned Option.none wanted (goes_on r) = r ≡ wanted
IsScanned Option.none wanted (ends r) = ⊥
IsScanned (some e) wanted (goes_on r) = ⊥
IsScanned (some e) wanted (ends r) = (r.error ≡ classify_json_error e) × (r.field ≡ SpotField.root)

-- Reading a text, next to checking the value.
abbrev IsReading : Option JsonError → Value → Field (List ℕ) → Type 0
IsReading Option.none v (value s) = v ≡ string (got s)
IsReading Option.none v (failed f) =
    (is_fatal_document_error f.error ≡ false) × ((test : List ℕ → Bool) → is_text test v ≡ false)
IsReading (some e) v (value s) = ⊥
IsReading (some e) v (failed f) = f ≡ fail_json e

no_text-IsReading :
    (v : Value) (f : SpotField)
    → ((test : List ℕ → Bool) → is_text test v ≡ false)
    → IsReading
        (validate_json_value v root_field_container_depth)
        v
        (elim (validate_json_value v root_field_container_depth) [
          | Option.none ↦ failed (fail SpotParseError.wrong_type f)
          | some e ↦ failed (fail_json e)
        ])
no_text-IsReading v f h =
    elim (validate_json_value v root_field_container_depth)
      as (λ (o : Option JsonError). IsReading o v (elim o [
        | Option.none ↦ failed (fail SpotParseError.wrong_type f)
        | some e ↦ failed (fail_json e)
      ])) [ Option.none ↦ (refl, h) | some e ↦ refl ]

read_json_string-IsReading :
    (v : Value) (f : SpotField)
    → IsReading (validate_json_value v root_field_container_depth) v (read_json_string v f)
unfolding read_json_string validate_json_value
read_json_string-IsReading (untyped e) f = refl
read_json_string-IsReading (string (got s)) f = refl
read_json_string-IsReading (string (lacks e)) f = refl
read_json_string-IsReading (array x) f = no_text-IsReading (array x) f (λ t. refl)
read_json_string-IsReading (object x) f = no_text-IsReading (object x) f (λ t. refl)
read_json_string-IsReading (number t n) f = no_text-IsReading (number t n) f (λ t. refl)
read_json_string-IsReading (boolean b) f = no_text-IsReading (boolean b) f (λ t. refl)
read_json_string-IsReading (null t) f = no_text-IsReading (null t) f (λ t. refl)

pub json_mild : (e : JsonError) → is_internal (classify_json_error e) ≡ false
json_mild e = ground arith

json_fatal : (e : JsonError) → is_fatal_document_error (classify_json_error e) ≡ true
json_fatal e = ground arith

after_string-IsScanned :
    (o : Option JsonError) (v : Value) (r : SpotParseResult) (note : Bool → SpotParseResult)
    (test : List ℕ → Bool) (f : Field (List ℕ))
    → IsReading o v f
    → IsScanned o (note (is_text test v)) (after_string r note test f)
after_string-IsScanned Option.none v r note test (value s) k =
    ap (λ (w : Value). note (is_text test w)) (sym k)
after_string-IsScanned Option.none v r note test (failed f) (harmless, never) =
    rw (harmless, never test) refl
after_string-IsScanned (some e) v r note test (value s) k = absurd k
after_string-IsScanned (some e) v r note test (failed f) k = rw (k, json_fatal e) (refl, refl)

other_field-IsScanned :
    (r : SpotParseResult) (o : Option JsonError) → IsScanned o r (other_field r o)
other_field-IsScanned r Option.none = refl
other_field-IsScanned r (some e) = (refl, refl)

-- What one field is noted as.
abbrev pub noted : List ℕ → SpotParseResult → List ℕ → Value → SpotParseResult
noted expected_symbol r key v =
    if bytes_equal key (b'e' ∷ [])
    then note_event_type (seen_event_type r) (is_text (λ s. bytes_equal s trade_text) v)
    else if bytes_equal key (b's' ∷ [])
    then note_symbol (seen_symbol r)
        (is_text (λ s. equals_ascii_case_insensitive s expected_symbol) v)
    else r

trade_field-IsScanned :
    (expected_symbol : List ℕ) (r : SpotParseResult) (key : List ℕ) (v : Value)
    → IsScanned
        (validate_json_value v root_field_container_depth)
        (noted expected_symbol r key v)
        (trade_field expected_symbol r key v)
unfolding trade_field
trade_field-IsScanned expected_symbol r key v =
    let o = validate_json_value v root_field_container_depth in
    elim (Bool-cases (bytes_equal key (b'e' ∷ []))) [
      | inl is_e ↦ rw is_e (
          after_string-IsScanned o v (seen_event_type r) (note_event_type (seen_event_type r))
            (λ s. bytes_equal s trade_text) (read_json_string v SpotField.event_type)
            (read_json_string-IsReading v SpotField.event_type))
      | inr no_e ↦ elim (Bool-cases (bytes_equal key (b's' ∷ []))) [
        | inl is_s ↦
            rw (no_e, is_s)
              (after_string-IsScanned o v (seen_symbol r) (note_symbol (seen_symbol r))
                (λ s. equals_ascii_case_insensitive s expected_symbol)
                (read_json_string v SpotField.symbol)
                (read_json_string-IsReading v SpotField.symbol))
        | inr no_s ↦ rw (no_e, no_s) (other_field-IsScanned r o)
      ]
    ]

-- What all fields are noted as, one after the other.
unfoldable pub audited : List ℕ → Fields → SpotParseResult → SpotParseResult
audited expected_symbol end_of_object r = r
audited expected_symbol (object_breaks e) r = r
audited expected_symbol (member (lacks e) v fields) r = audited expected_symbol fields r
audited expected_symbol (member (got key) v fields) r =
    audited expected_symbol fields (noted expected_symbol r key v)

scan_then-IsVerdict :
    (o p : Option JsonError) (noted_one wanted : SpotParseResult) (s : Scan)
    (f : SpotParseResult → SpotParseResult)
    → IsScanned o noted_one s
    → IsVerdict p wanted (f noted_one)
    → IsVerdict (and_then o p) wanted (scan_then s f)
scan_then-IsVerdict Option.none p noted_one wanted (goes_on r) f k h =
    subst (λ (t : SpotParseResult). IsVerdict p wanted (f t)) (sym k) h
scan_then-IsVerdict Option.none p noted_one wanted (ends r) f k h = absurd k
scan_then-IsVerdict (some e) p noted_one wanted (goes_on r) f k h = absurd k
scan_then-IsVerdict (some e) p noted_one wanted (ends r) f k h = k

pub trade_fields-IsVerdict :
    (expected_symbol : List ℕ) (fields : Fields) (r : SpotParseResult)
    → IsVerdict
        (validate_fields fields root_field_container_depth)
        (audited expected_symbol fields r)
        (trade_fields expected_symbol fields r)
unfolding trade_fields validate_fields audited
trade_fields-IsVerdict expected_symbol end_of_object r = refl
trade_fields-IsVerdict expected_symbol (object_breaks e) r = (refl, refl)
trade_fields-IsVerdict expected_symbol (member (lacks e) v fields) r = (refl, refl)
trade_fields-IsVerdict expected_symbol (member (got key) v fields) r =
    scan_then-IsVerdict (validate_json_value v root_field_container_depth)
      (validate_fields fields root_field_container_depth) (noted expected_symbol r key v) _
      (trade_field expected_symbol r key v) (trade_fields expected_symbol fields)
      (trade_field-IsScanned expected_symbol r key v)
      (trade_fields-IsVerdict expected_symbol fields (noted expected_symbol r key v))
