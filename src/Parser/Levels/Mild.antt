-- ===== src/Parser/Levels/Mild.antt =====
-- src/spot_payload_parser.cpp: the failures of a level's components are not the table's.
use mathlib.Core.Option.{Option, some}
use ir_assignment.Prelude.{
  ℕ, ◌+◌, ◌<◌, ◌≡◌, refl, Bool, true, false, ◌&&◌, arith, leb, ◌==◌, if_cases, List,
}
use ir_assignment.Json.{
  JsonError, Read, got, lacks, Value, untyped, array, object, number, string, boolean, null,
  Elements, end_of_array, array_breaks, element, validate_json_value,
}
use ir_assignment.Parser.{ParseFailure, fail_json, is_fatal_document_error, is_internal}
use ir_assignment.Parser.Levels.{
  Pair, recorded, scan_pair, scan_component, refuse_component, keep_component, scan_expected,
  read_then, level_component_container_depth,
}
use ir_assignment.Parser.Levels.Loop.{recorded_mild}

-- No component that is refused reports the table.
abbrev pub IsMild : Read Pair → Type 0
IsMild (got p) = is_internal p.first_error.error ≡ false
IsMild (lacks e) = Unit

refuse_component-IsMild :
    (p : Pair) (failure : ParseFailure) (v : Value)
    → is_internal p.first_error.error ≡ false
    → is_internal failure.error ≡ false
    → IsMild (refuse_component p failure v)
refuse_component-IsMild p failure v h k =
    elim (validate_json_value v level_component_container_depth)
      as (λ (o : Option JsonError). IsMild (elim o [
        | some e ↦ lacks e
        | Option.none ↦ got (record p {
          first_error = recorded p.first_error failure;
          components_valid = false;
          component_count = p.component_count + 1;
        })
      ])) [ some e ↦ tt | Option.none ↦ recorded_mild p.first_error failure h k ]

keep_component-IsMild :
    (p : Pair) (text : Read (List ℕ))
    → is_internal p.first_error.error ≡ false
    → IsMild (keep_component p text)
keep_component-IsMild p (lacks e) h = tt
keep_component-IsMild p (got text) h = if_cases IsMild (p.component_count == 0) (λ _. h) (λ _. h)

scan_expected-IsMild :
    (p : Pair) (v : Value) → is_internal p.first_error.error ≡ false → IsMild (scan_expected p v)
scan_expected-IsMild p (untyped e) h = tt
scan_expected-IsMild p (string get_string) h = keep_component-IsMild p get_string h
scan_expected-IsMild p (array elements) h = refuse_component-IsMild p _ (array elements) h refl
scan_expected-IsMild p (object fields) h = refuse_component-IsMild p _ (object fields) h refl
scan_expected-IsMild p (number token n) h = refuse_component-IsMild p _ (number token n) h refl
scan_expected-IsMild p (boolean b) h = refuse_component-IsMild p _ (boolean b) h refl
scan_expected-IsMild p (null token) h = refuse_component-IsMild p _ (null token) h refl

scan_component-IsMild :
    (p : Pair) (v : Value) → is_internal p.first_error.error ≡ false → IsMild (scan_component p v)
unfolding scan_component
scan_component-IsMild p v h =
    if_cases IsMild (leb 2 p.component_count) (λ _. refuse_component-IsMild p _ v h refl)
      (λ _. scan_expected-IsMild p v h)

read_then-IsMild :
    (r : Read Pair) (f : Pair → Read Pair)
    → IsMild r
    → ((p : Pair) → is_internal p.first_error.error ≡ false → IsMild (f p))
    → IsMild (read_then r f)
read_then-IsMild (got p) f h k = k p h
read_then-IsMild (lacks e) f h k = tt

pub scan_pair-IsMild :
    (elements : Elements) (p : Pair)
    → is_internal p.first_error.error ≡ false
    → IsMild (scan_pair elements p)
unfolding scan_pair
scan_pair-IsMild end_of_array p h = h
scan_pair-IsMild (array_breaks e) p h = tt
scan_pair-IsMild (element v elements) p h =
    read_then-IsMild (scan_component p v) (scan_pair elements) (scan_component-IsMild p v h)
      (λ q m. scan_pair-IsMild elements q m)

pub not_zero : (n : ℕ) → (n == 0) ≡ false → 0 < n
not_zero n h = ground (arith, h)

pub not_zero_if : (a : Bool) (n : ℕ) → (a && n == 0) ≡ false → a ≡ true → 0 < n
not_zero_if a n h k = ground (arith, h, k)

pub fail_json_fatal : (e : JsonError) → is_fatal_document_error (fail_json e).error ≡ true
fail_json_fatal e = ground arith
