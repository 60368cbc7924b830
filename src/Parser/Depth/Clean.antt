-- ===== src/Parser/Depth/Clean.antt =====
-- src/spot_payload_parser.cpp: a field that is read without an error suits.
use mathlib.Core.Option.{Option, some}
use ir_assignment.Prelude.{
  ℕ, ◌≡◌, refl, sym, ◌∙◌, Bool, true, false, ◌||◌, arith, if◌then◌else◌, if_cases, Bool-cases,
  true_ne_false, List, inl, inr,
}
use ir_assignment.Payload.{SpotParseError, SpotField, BookSide, LevelUpdate, SpotDepthEvent}
use ir_assignment.SymbolIdentity.{bytes_equal}
use ir_assignment.Json.{
  JsonError, Value, untyped, array, object, number, string, boolean, null, validate_json_value,
}
use ir_assignment.Parser.{
  ParseFailure, fail, fail_json, Field, value, failed, is_none, is_fatal_document_error,
  is_internal, root_field_container_depth, equals_ascii_case_insensitive,
}
use ir_assignment.Parser.Levels.{Impl, SideResult, parse_levels, not_levels, side_field}
use ir_assignment.Parser.Depth.{
  Shape, Bit, event_type, event_time, transaction_time, symbol, first_update_id, final_update_id,
  previous_update_id, last_update_id, bids, asks, Depth, Walk, ends, goes_on, record_error,
  after_failure, after_read, after_levels, assigned, read_field, depth_update_text, depth_of,
  with_depth, is_depth5,
}
use ir_assignment.Parser.Depth.Suits.{
  is_text, is_count, is_array, suits, IsText, IsCount, json_fault, read_json_string-IsText,
  read_json_uint64-IsCount,
}

-- A walk that goes on without an error came from one, and has the fields that it is to have.
abbrev pub Clean : Depth → (Bit → Bool) → Type 0 → Walk → Type 0
Clean d fields P (ends a) = Unit
Clean d fields P (goes_on a) =
    a.result.error ≡ SpotParseError.none
    → (d.result.error ≡ SpotParseError.none) × ((b : Bit) → a.fields b ≡ fields b) × P

pub record_error_lem :
    (d : Depth) (f : ParseFailure)
    → is_none f.error ≡ false
    → (record_error d f).result.error ≡ SpotParseError.none
    → ⊥
record_error_lem d f h e = ground (arith, h, e)

after_failure-Clean :
    (d : Depth) (f : ParseFailure) (P : Type 0)
    → is_none f.error ≡ false
    → Clean d d.fields P (after_failure d f)
after_failure-Clean d f P h =
    if_cases (Clean d d.fields P) (is_fatal_document_error f.error) (λ _. tt)
      (λ _ e. absurd (record_error_lem d f h e))

text-Clean :
    (test : List ℕ → Bool) (d : Depth) (f : ParseFailure) (v : Value) (r : Field (List ℕ))
    → IsText v r
    → is_none f.error ≡ false
    → Clean d d.fields
        (is_text test v ≡ true)
        (after_read d (λ s. if test s then d else record_error d f) r)
text-Clean test d f v (value s) k h = elim (Bool-cases (test s)) [
  | inl yes_it_is ↦ rw (yes_it_is, k) (λ e. (e, (λ b. refl), yes_it_is))
  | inr no_it_is_not ↦ rw no_it_is_not (λ e. absurd (record_error_lem d f h e))
]
text-Clean test d f v (failed g) k h = after_failure-Clean d g _ k

count-Clean :
    (d : Depth) (assign : ℕ → SpotDepthEvent) (v : Value) (r : Field ℕ)
    → IsCount v r
    → Clean d d.fields (is_count v ≡ true) (after_read d (λ n. with_depth d (assign n)) r)
count-Clean d assign v (value n) k = λ e. (e, (λ b. refl), k)
count-Clean d assign v (failed g) k = after_failure-Clean d g _ k

not_levels_fault :
    (impl : Impl) (side : BookSide) (v : Value)
    → is_none (not_levels impl side v).failure.error ≡ false
not_levels_fault impl side v =
    elim (validate_json_value v root_field_container_depth)
      as (λ (o : Option JsonError).
        is_none
          (elim o as (λ _. ParseFailure) [
            | some e ↦ fail_json e
            | Option.none ↦ fail SpotParseError.wrong_type (side_field side)
          ]).error
        ≡ false) [ Option.none ↦ refl | some e ↦ json_fault e ]

-- A side without a fault is an array.
parse_levels_lem :
    (side : BookSide) (is_partial : Bool) (impl : Impl) (v : Value)
    → is_none (parse_levels side is_partial impl v).failure.error ≡ true
    → is_array v ≡ true
unfolding parse_levels
parse_levels_lem side is_partial impl (array levels) e = refl
parse_levels_lem side is_partial impl (untyped x) e = absurd (true_ne_false (sym e ∙ json_fault x))
parse_levels_lem side is_partial impl (object x) e =
    absurd (true_ne_false (sym e ∙ not_levels_fault impl side (object x)))
parse_levels_lem side is_partial impl (number t n) e =
    absurd (true_ne_false (sym e ∙ not_levels_fault impl side (number t n)))
parse_levels_lem side is_partial impl (string t) e =
    absurd (true_ne_false (sym e ∙ not_levels_fault impl side (string t)))
parse_levels_lem side is_partial impl (boolean b) e =
    absurd (true_ne_false (sym e ∙ not_levels_fault impl side (boolean b)))
parse_levels_lem side is_partial impl (null t) e =
    absurd (true_ne_false (sym e ∙ not_levels_fault impl side (null t)))

assigned_lem :
    (d : Depth) (assign : List LevelUpdate → SpotDepthEvent) (impl : Impl) (f : ParseFailure)
    (output : Option (List LevelUpdate))
    → let a = assigned d assign (record { impl = impl; output = output; failure = f }) in
      (a.result.error ≡ d.result.error) × ((b : Bit) → a.fields b ≡ d.fields b)
assigned_lem d assign impl f Option.none = (refl, λ b. refl)
assigned_lem d assign impl f (some levels) = (refl, λ b. refl)

levels-Clean :
    (d : Depth) (assign : List LevelUpdate → SpotDepthEvent) (r : SideResult) (P : Type 0)
    → (is_none r.failure.error ≡ true → P)
    → Clean d d.fields P (after_levels d assign r)
levels-Clean d assign r P k =
    let (same_error, same_fields) = assigned_lem d assign r.impl r.failure r.output in
    if_cases (Clean d d.fields P) (is_none r.failure.error)
      (λ h e. (sym same_error ∙ e, same_fields, k h))
      (λ h.
        if_cases (Clean d d.fields P)
          (is_fatal_document_error r.failure.error || is_internal r.failure.error) (λ _. tt)
          (λ _ e. absurd (record_error_lem (assigned d assign r) r.failure h e)))

pub read_field-Clean :
    (m : Shape) (d : Depth) (bit : Bit) (v : Value)
    → Clean d d.fields (suits m bit v ≡ true) (read_field m d bit v)
unfolding read_field
read_field-Clean m d event_type v =
    text-Clean (λ s. bytes_equal s depth_update_text) d
      (fail SpotParseError.unexpected_event_type SpotField.event_type) v _
      (read_json_string-IsText v SpotField.event_type) refl
read_field-Clean m d symbol v =
    text-Clean (λ s. equals_ascii_case_insensitive s m.expected_symbol) d
      (fail SpotParseError.symbol_mismatch SpotField.symbol) v _
      (read_json_string-IsText v SpotField.symbol) refl
read_field-Clean m d event_time v =
    count-Clean d _ v _ (read_json_uint64-IsCount v SpotField.event_time)
read_field-Clean m d transaction_time v =
    count-Clean d _ v _ (read_json_uint64-IsCount v SpotField.transaction_time)
read_field-Clean m d first_update_id v =
    count-Clean d _ v _ (read_json_uint64-IsCount v SpotField.first_update_id)
read_field-Clean m d final_update_id v =
    count-Clean d _ v _ (read_json_uint64-IsCount v SpotField.final_update_id)
read_field-Clean m d previous_update_id v =
    count-Clean d _ v _ (read_json_uint64-IsCount v SpotField.previous_update_id)
read_field-Clean m d last_update_id v =
    count-Clean d _ v _ (read_json_uint64-IsCount v SpotField.last_update_id)
read_field-Clean m d bids v =
    levels-Clean d (λ levels. record (depth_of d) { bids = levels })
      (parse_levels BookSide.bid (is_depth5 m) d.impl v) _
      (parse_levels_lem BookSide.bid (is_depth5 m) d.impl v)
read_field-Clean m d asks v =
    levels-Clean d (λ levels. record (depth_of d) { asks = levels })
      (parse_levels BookSide.ask (is_depth5 m) d.impl v) _
      (parse_levels_lem BookSide.ask (is_depth5 m) d.impl v)
