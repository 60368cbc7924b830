-- ===== src/Parser/Levels.antt =====
-- src/spot_payload_parser.cpp: `parse_levels`, the walk over one side of the book in a message. The
-- array of updates is the list of those that are written for the side, in order, with the count over
-- both sides. What the loops keep in local variables are fields of a record.
pub mod Loop
pub mod Mild
pub mod Steps
pub mod Invariant
pub mod Kept
use mathlib.Core.Option.{Option, some}
use mathlib.Core.Option
use ir_assignment.Prelude.{
  ℕ, zero, suc, ◌+◌, Bool, true, false, not, ◌&&◌, ◌||◌, List, [], ◌∷◌, ◌++◌, ltb, leb, ◌==◌,
  if◌then◌else◌,
}
use ir_assignment.Payload.{BookSide, bid, ask, LevelUpdate, SpotParseError, SpotField}
use ir_assignment.Payload
use ir_assignment.FixedPoint.{DecimalParseError, DecimalParseResult, parse_decimal_1e8}
use ir_assignment.FixedPoint
use ir_assignment.Json.{
  JsonError, Read, got, lacks, Value, untyped, array, string, Elements, end_of_array, array_breaks,
  element, validate_json_value,
}
use ir_assignment.Parser.{
  ParseFailure, no_failure, fail, is_none, fail_json, root_field_container_depth,
}
use ir_assignment.Parser.Duplicates.{
  Slots, InsertResult, inserted, duplicate, table_full, insert_unique,
}

abbrev pub max_depth_updates : ℕ
max_depth_updates = 16_384

abbrev pub max_partial_depth_levels_per_side : ℕ
max_partial_depth_levels_per_side = 5

abbrev pub level_container_depth : ℕ
level_container_depth = 3

abbrev pub level_component_container_depth : ℕ
level_component_container_depth = 4

-- `Impl`, less the parser of the library.
pub record Impl : Type 0 where
  pub duplicates : Slots
  pub generation : ℕ
  pub update_count : ℕ
  pub encountered_levels : ℕ

-- A loop goes on with its state, or `parse_levels` returns a failure at once.
pub data Flow {ℓ} (A : Type ℓ) : Type ℓ where
  goes : A → Flow A
  returns : Impl → ParseFailure → Flow A

-- The local variables of the loop over the components of a level.
pub record Pair : Type 0 where
  pub price_text : List ℕ
  pub quantity_text : List ℕ
  pub component_count : ℕ
  pub components_valid : Bool
  pub first_error : ParseFailure

-- `record_error`: the first one stays.
abbrev pub recorded : ParseFailure → ParseFailure → ParseFailure
recorded first_error failure = if is_none first_error.error then failure else first_error

-- A component that cannot be used: recorded, checked, counted.
abbrev pub refuse_component : Pair → ParseFailure → Value → Read Pair
refuse_component p failure v = elim (validate_json_value v level_component_container_depth) [
  | some e ↦ lacks e
  | Option.none ↦ got (record p {
    first_error = recorded p.first_error failure;
    components_valid = false;
    component_count = p.component_count + 1;
  })
]

abbrev pub keep_component : Pair → Read (List ℕ) → Read Pair
keep_component p (lacks e) = lacks e
keep_component p (got text) =
    if p.component_count == 0
    then got (record p { price_text = text; component_count = p.component_count + 1 })
    else got (record p { quantity_text = text; component_count = p.component_count + 1 })

abbrev pub component_field : Pair → SpotField
component_field p = if p.component_count == 0 then SpotField.price else SpotField.quantity

-- One of the first two components.
abbrev pub scan_expected : Pair → Value → Read Pair
scan_expected p (untyped e) = lacks e
scan_expected p (string get_string) = keep_component p get_string
scan_expected p v = refuse_component p (fail SpotParseError.wrong_type (component_field p)) v

unfoldable pub scan_component : Pair → Value → Read Pair
scan_component p v =
    if leb 2 p.component_count
    then refuse_component p (fail SpotParseError.invalid_level_shape SpotField.level) v
    else scan_expected p v

abbrev pub read_then {ℓ κ} : {A : Type ℓ} {B : Type κ} → Read A → (A → Read B) → Read B
read_then (got x) f = f x
read_then (lacks e) f = lacks e

unfoldable pub scan_pair : Elements → Pair → Read Pair
unfolding scan_component
scan_pair end_of_array p = got p
scan_pair (array_breaks e) p = lacks e
scan_pair (element v elements) p = read_then (scan_component p v) (scan_pair elements)

-- The local variables of the loop over the levels.
pub record Levels : Type 0 where
  pub impl : Impl
  pub first_error : ParseFailure
  pub side_level_count : ℕ
  pub previous_price : ℕ
  pub has_previous_price : Bool
  pub written : List LevelUpdate

abbrev pub record_error : Levels → ParseFailure → Levels
record_error s failure = record s { first_error = recorded s.first_error failure }

abbrev pub in_order : BookSide → ℕ → ℕ → Bool
in_order bid previous_price price = ltb price previous_price
in_order ask previous_price price = ltb previous_price price

abbrev pub side_field : BookSide → SpotField
side_field bid = SpotField.bids
side_field ask = SpotField.asks

-- A level that is new to the message: written if it is in order.
abbrev pub write_level : BookSide → Bool → Levels → ℕ → ℕ → Levels
write_level side is_partial s price quantity =
    if is_partial && s.has_previous_price && not (in_order side s.previous_price price)
    then record_error s (fail SpotParseError.invalid_level_order (side_field side))
    else record s {
      impl = record s.impl { update_count = s.impl.update_count + 1 };
      written = s.written ++ (record { price = price; quantity = quantity; side = side } ∷ []);
      previous_price = price;
      has_previous_price = true;
    }

-- What becomes of a level for which the table has answered.
abbrev pub after_insert : BookSide → Bool → Levels → ℕ → ℕ → Slots × InsertResult → Flow Levels
after_insert side is_partial s price quantity (slots, inserted) = goes (
    write_level side is_partial (record s { impl = record s.impl { duplicates = slots } }) price
      quantity)
after_insert side is_partial s price quantity (slots, duplicate) = goes (
    record_error (record s { impl = record s.impl { duplicates = slots } })
      (fail SpotParseError.duplicate_price SpotField.price))
after_insert side is_partial s price quantity (slots, table_full) =
    returns (record s.impl { duplicates = slots })
      (fail SpotParseError.internal_capacity_error SpotField.level)

abbrev pub is_parsed : DecimalParseResult → Bool
is_parsed r = elim r.error [ FixedPoint.none ↦ true | _ ↦ false ]

abbrev pub decimal_failure : SpotField → DecimalParseResult → ParseFailure
decimal_failure field r = record {
  error = SpotParseError.invalid_decimal;
  field = field;
  decimal_error = r.error;
}

-- The two texts of a level.
unfoldable pub accept_level : BookSide → Bool → Levels → List ℕ → List ℕ → Flow Levels
accept_level side is_partial s price_text quantity_text =
    let parsed_price = parse_decimal_1e8 price_text in
    let parsed_quantity = parse_decimal_1e8 quantity_text in
    if not (is_parsed parsed_price)
    then goes (record_error s (decimal_failure SpotField.price parsed_price))
    else if parsed_price.value == 0
    then goes (record_error s (fail SpotParseError.non_positive_price SpotField.price))
    else if not (is_parsed parsed_quantity)
    then goes (record_error s (decimal_failure SpotField.quantity parsed_quantity))
    else if is_partial && parsed_quantity.value == 0
    then goes (record_error s (fail SpotParseError.invalid_quantity SpotField.quantity))
    else after_insert side is_partial s parsed_price.value parsed_quantity.value
        (insert_unique s.impl.duplicates s.impl.generation parsed_price.value side)

abbrev pub empty_pair : ParseFailure → Pair
empty_pair first_error = record {
  price_text = [];
  quantity_text = [];
  component_count = 0;
  components_valid = true;
  first_error = first_error;
}

-- A level whose components were walked over.
abbrev pub finish_pair : BookSide → Bool → Levels → Read Pair → Flow Levels
finish_pair side is_partial s (lacks e) = returns s.impl (fail_json e)
finish_pair side is_partial s (got p) =
    let seen = record s { first_error = p.first_error } in
    if not (p.component_count == 2)
    then goes (record_error seen (fail SpotParseError.invalid_level_shape SpotField.level))
    else if not p.components_valid
    then goes seen
    else accept_level side is_partial seen p.price_text p.quantity_text

-- A level that is not looked at: recorded and checked.
abbrev pub refuse_level : Levels → ParseFailure → Value → Flow Levels
refuse_level s failure v = elim (validate_json_value v level_container_depth) [
  | some e ↦ returns s.impl (fail_json e)
  | Option.none ↦ goes (record_error s failure)
]

abbrev pub level_of_type : BookSide → Bool → Levels → Value → Flow Levels
level_of_type side is_partial s (untyped e) = returns s.impl (fail_json e)
level_of_type side is_partial s (array elements) =
    finish_pair side is_partial s (scan_pair elements (empty_pair s.first_error))
level_of_type side is_partial s v =
    refuse_level s (fail SpotParseError.invalid_level_shape SpotField.level) v

abbrev pub counted : Levels → Levels
counted s = record s {
  impl = record s.impl { encountered_levels = s.impl.encountered_levels + 1 };
  side_level_count = s.side_level_count + 1;
}

abbrev pub over_capacity : Bool → Levels → Bool
over_capacity is_partial s =
    leb max_depth_updates s.impl.encountered_levels
    || (is_partial && leb max_partial_depth_levels_per_side s.side_level_count)

-- The body of the loop over the levels.
unfoldable pub step_level : BookSide → Bool → Levels → Value → Flow Levels
unfolding scan_pair accept_level
step_level side is_partial s v =
    if over_capacity is_partial s
    then refuse_level (counted s) (fail SpotParseError.too_many_levels (side_field side)) v
    else level_of_type side is_partial (counted s) v

abbrev pub flow_then {ℓ κ} : {A : Type ℓ} {B : Type κ} → Flow A → (A → Flow B) → Flow B
flow_then (goes x) f = f x
flow_then (returns impl failure) f = returns impl failure

unfoldable pub walk_levels : BookSide → Bool → Elements → Levels → Flow Levels
unfolding step_level
walk_levels side is_partial end_of_array s = goes s
walk_levels side is_partial (array_breaks e) s = returns s.impl (fail_json e)
walk_levels side is_partial (element v levels) s =
    flow_then (step_level side is_partial s v) (walk_levels side is_partial levels)

-- The state behind a side, the range that is assigned if one is, and the failure.
pub record SideResult : Type 0 where
  pub impl : Impl
  pub output : Option (List LevelUpdate)
  pub failure : ParseFailure

abbrev pub side_result : Flow Levels → SideResult
side_result (returns impl failure) = record { impl = impl; output = Option.none; failure = failure }
side_result (goes s) = record { impl = s.impl; output = some s.written; failure = s.first_error }

abbrev pub levels_start : Impl → Levels
levels_start impl = record {
  impl = impl;
  first_error = no_failure;
  side_level_count = 0;
  previous_price = 0;
  has_previous_price = false;
  written = [];
}

-- A side that is no array.
abbrev pub not_levels : Impl → BookSide → Value → SideResult
not_levels impl side v = record {
  impl = impl;
  output = Option.none;
  failure = elim (validate_json_value v root_field_container_depth) [
    | some e ↦ fail_json e
    | Option.none ↦ fail SpotParseError.wrong_type (side_field side)
  ];
}

unfoldable pub parse_levels : BookSide → Bool → Impl → Value → SideResult
unfolding walk_levels
parse_levels side is_partial impl (untyped e) = record {
  impl = impl;
  output = Option.none;
  failure = fail_json e;
}
parse_levels side is_partial impl (array levels) =
    side_result (walk_levels side is_partial levels (levels_start impl))
parse_levels side is_partial impl v = not_levels impl side v
