-- ===== src/Parser/Document.antt =====
-- src/spot_payload_parser.cpp: `SpotPayloadParser::parse`. The JSON library is the argument `iterate`,
-- which answers for the bytes of a payload. A null pointer in place of a payload is not modelled.
pub mod Promise
pub mod Trades
use mathlib.Core.Option.{Option, some}
use mathlib.Core.Option
use ir_assignment.Prelude.{ℕ, ◌-◌, ◌+◌, Bool, true, false, ◌||◌, List, ltb, if◌then◌else◌, length}
use ir_assignment.Payload.{
  max_payload_bytes, json_padding_bytes, PayloadVenue, SpotStreamKind, SpotParseError, SpotField,
  SpotParseResult, PaddedJsonView,
}
use ir_assignment.Json.{Read, got, lacks, Value, object, validate_non_object_document}
use ir_assignment.Parser.{root_field_container_depth}
use ir_assignment.Parser.Duplicates.{next_generation, empty_slot}
use ir_assignment.Parser.Levels.{Impl}
use ir_assignment.Parser.Trade.{start_result, with_error, root_error, parse_trade}
use ir_assignment.Parser.Depth.{Shape, parse_depth}

abbrev pub initial_impl : Impl
initial_impl = record {
  duplicates = λ i. empty_slot;
  generation = 0;
  update_count = 0;
  encountered_levels = 0;
}

unfoldable pub begin_message : Impl → Impl
begin_message impl =
    let (slots, generation) = next_generation impl.duplicates impl.generation in
    record { duplicates = slots; generation = generation; update_count = 0; encountered_levels = 0 }

abbrev pub parse_object : Shape → Impl → Value → List ℕ → Impl × SpotParseResult
parse_object m impl (object fields) payload = elim m.kind [
  | SpotStreamKind.trade ↦ (impl, parse_trade fields m.expected_symbol)
  | _ ↦ parse_depth m impl fields
]
parse_object m impl v payload = (
  impl,
  elim (validate_non_object_document v payload root_field_container_depth) [
    | Option.none ↦ with_error (start_result m.kind) SpotParseError.root_not_object SpotField.root
    | some e ↦ root_error (start_result m.kind) e
  ],
)

abbrev pub parse_document : Shape → Impl → Read Value → List ℕ → Impl × SpotParseResult
parse_document m impl (lacks e) payload = (impl, root_error (start_result m.kind) e)
parse_document m impl (got v) payload = parse_object m impl v payload

module _ (iterate : List ℕ → Read Value) where
  unfoldable pub parse :
      Impl → PayloadVenue → SpotStreamKind → List ℕ → PaddedJsonView → Impl × SpotParseResult
  parse impl venue kind expected_symbol payload =
      let size = length payload.bytes in
      let m : Shape = record { venue = venue; kind = kind; expected_symbol = expected_symbol } in
      if ltb payload.capacity size || ltb (payload.capacity - size) json_padding_bytes
      then (impl, with_error (start_result kind) SpotParseError.invalid_input_buffer SpotField.root)
      else if ltb max_payload_bytes size
      then (impl, with_error (start_result kind) SpotParseError.payload_too_large SpotField.root)
      else parse_document m (begin_message impl) (iterate payload.bytes) payload.bytes
