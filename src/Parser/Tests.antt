-- ===== src/Parser/Tests.antt =====
-- Runs of `SpotPayloadParser::parse`, as in tests/unit_tests.cpp, and the theorems at an input.
use ir_assignment.FixedPoint.{parse_decimal_1e8}
use ir_assignment.Prelude.{if◌then◌else◌, ℕ, ◌≡◌, refl, List, [], ◌∷◌, arith, length}
use ir_assignment.Payload.{spot, depth5, trade, bid, ask, PaddedJsonView, SpotParseError}
use ir_assignment.SymbolIdentity.{bytes_equal}
use ir_assignment.Json.{
  Read, got, lacks, Value, array, object, number, string, end_of_array, element, Fields,
  end_of_object, member, unexpected_error, validate_json_value, validate_fields,
}
use ir_assignment.Event.Books.{IsParser}
use ir_assignment.Parser.{
  root_field_container_depth, read_json_string, read_json_uint64, equals_ascii_case_insensitive,
}
use ir_assignment.Parser.Duplicates.{
  inserted, duplicate, insert_unique, probe_from, mix_key, empty_slot, next_generation,
}
use ir_assignment.Parser.Duplicates.Probe.{Insert, insert_unique-Insert}
use ir_assignment.Parser.Duplicates.Room.{empty-IsTable}
use ir_assignment.Parser.Levels.{
  Impl, parse_levels, walk_levels, step_level, scan_pair, scan_component, accept_level,
}
use ir_assignment.Parser.Trade.{parse_trade, trade_fields, trade_field}
use ir_assignment.Parser.Trade.Audit.Walk.{IsVerdict}
use ir_assignment.Parser.Trade.Audit.{trade_result}
use ir_assignment.Parser.Document.Trades.{parse-IsVerdict}
use ir_assignment.Parser.Depth.{
  Shape, parse_depth, depth_fields, depth_field, read_field, field_of_key, finish_depth, has_all,
}
use ir_assignment.Parser.Depth.Once.{IsComplete, parse_depth-IsComplete}
use ir_assignment.Parser.Document.{initial_impl, begin_message, parse}
use ir_assignment.Parser.Document.Promise.{
  Message, shape_of, answer, behind, IsOpen, begin_message-IsReadyImpl, IsAnswer, messages-IsAnswer,
  parse-IsParser,
}

abbrev text : List ℕ → Value
text s = string (got s)

abbrev level : List ℕ → List ℕ → Value
level p q = array (element (text p) (element (text q) end_of_array))

-- { "lastUpdateId": 7, "bids": [["2", "5"], ["1", "3"]], "asks": [["3", "4"]] }
abbrev partial_object : Fields
partial_object =
    member
      (got (b'l' ∷ b'a' ∷ b's' ∷ b't' ∷ b'U' ∷ b'p' ∷ b'd' ∷ b'a' ∷ b't' ∷ b'e' ∷ b'I' ∷ b'd' ∷ []))
      (number (b'7' ∷ []) (got 7))
      (member (got (b'b' ∷ b'i' ∷ b'd' ∷ b's' ∷ []))
        (array (
          element (level (b'2' ∷ []) (b'5' ∷ []))
            (element (level (b'1' ∷ []) (b'3' ∷ [])) end_of_array)))
        (member (got (b'a' ∷ b's' ∷ b'k' ∷ b's' ∷ []))
          (array (element (level (b'3' ∷ []) (b'4' ∷ [])) end_of_array)) end_of_object))

-- { "e": "trade", "s": 5, "s": "ab" }
abbrev trade_object : Fields
trade_object = member (got (b'e' ∷ [])) (text (b't' ∷ b'r' ∷ b'a' ∷ b'd' ∷ b'e' ∷ [])) (
    member (got (b's' ∷ [])) (number (b'5' ∷ []) (got 5))
      (member (got (b's' ∷ [])) (text (b'a' ∷ b'b' ∷ [])) end_of_object))

-- A library that knows two payloads.
abbrev iterate : List ℕ → Read Value
iterate bytes =
    if bytes_equal bytes (b'p' ∷ [])
    then got (object partial_object)
    else if bytes_equal bytes (b't' ∷ [])
    then got (object trade_object)
    else lacks unexpected_error

abbrev payload : List ℕ → PaddedJsonView
payload bytes = record { bytes = bytes; capacity = 65 }

abbrev partial_message : Message
partial_message = record {
  venue = spot;
  kind = depth5;
  expected_symbol = b'A' ∷ b'B' ∷ [];
  payload = payload (b'p' ∷ []);
}

abbrev trade_message : Message
trade_message = record {
  venue = spot;
  kind = trade;
  expected_symbol = b'A' ∷ b'B' ∷ [];
  payload = payload (b't' ∷ []);
}

abbrev spot_depth5 : Shape
spot_depth5 = record { venue = spot; kind = depth5; expected_symbol = b'A' ∷ b'B' ∷ [] }

-- A parser that begins its first message.
abbrev ready_impl : Impl
ready_impl = begin_message initial_impl

partial_run : (parse_depth spot_depth5 ready_impl partial_object).1.error ≡ SpotParseError.none
unfolding parse_depth depth_fields depth_field read_field field_of_key finish_depth has_all
    parse_levels walk_levels step_level scan_pair scan_component accept_level insert_unique
    probe_from mix_key read_json_uint64 bytes_equal parse_decimal_1e8 begin_message next_generation
partial_run = refl

-- The answer to the second message has two bids.
second_run :
    length
      (answer iterate
        (behind iterate initial_impl (trade_message ∷ []))
        partial_message).1.event.depth.bids
    ≡ 2
unfolding parse parse_depth depth_fields depth_field read_field field_of_key finish_depth has_all
    parse_levels walk_levels step_level scan_pair scan_component accept_level insert_unique
    probe_from mix_key read_json_uint64 read_json_string bytes_equal parse_decimal_1e8 begin_message
    next_generation parse_trade trade_fields trade_field equals_ascii_case_insensitive
    validate_json_value
second_run = refl

-- A price is new to a side once.
once_run : (insert_unique (insert_unique (λ i. empty_slot) 1 250 bid).0 1 250 bid).1 ≡ duplicate
unfolding insert_unique probe_from mix_key
once_run = refl

other_side_run :
    (insert_unique (insert_unique (λ i. empty_slot) 1 250 bid).0 1 250 ask).1 ≡ inserted
unfolding insert_unique probe_from mix_key
other_side_run = refl

initial_impl-IsOpen : IsOpen initial_impl
initial_impl-IsOpen j = omega arith

insert_unique-Insert_example :
    Insert (λ i. empty_slot) 1 250 bid (insert_unique (λ i. empty_slot) 1 250 bid)
insert_unique-Insert_example =
    insert_unique-Insert (λ i. empty_slot) 1 250 bid
      (empty-IsTable (λ i. empty_slot) 1 (λ j live. absurd (omega (arith, live))))

trade_is_read : iterate (b't' ∷ []) ≡ got (object trade_object)
unfolding bytes_equal
trade_is_read = refl

parse-IsVerdict_example :
    IsVerdict
      (validate_fields trade_object root_field_container_depth)
      (trade_result trade_object (b'A' ∷ b'B' ∷ []))
      (parse iterate initial_impl spot trade (b'A' ∷ b'B' ∷ []) (payload (b't' ∷ []))).1
parse-IsVerdict_example =
    parse-IsVerdict iterate initial_impl spot (b'A' ∷ b'B' ∷ []) (payload (b't' ∷ [])) trade_object
      (omega arith) (omega arith) trade_is_read

parse_depth-IsComplete_example : IsComplete spot_depth5 partial_object
parse_depth-IsComplete_example =
    parse_depth-IsComplete spot_depth5 ready_impl partial_object
      (begin_message-IsReadyImpl initial_impl initial_impl-IsOpen) partial_run

messages-IsAnswer_example :
    IsAnswer
      (shape_of partial_message)
      (answer iterate (behind iterate initial_impl (trade_message ∷ [])) partial_message)
messages-IsAnswer_example = messages-IsAnswer iterate (trade_message ∷ []) partial_message

parse-IsParser_example : IsParser (λ venue kind symbol payload.
    (parse iterate
      (behind iterate initial_impl (partial_message ∷ []))
      venue
      kind
      symbol
      payload).1)
parse-IsParser_example = parse-IsParser iterate (partial_message ∷ [])
