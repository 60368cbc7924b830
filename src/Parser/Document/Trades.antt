-- ===== src/Parser/Document/Trades.antt =====
-- src/spot_payload_parser.cpp: what `SpotPayloadParser::parse` answers to a trade whose document is an
-- object.
use ir_assignment.Prelude.{ℕ, ◌+◌, ◌≤◌, ◌≡◌, arith, List, length}
use ir_assignment.Payload.{
  PayloadVenue, trade, PaddedJsonView, json_padding_bytes, max_payload_bytes,
}
use ir_assignment.Json.{Read, got, Value, object, Fields, validate_fields}
use ir_assignment.Parser.{root_field_container_depth}
use ir_assignment.Parser.Levels.{Impl}
use ir_assignment.Parser.Trade.Audit.Walk.{IsVerdict}
use ir_assignment.Parser.Trade.Audit.{trade_result, parse_trade-IsVerdict}
use ir_assignment.Parser.Document.{begin_message, parse, parse_document}
use ir_assignment.Parser.Depth.{Shape}

module _ (iterate : List ℕ → Read Value) where
  parse_fitting :
      (impl : Impl) (venue : PayloadVenue) (expected_symbol : List ℕ) (payload : PaddedJsonView)
      → length payload.bytes + json_padding_bytes ≤ payload.capacity
      → length payload.bytes ≤ max_payload_bytes
      → let m : Shape = record { venue = venue; kind = trade; expected_symbol = expected_symbol } in
        parse iterate impl venue trade expected_symbol payload
        ≡ parse_document m (begin_message impl) (iterate payload.bytes) payload.bytes
  unfolding parse
  parse_fitting impl venue expected_symbol payload room fits = ground (arith, room, fits)

  -- For a payload in a buffer with its 64 bytes of padding, of at most 1 MiB, which the JSON library
  -- reads as an object, a trade is refused exactly for the first thing that `validate_json_value`
  -- finds wrong in the object, as too deep or as malformed, at the root. Otherwise the answer has no
  -- error, and notes of the fields "e" and "s" whether they are there, and whether every value of "e"
  -- is the text "trade" and every value of "s" the expected symbol, in any case.
  pub parse-IsVerdict :
      (impl : Impl) (venue : PayloadVenue) (expected_symbol : List ℕ) (payload : PaddedJsonView)
      (fields : Fields)
      → length payload.bytes + json_padding_bytes ≤ payload.capacity
      → length payload.bytes ≤ max_payload_bytes
      → iterate payload.bytes ≡ got (object fields)
      → IsVerdict
          (validate_fields fields root_field_container_depth)
          (trade_result fields expected_symbol)
          (parse iterate impl venue trade expected_symbol payload).1
  parse-IsVerdict impl venue expected_symbol payload fields room fits e =
      rw (parse_fitting impl venue expected_symbol payload room fits, e)
        (parse_trade-IsVerdict fields expected_symbol)
