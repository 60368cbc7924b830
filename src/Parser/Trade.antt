-- ===== src/Parser/Trade.antt =====
-- src/spot_payload_parser.cpp: `parse_trade`. A trade is only audited, so that what does not match is
-- noted, and only a fault of the document is an error.
pub mod Audit
use mathlib.Core.Option.{Option, some}
use mathlib.Core.Option
use ir_assignment.Prelude.{ℕ, Bool, true, false, not, ◌&&◌, List, [], ◌∷◌, if◌then◌else◌}
use ir_assignment.Payload.{
  SpotStreamKind, SpotParseError, SpotField, SpotDepthEvent, SpotTradeAuditEvent, SpotParseResult,
}
use ir_assignment.Payload
use ir_assignment.FixedPoint
use ir_assignment.SymbolIdentity.{bytes_equal}
use ir_assignment.Json.{
  JsonError, Read, got, lacks, Value, Fields, end_of_object, object_breaks, member,
  validate_json_value,
}
use ir_assignment.Parser.{
  ParseFailure, fail_json, Field, value, failed, is_fatal_document_error, classify_json_error,
  equals_ascii_case_insensitive, read_json_string, root_field_container_depth,
}

abbrev pub no_depth : SpotDepthEvent
no_depth = record {
  has_event_time = false;
  event_time_ms = 0;
  has_transaction_time = false;
  transaction_time_ms = 0;
  has_previous_update_id = false;
  previous_update_id = 0;
  first_update_id = 0;
  final_update_id = 0;
  bids = [];
  asks = [];
}

abbrev pub no_trade : SpotTradeAuditEvent
no_trade = record {
  event_type_present = false;
  event_type_matches = true;
  symbol_present = false;
  symbol_matches = true;
}

-- The result that each kind of message starts with.
abbrev pub start_result : SpotStreamKind → SpotParseResult
start_result kind = record {
  event = record { kind = kind; depth = no_depth; trade = no_trade };
  error = SpotParseError.none;
  field = SpotField.none;
  decimal_error = FixedPoint.none;
}

abbrev pub with_error : SpotParseResult → SpotParseError → SpotField → SpotParseResult
with_error result error field = record result { error = error; field = field }

abbrev pub root_error : SpotParseResult → JsonError → SpotParseResult
root_error result e = with_error result (classify_json_error e) SpotField.root

abbrev pub with_trade : SpotParseResult → SpotTradeAuditEvent → SpotParseResult
with_trade result trade = record result { event = record result.event { trade = trade } }

-- "trade"
abbrev pub trade_text : List ℕ
trade_text = b't' ∷ b'r' ∷ b'a' ∷ b'd' ∷ b'e' ∷ []

-- A result that is final, or that the loop goes on with.
pub data Scan : Type 0 where
  ends goes_on : SpotParseResult → Scan

abbrev pub after_string :
    SpotParseResult → (Bool → SpotParseResult) → (List ℕ → Bool) → Field (List ℕ) → Scan
after_string result note matches (value s) = goes_on (note (matches s))
after_string result note matches (failed f) =
    if is_fatal_document_error f.error
    then ends (with_error result f.error f.field)
    else goes_on (note false)

abbrev trade_of : SpotParseResult → SpotTradeAuditEvent
trade_of result = result.event.trade

abbrev pub seen_event_type : SpotParseResult → SpotParseResult
seen_event_type result = with_trade result (record (trade_of result) { event_type_present = true })

abbrev pub seen_symbol : SpotParseResult → SpotParseResult
seen_symbol result = with_trade result (record (trade_of result) { symbol_present = true })

abbrev pub note_event_type : SpotParseResult → Bool → SpotParseResult
note_event_type result matches = with_trade result (record (trade_of result) {
  event_type_matches = (trade_of result).event_type_matches && matches;
})

abbrev pub note_symbol : SpotParseResult → Bool → SpotParseResult
note_symbol result matches =
    with_trade result
      (record (trade_of result) { symbol_matches = (trade_of result).symbol_matches && matches })

abbrev pub other_field : SpotParseResult → Option JsonError → Scan
other_field result Option.none = goes_on result
other_field result (some e) = ends (root_error result e)

-- The body of the loop over the fields.
unfoldable pub trade_field : List ℕ → SpotParseResult → List ℕ → Value → Scan
trade_field expected_symbol result key v =
    if bytes_equal key (b'e' ∷ [])
    then after_string (seen_event_type result) (note_event_type (seen_event_type result))
        (λ s. bytes_equal s trade_text) (read_json_string v SpotField.event_type)
    else if bytes_equal key (b's' ∷ [])
    then after_string (seen_symbol result) (note_symbol (seen_symbol result))
        (λ s. equals_ascii_case_insensitive s expected_symbol) (read_json_string v SpotField.symbol)
    else other_field result (validate_json_value v root_field_container_depth)

abbrev pub scan_then : Scan → (SpotParseResult → SpotParseResult) → SpotParseResult
scan_then (ends result) f = result
scan_then (goes_on result) f = f result

unfoldable pub trade_fields : List ℕ → Fields → SpotParseResult → SpotParseResult
unfolding trade_field
trade_fields expected_symbol end_of_object result = result
trade_fields expected_symbol (object_breaks e) result = root_error result e
trade_fields expected_symbol (member (lacks e) v fields) result = root_error result e
trade_fields expected_symbol (member (got key) v fields) result =
    scan_then (trade_field expected_symbol result key v) (trade_fields expected_symbol fields)

unfoldable pub parse_trade : Fields → List ℕ → SpotParseResult
unfolding trade_fields
parse_trade object expected_symbol =
    trade_fields expected_symbol object (start_result SpotStreamKind.trade)
