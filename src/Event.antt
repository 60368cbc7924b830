-- ===== src/Event.antt =====
-- src/event_processor.cpp: the state of one symbol, and the transaction that an event makes on it.
-- `SpotPayloadParser::parse` is the argument `parse`, and what memory the two row buffers get are the
-- arguments `audit_memory` and `book_memory` (Csv/Format). The tests that an enumerator is one of its
-- type's are true here. The batch is the rows that a call leaves in it.
pub mod Atomic
pub mod Context
pub mod Sources
pub mod Books
pub mod Reconnect
mod Tests
use mathlib.Core.Option.{Option, some}
use mathlib.Core.Option
use ir_assignment.Prelude.{
  ℕ, ◌+◌, ◌-◌, ◌*◌, ◌^◌, Bool, true, false, not, ◌&&◌, ◌||◌, List, [], ltb, leb, ◌==◌,
  if◌then◌else◌,
}
use ir_assignment.Payload.{
  PayloadVenue, spot, usdm, SpotStreamKind, depth_diff, depth5, trade, SpotParseError, SpotField,
  SpotParseResult, SpotDepthEvent, PaddedJsonView,
}
use ir_assignment.Payload
use ir_assignment.SymbolIdentity.{derive_instrument_id, bytes_equal}
use ir_assignment.SymbolIdentity
use ir_assignment.Book.Side.{BookLevel, Side}
use ir_assignment.Book.Side.View.{contents}
use ir_assignment.Book.Core.{Core, BookApplyStatus, BookApplyResult, emits_snapshot}
use ir_assignment.Book.Core
use ir_assignment.Book.Spot.{SpotBookState}
use ir_assignment.Book.Spot
use ir_assignment.Book.Usdm.{UsdmBookState}
use ir_assignment.Book.Usdm
use ir_assignment.Csv.Format.{
  CsvTimestamp, CsvFormatError, BookRowType, differential, partial_refresh, MarketDataCsvRow,
  OrderBookCsvRow, valid_timestamp, format_market_data_csv_row, format_order_book_csv_row,
}
use ir_assignment.Csv.Format

pub data EventOutputMode : Type 0 where
  live_capture replay : EventOutputMode

pub data EventProcessStatus : Type 0 where
  not_processed applied_refresh applied_diff stale_refresh stale_diff : EventProcessStatus
  ignored_while_invalid sequence_gap crossed_book trade_audited : EventProcessStatus
  schema_rejected pre_audit_rejected : EventProcessStatus

pub data EventProcessError : Type 0 where
  none invalid_context sequence_overflow csv_format_error : EventProcessError

pub record EventContext : Type 0 where
  pub timestamp : CsvTimestamp
  pub venue : PayloadVenue
  pub stream_kind : SpotStreamKind
  pub shard_id : ℕ
  pub connection_epoch : ℕ
  pub connection_sequence : ℕ
  pub symbol : List ℕ

-- `none` where the flag of the row is false.
pub record EventRowBatch : Type 0 where
  pub audit_row : Option (List ℕ)
  pub order_book_row : Option (List ℕ)

abbrev pub clear : EventRowBatch
clear = record { audit_row = Option.none; order_book_row = Option.none }

-- `book_status` is `none` where `has_book_status` is false.
pub record EventProcessResult : Type 0 where
  pub status : EventProcessStatus
  pub error : EventProcessError
  pub parse_error : SpotParseError
  pub parse_field : SpotField
  pub csv_error : CsvFormatError
  pub book_status : Option BookApplyStatus
  pub trade_diagnostic_mismatch : Bool

abbrev pub initial_result : EventProcessResult
initial_result = record {
  status = not_processed;
  error = none;
  parse_error = SpotParseError.none;
  parse_field = SpotField.none;
  csv_error = CsvFormatError.none;
  book_status = Option.none;
  trade_diagnostic_mismatch = false;
}

abbrev pub success : EventProcessResult → Bool
success result = elim result.error [ none ↦ true | _ ↦ false ]

pub record SymbolState : Type 0 where
  pub symbol : List ℕ
  pub venue : PayloadVenue
  pub instrument_id : ℕ
  pub sequence_number : ℕ
  pub has_observed_connection : Bool
  pub current_connection_epoch : ℕ
  pub last_connection_sequence : ℕ
  pub spot_book : SpotBookState
  pub usdm_book : UsdmBookState

-- What a call leaves: the state, the batch, and what it returns.
pub record Processed : Type 0 where
  pub state : SymbolState
  pub output : EventRowBatch
  pub result : EventProcessResult

abbrev pub created : PayloadVenue → List ℕ → ℕ → SymbolState
created venue normalized_symbol instrument_id = record {
  symbol = normalized_symbol;
  venue = venue;
  instrument_id = instrument_id;
  sequence_number = 0;
  has_observed_connection = false;
  current_connection_epoch = 0;
  last_connection_sequence = 0;
  spot_book = Spot.initial;
  usdm_book = Usdm.initial;
}

abbrev pub create : PayloadVenue → List ℕ → Option SymbolState
create venue normalized_symbol =
    let id = derive_instrument_id normalized_symbol in
    if SymbolIdentity.is_none id.error
    then some (created venue normalized_symbol id.value)
    else Option.none

-- The book of the state's venue.
abbrev pub core : SymbolState → Core
core state = elim state.venue [ spot ↦ state.spot_book.book | usdm ↦ state.usdm_book.book ]

abbrev pub book_valid : SymbolState → Bool
book_valid state = (core state).valid

abbrev pub same_venue : PayloadVenue → PayloadVenue → Bool
same_venue spot spot = true
same_venue usdm usdm = true
same_venue _ _ = false

abbrev pub is_depth_diff : SpotStreamKind → Bool
is_depth_diff depth_diff = true
is_depth_diff _ = false

abbrev pub is_trade : SpotStreamKind → Bool
is_trade trade = true
is_trade _ = false

abbrev pub audit_eligible : SpotParseError → Bool
audit_eligible SpotParseError.invalid_input_buffer = false
audit_eligible SpotParseError.payload_too_large = false
audit_eligible SpotParseError.json_nesting_too_deep = false
audit_eligible SpotParseError.malformed_json = false
audit_eligible SpotParseError.root_not_object = false
audit_eligible SpotParseError.internal_capacity_error = false
audit_eligible _ = true

-- `SpotParseResult`'s conversion to `bool`.
abbrev pub parsed_well : SpotParseError → Bool
parsed_well SpotParseError.none = true
parsed_well _ = false

abbrev pub csv_ok : CsvFormatError → Bool
csv_ok CsvFormatError.none = true
csv_ok _ = false

abbrev pub event_status : BookApplyStatus → EventProcessStatus
event_status BookApplyStatus.applied_refresh = applied_refresh
event_status BookApplyStatus.applied_diff = applied_diff
event_status BookApplyStatus.stale_refresh = stale_refresh
event_status BookApplyStatus.stale_diff = stale_diff
event_status BookApplyStatus.ignored_while_invalid = ignored_while_invalid
event_status BookApplyStatus.sequence_gap = sequence_gap
event_status BookApplyStatus.crossed_book = crossed_book

unfoldable pub context_is_valid : SymbolState → EventContext → Bool
context_is_valid state context =
    if not (same_venue context.venue state.venue)
      || not (bytes_equal context.symbol state.symbol)
      || not (context.shard_id == 0)
      || not (valid_timestamp context.timestamp)
      || context.connection_sequence == 0
    then false
    else if not state.has_observed_connection
    then true
    else if ltb context.connection_epoch state.current_connection_epoch
    then false
    else not (context.connection_epoch == state.current_connection_epoch)
      || ltb state.last_connection_sequence context.connection_sequence

abbrev pub invalidate : SymbolState → SymbolState
invalidate state = elim state.venue [
  | spot ↦ record state { spot_book = Spot.invalidate state.spot_book }
  | usdm ↦ record state { usdm_book = Usdm.invalidate state.usdm_book }
]

abbrev pub commit_context : EventContext → SymbolState → SymbolState
commit_context context state = record state {
  has_observed_connection = true;
  current_connection_epoch = context.connection_epoch;
  last_connection_sequence = context.connection_sequence;
}

abbrev pub max_u64 : ℕ
max_u64 = 2 ^ 64 - 1

abbrev pub checked_next_sequence : ℕ → Option ℕ
checked_next_sequence current = if current == max_u64 then Option.none else some (current + 1)

abbrev pub epoch_changed : SymbolState → EventContext → Bool
epoch_changed state context =
    state.has_observed_connection && ltb state.current_connection_epoch context.connection_epoch

abbrev pub market_data_row : EventContext → PaddedJsonView → MarketDataCsvRow
market_data_row context payload = record {
  timestamp = context.timestamp;
  venue = context.venue;
  stream_kind = context.stream_kind;
  shard_id = context.shard_id;
  connection_epoch = context.connection_epoch;
  connection_sequence = context.connection_sequence;
  symbol = context.symbol;
  payload_json = payload.bytes;
}

-- The candidate of a Spot book, on which a change of the epoch and the event are applied.
abbrev pub spot_applied :
    SpotBookState → Bool → SpotStreamKind → SpotDepthEvent → SpotBookState × BookApplyResult
spot_applied book changed kind event =
    let candidate = if changed then Spot.invalidate book else book in
    elim kind [ depth5 ↦ Spot.apply_refresh candidate event | _ ↦ Spot.apply_diff candidate event ]

abbrev pub usdm_applied :
    UsdmBookState → Bool → SpotStreamKind → SpotDepthEvent → UsdmBookState × BookApplyResult
usdm_applied book changed kind event =
    let candidate = if changed then Usdm.invalidate book else book in
    elim kind [ depth5 ↦ Usdm.apply_refresh candidate event | _ ↦ Usdm.apply_diff candidate event ]

-- The state with the candidate of the event's venue in place of its book.
unfoldable pub candidate_for :
    PayloadVenue
    → SymbolState
    → Bool
    → SpotStreamKind
    → SpotDepthEvent
    → SymbolState × BookApplyResult
candidate_for spot state changed kind event =
    let (book, result) = spot_applied state.spot_book changed kind event in
    (record state { spot_book = book }, result)
candidate_for usdm state changed kind event =
    let (book, result) = usdm_applied state.usdm_book changed kind event in
    (record state { usdm_book = book }, result)

unfoldable pub with_candidate :
    SymbolState → EventContext → SpotDepthEvent → SymbolState × BookApplyResult
with_candidate state context event =
    candidate_for context.venue state (epoch_changed state context) context.stream_kind event

-- `candidate_bids` and `candidate_asks` on the state with its candidate.
abbrev pub candidate_core : PayloadVenue → SymbolState → Core
candidate_core spot state = state.spot_book.book
candidate_core usdm state = state.usdm_book.book

abbrev pub order_book_row : EventContext → SymbolState → ℕ → BookApplyResult → OrderBookCsvRow
order_book_row context candidate next_sequence book_result = record {
  timestamp = context.timestamp;
  sequence_number = next_sequence;
  instrument_id = candidate.instrument_id;
  row_type = if is_depth_diff context.stream_kind then differential else partial_refresh;
  side = book_result.side;
  bids = contents (candidate_core context.venue candidate).bids;
  asks = contents (candidate_core context.venue candidate).asks;
}

-- A call that stops with an error has a cleared batch and the old state.
abbrev failed : SymbolState → EventProcessError → CsvFormatError → EventProcessResult → Processed
failed state error csv_error result = record {
  state = state;
  output = clear;
  result = record result { error = error; csv_error = csv_error; status = not_processed };
}

-- A payload that is not applied still ends a chain of diffs, and an epoch.
abbrev rejected :
    SymbolState → EventContext → EventRowBatch → EventProcessStatus → EventProcessResult → Processed
rejected state context output status result = record {
  state = commit_context context (
      if epoch_changed state context || is_depth_diff context.stream_kind
      then invalidate state
      else state);
  output = output;
  result = record result { status = status };
}

-- `process` behind the parser: the audit row, the trades, the books.
module _ (audit_memory book_memory : ℕ → Bool) where
  -- The row of a book that an event changed, under the next number if there is one, and the commit.
  unfoldable pub publish :
      Option ℕ
      → SymbolState
      → EventContext
      → SymbolState
      → BookApplyResult
      → EventRowBatch
      → EventProcessResult
      → Processed
  publish Option.none state context candidate book_result output result =
      failed state sequence_overflow CsvFormatError.none result
  publish (some next_sequence) state context candidate book_result output result =
      let (book_error, bytes) =
        format_order_book_csv_row book_memory
          (order_book_row context candidate next_sequence book_result) in
      if not (csv_ok book_error) then failed state csv_format_error book_error result else record {
        state = record (commit_context context candidate) { sequence_number = next_sequence };
        output = record output { order_book_row = some bytes };
        result = result;
      }

  unfoldable pub process_depth :
      SymbolState → EventContext → SpotDepthEvent → EventRowBatch → EventProcessResult → Processed
  process_depth state context event output result =
      let (candidate, book_result) = with_candidate state context event in
      let applied = record result {
        book_status = some book_result.status;
        status = event_status book_result.status;
      } in
      if emits_snapshot book_result
      then publish (checked_next_sequence state.sequence_number) state context candidate book_result
          output applied
      else record { state = commit_context context candidate; output = output; result = applied }

  -- A payload without a fault, by the kind of its stream.
  unfoldable pub process_parsed :
      SpotStreamKind
      → SymbolState
      → EventContext
      → SpotParseResult
      → EventRowBatch
      → EventProcessResult
      → Processed
  process_parsed trade state context parsed output result = record {
    state =
        commit_context context (if epoch_changed state context then invalidate state else state);
    output = output;
    result = record result {
      trade_diagnostic_mismatch =
          not parsed.event.trade.event_type_matches || not parsed.event.trade.symbol_matches;
      status = trade_audited;
    };
  }
  process_parsed _ state context parsed output result =
      process_depth state context parsed.event.depth output result

  unfoldable pub process_audited :
      SymbolState → EventContext → SpotParseResult → EventRowBatch → EventProcessResult → Processed
  process_audited state context parsed output result =
      if not (parsed_well parsed.error)
      then rejected state context output schema_rejected result
      else process_parsed context.stream_kind state context parsed output result

  unfoldable pub process_eligible :
      SymbolState
      → EventContext
      → PaddedJsonView
      → EventOutputMode
      → SpotParseResult
      → EventProcessResult
      → Processed
  process_eligible state context payload output_mode parsed result = elim output_mode [
    | replay ↦ process_audited state context parsed clear result
    | live_capture ↦
        let (audit_error, bytes) =
          format_market_data_csv_row audit_memory (market_data_row context payload) in
        if not (csv_ok audit_error)
        then failed state csv_format_error audit_error result
        else process_audited state context parsed (record clear { audit_row = some bytes }) result
  ]

module _ (parse : PayloadVenue → SpotStreamKind → List ℕ → PaddedJsonView → SpotParseResult)
    (audit_memory book_memory : ℕ → Bool) where
  unfoldable pub process : SymbolState → EventContext → PaddedJsonView → EventOutputMode → Processed
  process state context payload output_mode =
      let parsed = parse context.venue context.stream_kind state.symbol payload in
      let result = record initial_result {
        parse_error = parsed.error;
        parse_field = parsed.field;
      } in
      if not (context_is_valid state context)
      then failed state invalid_context CsvFormatError.none initial_result
      else if not (audit_eligible parsed.error)
      then rejected state context clear pre_audit_rejected result
      else process_eligible audit_memory book_memory state context payload output_mode parsed result
