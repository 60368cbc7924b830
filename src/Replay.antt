-- ===== src/Replay.antt =====
-- src/market_data_replay.cpp: the reader of a recorded file. The file is the list of its bytes with
-- what comes behind them, the end or a failing `read`; how they reach the read buffer is not modelled.
-- A decoded record is kept only when the whole record was decoded; the bytes that a refused payload
-- leaves in the buffer are not modelled, nor the number of an error behind 2^64 records.
pub mod Order
pub mod Framing
pub mod Quoting
pub mod Rows
pub mod Lines
pub mod Ranges
mod Tests
use mathlib.Core.Option.{Option, some}
use mathlib.Core.Option
use ir_assignment.Prelude.{
  ℕ, zero, suc, ◌+◌, ◌-◌, ◌*◌, ◌^◌, Bool, true, false, not, ◌&&◌, ◌||◌, List, [], ◌∷◌, ◌++◌, ltb,
  leb, ◌==◌, if◌then◌else◌, length,
}
use ir_assignment.Payload.{
  max_payload_bytes, PayloadVenue, spot, usdm, SpotStreamKind, depth_diff, depth5, trade,
}
use ir_assignment.SymbolIdentity.{bytes_equal, is_normalized_symbol}
use ir_assignment.Csv.Numbers.{ℤ, pos, read_nat, read_int}
use ir_assignment.Csv.Format.{
  CsvTimestamp, max_csv_record_bytes, valid_timestamp, venue_text, stream_kind_text,
}
use ir_assignment.Event.{EventContext, same_venue}

pub data ReplayColumn : Type 0 where
  none header recv_tsec recv_tnsec venue stream_kind shard_id conn_epoch conn_seq : ReplayColumn
  symbol payload_json : ReplayColumn

pub data ReplayReadErrorCode : Type 0 where
  none invalid_path open_failed allocation_failure read_failed invalid_header : ReplayReadErrorCode
  record_too_large truncated_record invalid_csv wrong_column_count : ReplayReadErrorCode
  invalid_integer invalid_range invalid_enum invalid_symbol payload_too_large : ReplayReadErrorCode
  changing_symbol changing_venue decreasing_epoch : ReplayReadErrorCode
  non_increasing_connection_sequence : ReplayReadErrorCode

pub record ReplayReadError : Type 0 where
  pub code : ReplayReadErrorCode
  pub column : ReplayColumn
  pub logical_record_number : ℕ
  pub native_error : ℕ

pub data ReplayReadStatus : Type 0 where
  a_record end_of_file error : ReplayReadStatus

-- `none` where the error is empty.
pub record ReplayReadResult : Type 0 where
  pub status : ReplayReadStatus
  pub failure : Option ReplayReadError

pub record ReplayRecord : Type 0 where
  pub context : EventContext
  pub payload : List ℕ

-- What the source finds wrong: a code and a column.
pub data Checked {ℓ} (A : Type ℓ) : Type ℓ where
  good : A → Checked A
  bad : ReplayReadErrorCode → ReplayColumn → Checked A

infixl 5 ◌>>=◌
abbrev pub ◌>>=◌ {ℓ κ} : {A : Type ℓ} {B : Type κ} → Checked A → (A → Checked B) → Checked B
good x >>= f = f x
bad code column >>= f = bad code column

abbrev pub or_bad {ℓ} : {A : Type ℓ} → Option A → ReplayReadErrorCode → ReplayColumn → Checked A
or_bad Option.none code column = bad code column
or_bad (some x) code column = good x

abbrev pub require : Bool → ReplayReadErrorCode → ReplayColumn → Checked (Unit {0})
require b code column = if b then good tt else bad code column

-- The states of a record that is being framed, and what a byte does.
pub data CsvFrameState : Type 0 where
  field_start unquoted quoted quote_closed : CsvFrameState

pub data Frame : Type 0 where
  goes_on : CsvFrameState → Frame
  complete malformed : Frame

unfoldable pub frame : CsvFrameState → ℕ → Frame
frame field_start c =
    if c == b'"'
    then goes_on quoted
    else if c == b','
    then goes_on field_start
    else if c == b'\n'
    then complete
    else goes_on unquoted
frame unquoted c =
    if c == b'"'
    then malformed
    else if c == b','
    then goes_on field_start
    else if c == b'\n'
    then complete
    else goes_on unquoted
frame quoted c = if c == b'"' then goes_on quote_closed else goes_on quoted
frame quote_closed c =
    if c == b'"'
    then goes_on quoted
    else if c == b','
    then goes_on field_start
    else if c == b'\n'
    then complete
    else malformed

-- A logical record with the input behind it, the end of the file, or an error with its `errno`.
pub data LogicalRead : Type 0 where
  framed : List ℕ → List ℕ → LogicalRead
  at_end : LogicalRead
  failed : ReplayReadErrorCode → ℕ → LogicalRead

-- The loop of `read_logical_record`, with the bytes of the record so far. `broken` is the `errno` of
-- a `read` behind the last byte.
unfoldable pub read_from : Option ℕ → CsvFrameState → List ℕ → List ℕ → LogicalRead
unfolding frame
read_from broken state bytes [] = elim broken [
  | some native_error ↦ failed read_failed native_error
  | Option.none ↦ if length bytes == 0 then at_end else failed truncated_record 0
]
read_from broken state bytes (c ∷ input) = elim (length bytes == max_csv_record_bytes) [
  | true ↦ failed record_too_large 0
  | false ↦ elim (frame state c) [
    | goes_on next ↦ read_from broken next (bytes ++ (c ∷ [])) input
    | complete ↦ framed (bytes ++ (c ∷ [])) input
    | malformed ↦ failed invalid_csv 0
  ]
]

unfoldable pub read_logical_record : Option ℕ → List ℕ → LogicalRead
read_logical_record broken input = read_from broken field_start [] input

abbrev pub forbidden_unquoted_byte : ℕ → Bool
forbidden_unquoted_byte c = c == b'"' || c == b'\r' || c == b'\n'

abbrev pub kept_byte : ℕ → Checked (List ℕ × List ℕ) → Checked (List ℕ × List ℕ)
kept_byte c (good (field, rest)) = good (c ∷ field, rest)
kept_byte c (bad code column) = bad code column

-- An unquoted field, up to the comma behind it.
unfoldable pub take_field : ReplayColumn → List ℕ → Checked (List ℕ × List ℕ)
take_field column [] = bad wrong_column_count column
take_field column (c ∷ row) =
    let rest = take_field column row in
    if c == b','
    then good ([], row)
    else if forbidden_unquoted_byte c
    then bad invalid_csv column
    else kept_byte c rest

abbrev pub escaped : ℕ → Checked (List ℕ) → Checked (List ℕ)
escaped c (good s) = good (c ∷ s)
escaped c (bad code column) = bad code column

-- The loop on the payload between its quotes, with the number of bytes decoded so far.
unfoldable pub decode_payload : ℕ → List ℕ → Checked (List ℕ)
decode_payload decoded_size [] = good []
decode_payload decoded_size (c ∷ []) =
    if c == b'"'
    then bad invalid_csv payload_json
    else if decoded_size == max_payload_bytes
    then bad payload_too_large payload_json
    else good (c ∷ [])
decode_payload decoded_size (c ∷ d ∷ encoded) =
    let plain = decode_payload (suc decoded_size) (d ∷ encoded) in
    let pair = decode_payload (suc decoded_size) encoded in
    if c == b'"'
    then if not (d == b'"')
      then bad invalid_csv payload_json
      else if decoded_size == max_payload_bytes
      then bad payload_too_large payload_json
      else escaped c pair
    else if decoded_size == max_payload_bytes
    then bad payload_too_large payload_json
    else escaped c plain

-- `none` for an empty text, else the text without its last byte, and that byte.
unfoldable pub split_last : List ℕ → Option (List ℕ × ℕ)
split_last [] = Option.none
split_last (c ∷ s) = elim (split_last s) [
  | Option.none ↦ some ([], c)
  | some (t, d) ↦ some (c ∷ t, d)
]

-- The text in front of a last byte `c`.
abbrev pub without_last : ℕ → Option (List ℕ × ℕ) → Option (List ℕ)
without_last c Option.none = Option.none
without_last c (some (s, d)) = if d == c then some s else Option.none

-- The bytes between two quotes.
unfoldable pub between_quotes : List ℕ → Option (List ℕ)
unfolding split_last
between_quotes [] = Option.none
between_quotes (c ∷ s) = if c == b'"' then without_last b'"' (split_last s) else Option.none

abbrev pub parse_venue : List ℕ → Option PayloadVenue
parse_venue field =
    if bytes_equal field (venue_text spot)
    then some spot
    else if bytes_equal field (venue_text usdm)
    then some usdm
    else Option.none

abbrev pub parse_stream_kind : List ℕ → Option SpotStreamKind
parse_stream_kind field =
    if bytes_equal field (stream_kind_text depth_diff)
    then some depth_diff
    else if bytes_equal field (stream_kind_text depth5)
    then some depth5
    else if bytes_equal field (stream_kind_text trade)
    then some trade
    else Option.none

unfoldable pub decode_record : List ℕ → Checked ReplayRecord
unfolding take_field between_quotes split_last decode_payload
decode_record logical_record = do
  row ← or_bad (without_last b'\n' (split_last logical_record)) truncated_record none
  f0 ← take_field recv_tsec row
  f1 ← take_field recv_tnsec f0.1
  f2 ← take_field venue f1.1
  f3 ← take_field stream_kind f2.1
  f4 ← take_field shard_id f3.1
  f5 ← take_field conn_epoch f4.1
  f6 ← take_field conn_seq f5.1
  f7 ← take_field symbol f6.1
  encoded ← or_bad (between_quotes f7.1) invalid_csv payload_json
  seconds ← or_bad (read_int (2 ^ 63) f0.0) invalid_integer recv_tsec
  nanoseconds ← or_bad (read_int (2 ^ 31) f1.0) invalid_integer recv_tnsec
  let timestamp : CsvTimestamp = record { seconds = seconds; nanoseconds = nanoseconds }
  _ ← require (valid_timestamp timestamp) invalid_range recv_tnsec
  v ← or_bad (parse_venue f2.0) invalid_enum venue
  k ← or_bad (parse_stream_kind f3.0) invalid_enum stream_kind
  shard ← or_bad (read_nat (2 ^ 32 - 1) f4.0) invalid_integer shard_id
  _ ← require (shard == 0) invalid_range shard_id
  epoch ← or_bad (read_nat (2 ^ 64 - 1) f5.0) invalid_integer conn_epoch
  sequence ← or_bad (read_nat (2 ^ 64 - 1) f6.0) invalid_integer conn_seq
  _ ← require (not (sequence == 0)) invalid_range conn_seq
  _ ← require (is_normalized_symbol f7.0) invalid_symbol symbol
  payload ← decode_payload 0 encoded
  good (record {
    context = record {
      timestamp = timestamp;
      venue = v;
      stream_kind = k;
      shard_id = shard;
      connection_epoch = epoch;
      connection_sequence = sequence;
      symbol = f7.0;
    };
    payload = payload;
  })

-- The file's venue, symbol and last position; `none` before the first record.
pub record FileIdentity : Type 0 where
  pub file_venue : PayloadVenue
  pub file_symbol : List ℕ
  pub last_connection_epoch : ℕ
  pub last_connection_sequence : ℕ

abbrev pub identity_of : EventContext → FileIdentity
identity_of context = record {
  file_venue = context.venue;
  file_symbol = context.symbol;
  last_connection_epoch = context.connection_epoch;
  last_connection_sequence = context.connection_sequence;
}

unfoldable pub validate_file_sequence : Option FileIdentity → EventContext → Checked FileIdentity
validate_file_sequence Option.none context = good (identity_of context)
validate_file_sequence (some file) context =
    if not (same_venue context.venue file.file_venue)
    then bad changing_venue venue
    else if not (bytes_equal context.symbol file.file_symbol)
    then bad changing_symbol symbol
    else if ltb context.connection_epoch file.last_connection_epoch
    then bad decreasing_epoch conn_epoch
    else if context.connection_epoch == file.last_connection_epoch
        && leb context.connection_sequence file.last_connection_sequence
    then bad non_increasing_connection_sequence conn_seq
    else good (record file {
      last_connection_epoch = context.connection_epoch;
      last_connection_sequence = context.connection_sequence;
    })

pub record MarketDataReplayReader : Type 0 where
  pub input : List ℕ
  pub broken : Option ℕ
  pub logical_record_number : ℕ
  pub first_error : Option ReplayReadError
  pub ended : Bool
  pub file : Option FileIdentity
  pub current : Option ReplayRecord

abbrev pub make_error :
    MarketDataReplayReader → ReplayReadErrorCode → ReplayColumn → ℕ → ReplayReadError
make_error reader code column native_error = record {
  code = code;
  column = column;
  logical_record_number = reader.logical_record_number + 1;
  native_error = native_error;
}

-- The first error stays.
abbrev pub latch :
    MarketDataReplayReader → ReplayReadError → MarketDataReplayReader × ReplayReadResult
latch reader e =
    (record reader { first_error = some e }, record { status = error; failure = some e })

-- A decoded record, put behind those before it.
abbrev pub accept_in_order :
    MarketDataReplayReader
    → ReplayRecord
    → Checked FileIdentity
    → MarketDataReplayReader × ReplayReadResult
accept_in_order reader decoded (bad code column) =
    latch (record reader { current = some decoded }) (make_error reader code column 0)
accept_in_order reader decoded (good file) = (
  record reader {
    current = some decoded;
    file = some file;
    logical_record_number = reader.logical_record_number + 1;
  },
  record { status = a_record; failure = Option.none },
)

abbrev pub accept :
    MarketDataReplayReader → Checked ReplayRecord → MarketDataReplayReader × ReplayReadResult
accept reader (bad code column) = latch reader (make_error reader code column 0)
accept reader (good decoded) =
    accept_in_order reader decoded (validate_file_sequence reader.file decoded.context)

abbrev pub next_of :
    MarketDataReplayReader → LogicalRead → MarketDataReplayReader × ReplayReadResult
next_of reader at_end = (
  record reader { input = []; ended = true },
  record { status = end_of_file; failure = Option.none },
)
next_of reader (failed code native_error) = latch reader (make_error reader code none native_error)
next_of reader (framed logical_record input) =
    accept (record reader { input = input }) (decode_record logical_record)

abbrev pub next_after :
    Option ReplayReadError → MarketDataReplayReader → MarketDataReplayReader × ReplayReadResult
next_after (some e) reader = (reader, record { status = error; failure = some e })
next_after Option.none reader =
    if reader.ended
    then (reader, record { status = end_of_file; failure = Option.none })
    else next_of reader (read_logical_record reader.broken reader.input)

unfoldable pub next : MarketDataReplayReader → MarketDataReplayReader × ReplayReadResult
next reader = next_after reader.first_error reader
