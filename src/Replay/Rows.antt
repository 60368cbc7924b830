-- ===== src/Replay/Rows.antt =====
-- The rows of the audit file: `format_market_data_csv_row` in src/csv_formatter.cpp against
-- `decode_record` in src/market_data_replay.cpp.
pub mod Texts
use mathlib.Core.Option.{Option, some}
use mathlib.Core.Option
use ir_assignment.Prelude.{
  ℕ, ◌+◌, ◌-◌, ◌≤◌, ◌<◌, ◌^◌, ◌≡◌, refl, sym, ap, ◌∙◌, Bool, true, false, not, arith, List, [], ◌∷◌,
  ◌++◌, ◌==◌, length, All, ltb, if◌then◌else◌, Bool-cases, inl, inr,
}
use ir_assignment.Payload.{
  max_payload_bytes, PayloadVenue, spot, usdm, SpotStreamKind, depth_diff, depth5, trade,
}
use ir_assignment.SymbolIdentity.{bytes_equal, is_normalized_symbol}
use ir_assignment.FixedPoint.Scaling.{ten_to}
use ir_assignment.Csv.Numbers.{ℤ, pos, negsuc, print_int, read_nat, read_int}
use ir_assignment.Csv.Numbers.ReadBack.{InRange, read_nat-print_nat, read_int-print_int}
use ir_assignment.Csv.Format.{
  CsvFormatError, CsvTimestamp, MarketDataCsvRow, Append, written, refused, no_memory, Piece,
  append_pieces, market_data_pieces, finished, valid_timestamp, venue_text, stream_kind_text,
  format_market_data_csv_row,
}
use ir_assignment.Event.{EventContext}
use ir_assignment.Replay.{
  ReplayColumn, recv_tsec, recv_tnsec, conn_epoch, conn_seq, ReplayRecord, good, take_field,
  split_last, between_quotes, without_last, parse_venue, parse_stream_kind, decode_payload,
  decode_record,
}
use ir_assignment.Replay.Quoting.{escape, append_assoc, decode_payload-escape}
use ir_assignment.Replay.Rows.Texts.{
  IsPlain, pieces_text, pieces_written, take_field-plain, print_int-IsPlain, symbol-IsPlain,
  venue_text-IsPlain, stream_kind_text-IsPlain, split_last-append,
}

-- Fields with a comma behind each, in front of the last one.
abbrev joined : List (List ℕ) → List ℕ → List ℕ
joined [] tail = tail
joined (field ∷ fields) tail = field ++ (b',' ∷ joined fields tail)

joined-append :
    (fields : List (List ℕ)) (tail end : List ℕ)
    → joined fields (tail ++ end) ≡ joined fields tail ++ end
joined-append [] tail end = refl
joined-append (field ∷ fields) tail end =
    ap (λ t. field ++ (b',' ∷ t)) (joined-append fields tail end)
    ∙ sym (append_assoc field (b',' ∷ joined fields tail) end)

abbrev row_fields : MarketDataCsvRow → List (List ℕ)
row_fields row =
    print_int row.timestamp.seconds
    ∷ print_int row.timestamp.nanoseconds
    ∷ venue_text row.venue
    ∷ stream_kind_text row.stream_kind
    ∷ print_int (pos row.shard_id)
    ∷ print_int (pos row.connection_epoch)
    ∷ print_int (pos row.connection_sequence)
    ∷ row.symbol
    ∷ []

abbrev in_quotes : List ℕ → List ℕ
in_quotes s = b'"' ∷ s ++ (b'"' ∷ [])

abbrev pub row_text : MarketDataCsvRow → List ℕ
row_text row = joined (row_fields row) (in_quotes (escape row.payload_json))

pub row_pieces :
    (row : MarketDataCsvRow) → pieces_text (market_data_pieces row) ≡ row_text row ++ (b'\n' ∷ [])
row_pieces row = joined-append (row_fields row) (in_quotes (escape row.payload_json)) (b'\n' ∷ [])

finished_written :
    (a : Append) (text : List ℕ) → finished a ≡ (CsvFormatError.none, text) → a ≡ written text
finished_written (written s) text e = ap written (ap (λ r. r.1) e)
finished_written refused text e = cc
finished_written no_memory text e = cc

-- What a row that was formatted passed.
pub formatted :
    (memory : ℕ → Bool) (row : MarketDataCsvRow) (text : List ℕ)
    → format_market_data_csv_row memory row ≡ (CsvFormatError.none, text)
    → (valid_timestamp row.timestamp ≡ true)
      × ((row.connection_sequence == 0) ≡ false)
      × (is_normalized_symbol row.symbol ≡ true)
      × (append_pieces memory [] (market_data_pieces row) ≡ written text)
unfolding format_market_data_csv_row
formatted memory row text e =
    ground (arith, e, finished_written (append_pieces memory [] (market_data_pieces row)) text)

between_quotes-in_quotes : (s : List ℕ) → between_quotes (in_quotes s) ≡ some s
unfolding between_quotes
between_quotes-in_quotes s = rw (split_last-append s b'"') refl

parse_venue-venue_text : (venue : PayloadVenue) → parse_venue (venue_text venue) ≡ some venue
unfolding bytes_equal
parse_venue-venue_text spot = refl
parse_venue-venue_text usdm = refl

parse_stream_kind-stream_kind_text :
    (kind : SpotStreamKind) → parse_stream_kind (stream_kind_text kind) ≡ some kind
unfolding bytes_equal
parse_stream_kind-stream_kind_text depth_diff = refl
parse_stream_kind-stream_kind_text depth5 = refl
parse_stream_kind-stream_kind_text trade = refl

nanoseconds-InRange :
    (seconds nanoseconds : ℤ)
    → valid_timestamp (record { seconds = seconds; nanoseconds = nanoseconds }) ≡ true
    → InRange (2 ^ 31) nanoseconds
nanoseconds-InRange seconds (pos n) h = ground (arith, h)
nanoseconds-InRange seconds (negsuc n) h = cc

unsigned_read : (n : ℕ) → n < 2 ^ 64 → read_nat (2 ^ 64 - 1) (print_int (pos n)) ≡ some n
unfolding print_int
unsigned_read n h = read_nat-print_nat (2 ^ 64 - 1) n (omega arith) (omega arith)

shard_read : (n : ℕ) → n ≡ 0 → read_nat (2 ^ 32 - 1) (print_int (pos n)) ≡ some n
unfolding print_int
shard_read n h = read_nat-print_nat (2 ^ 32 - 1) n (omega arith) (omega arith)

-- A field of a row, with the rest of the row last.
field_taken_off :
    (column : ReplayColumn) (field : List ℕ)
    → All IsPlain field
    → (rest : List ℕ) → take_field column (field ++ (b',' ∷ rest)) ≡ good (field, rest)
field_taken_off column field h rest = take_field-plain column field rest h

-- The record of a row: its context and its payload.
abbrev pub record_of : MarketDataCsvRow → ReplayRecord
record_of row = record {
  context = record {
    timestamp = row.timestamp;
    venue = row.venue;
    stream_kind = row.stream_kind;
    shard_id = row.shard_id;
    connection_epoch = row.connection_epoch;
    connection_sequence = row.connection_sequence;
    symbol = row.symbol;
  };
  payload = row.payload_json;
}

module _ (row : MarketDataCsvRow) (stamp : valid_timestamp row.timestamp ≡ true)
    (numbered : (row.connection_sequence == 0) ≡ false)
    (normalized : is_normalized_symbol row.symbol ≡ true)
    (seconds : InRange (2 ^ 63) row.timestamp.seconds) (shard : row.shard_id ≡ 0)
    (epoch : row.connection_epoch < 2 ^ 64) (sequence : row.connection_sequence < 2 ^ 64)
    (fits : length row.payload_json ≤ max_payload_bytes) where
  decode_record-row_text : decode_record (row_text row ++ (b'\n' ∷ [])) ≡ good (record_of row)
  unfolding decode_record
  decode_record-row_text = rw (split_last-append (row_text row) b'\n') (
      rw
        (
          field_taken_off recv_tsec (print_int row.timestamp.seconds)
              (print_int-IsPlain row.timestamp.seconds),
          field_taken_off recv_tnsec (print_int row.timestamp.nanoseconds)
              (print_int-IsPlain row.timestamp.nanoseconds),
          field_taken_off ReplayColumn.venue (venue_text row.venue) (venue_text-IsPlain row.venue),
          field_taken_off ReplayColumn.stream_kind (stream_kind_text row.stream_kind)
              (stream_kind_text-IsPlain row.stream_kind),
          field_taken_off ReplayColumn.shard_id (print_int (pos row.shard_id))
              (print_int-IsPlain (pos row.shard_id)),
          field_taken_off conn_epoch (print_int (pos row.connection_epoch))
              (print_int-IsPlain (pos row.connection_epoch)),
          field_taken_off conn_seq (print_int (pos row.connection_sequence))
              (print_int-IsPlain (pos row.connection_sequence)),
          field_taken_off ReplayColumn.symbol row.symbol (symbol-IsPlain row.symbol normalized),
          between_quotes-in_quotes (escape row.payload_json),
        )
        (rw
          (
            read_int-print_int (2 ^ 63) row.timestamp.seconds seconds (omega arith),
            read_int-print_int (2 ^ 31) row.timestamp.nanoseconds
                (nanoseconds-InRange row.timestamp.seconds row.timestamp.nanoseconds stamp)
                (omega arith),
            stamp,
            parse_venue-venue_text row.venue,
            parse_stream_kind-stream_kind_text row.stream_kind,
            shard_read row.shard_id shard,
            shard,
            unsigned_read row.connection_epoch epoch,
            unsigned_read row.connection_sequence sequence,
            numbered,
            normalized,
            decode_payload-escape 0 row.payload_json (omega (arith, fits)),
          )
          refl))

-- A row that `format_market_data_csv_row` writes, whose integers fit the types of its fields, whose
-- shard is 0 and whose payload is at most 1 MiB, `decode_record` reads back as the row: the same
-- timestamp, venue, stream kind, shard, epoch, sequence and symbol, and the same payload.
pub decode_record-format_market_data_csv_row :
    (memory : ℕ → Bool) (row : MarketDataCsvRow) (text : List ℕ)
    → InRange (2 ^ 63) row.timestamp.seconds
    → row.shard_id ≡ 0
    → row.connection_epoch < 2 ^ 64
    → row.connection_sequence < 2 ^ 64
    → length row.payload_json ≤ max_payload_bytes
    → format_market_data_csv_row memory row ≡ (CsvFormatError.none, text)
    → decode_record text ≡ good (record_of row)
decode_record-format_market_data_csv_row memory row text seconds shard epoch sequence fits e =
    let (stamp, numbered, normalized, appended) = formatted memory row text e in
    rw (pieces_written memory [] (market_data_pieces row) text appended, row_pieces row)
      (decode_record-row_text row stamp numbered normalized seconds shard epoch sequence fits)
