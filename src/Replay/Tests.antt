-- ===== src/Replay/Tests.antt =====
-- A recorded file of three rows, and the theorems at an input.
use mathlib.Core.Option
use ir_assignment.Prelude.{ℕ, ◌≡◌, refl, false, true, arith, List, [], ◌∷◌, ◌++◌, length}
use ir_assignment.SymbolIdentity.{bytes_equal, is_normalized_symbol}
use ir_assignment.Csv.Numbers.{pos, read_nat, read_int, print_int}
use ir_assignment.Event.Context.{IsInOrder}
use ir_assignment.Replay.{
  MarketDataReplayReader, good, framed, decode_payload, next, read_from, read_logical_record,
  decode_record, validate_file_sequence,
}
use ir_assignment.Payload.{spot, trade}
use ir_assignment.Csv.Format.{
  CsvFormatError, MarketDataCsvRow, written, append_bytes, append_byte, append_quoted_field,
  append_escaped, append_pieces, format_market_data_csv_row,
}
use ir_assignment.Replay.Rows.{record_of, decode_record-format_market_data_csv_row}
use ir_assignment.Replay.Ranges.{IsInRanges, decode_record-IsInRanges}
use ir_assignment.Replay.Lines.{read_logical_record-format_market_data_csv_row}
use ir_assignment.Replay.Quoting.{decode_payload-append_escaped}
use ir_assignment.Replay.Framing.{Takes, read_logical_record-Takes}
use ir_assignment.Replay.Order.{contexts, IsOneFile, contexts_share_file}

-- A row of a trade with an empty payload, up to its epoch.
abbrev row_start : List ℕ
row_start =
    b'5' ∷ b',' ∷ b'4' ∷ b'2' ∷ b',' ∷ b's' ∷ b'p' ∷ b'o' ∷ b't' ∷ b',' ∷ b't' ∷ b'r' ∷ b'a' ∷ b'd'
    ∷ b'e' ∷ b',' ∷ b'0' ∷ b',' ∷ b'1' ∷ b',' ∷ []

abbrev row_end : List ℕ
row_end = b',' ∷ b'B' ∷ b'T' ∷ b'C' ∷ b',' ∷ b'"' ∷ b'{' ∷ b'}' ∷ b'"' ∷ b'\n' ∷ []

-- Epoch 1 with sequence 4, epoch 1 with sequence 7, and epoch 1 with sequence 7 again.
abbrev three_rows : List ℕ
three_rows =
    row_start
    ++ (b'4' ∷ row_end ++ (row_start ++ (b'7' ∷ row_end ++ (row_start ++ (b'7' ∷ row_end)))))

abbrev reader : MarketDataReplayReader
reader = record {
  input = three_rows;
  broken = Option.none;
  logical_record_number = 1;
  first_error = Option.none;
  ended = false;
  file = Option.none;
  current = Option.none;
}

-- The third row repeats a sequence, and ends the replay.
two_contexts : length (contexts 4 reader) ≡ 2
unfolding next read_logical_record decode_record validate_file_sequence read_int read_nat
    bytes_equal is_normalized_symbol read_from
two_contexts = refl

contexts_share_file_example : IsOneFile (contexts 4 reader) × IsInOrder (contexts 4 reader)
contexts_share_file_example = contexts_share_file 4 reader refl

read_logical_record-Takes_example : Takes three_rows (read_logical_record Option.none three_rows)
read_logical_record-Takes_example = read_logical_record-Takes Option.none three_rows

-- A payload of one quote between braces.
quote_is_written :
    append_escaped (λ size. true) [] (b'{' ∷ b'"' ∷ b'}' ∷ [])
    ≡ written (b'{' ∷ b'"' ∷ b'"' ∷ b'}' ∷ [])
unfolding append_escaped
quote_is_written = refl

decode_payload-append_escaped_example :
    decode_payload 0 (b'{' ∷ b'"' ∷ b'"' ∷ b'}' ∷ []) ≡ good (b'{' ∷ b'"' ∷ b'}' ∷ [])
decode_payload-append_escaped_example =
    decode_payload-append_escaped (λ size. true) (b'{' ∷ b'"' ∷ b'}' ∷ [])
      (b'{' ∷ b'"' ∷ b'"' ∷ b'}' ∷ []) (omega arith) quote_is_written

-- A row with a payload of a comma, a quote and a line end.
abbrev hard_row : MarketDataCsvRow
hard_row = record {
  timestamp = record { seconds = pos 1234; nanoseconds = pos 42 };
  venue = spot;
  stream_kind = trade;
  shard_id = 0;
  connection_epoch = 18446744073709551615;
  connection_sequence = 7;
  symbol = b'B' ∷ b'T' ∷ [];
  payload_json = b',' ∷ b'"' ∷ b'\n' ∷ [];
}

-- Its epoch, 18446744073709551615.
abbrev last_epoch : List ℕ
last_epoch =
    b'1' ∷ b'8' ∷ b'4' ∷ b'4' ∷ b'6' ∷ b'7' ∷ b'4' ∷ b'4' ∷ b'0' ∷ b'7' ∷ b'3' ∷ b'7' ∷ b'0' ∷ b'9'
    ∷ b'5' ∷ b'5' ∷ b'1' ∷ b'6' ∷ b'1' ∷ b'5' ∷ []

abbrev hard_text : List ℕ
hard_text =
    b'1' ∷ b'2' ∷ b'3' ∷ b'4' ∷ b',' ∷ b'4' ∷ b'2' ∷ b',' ∷ b's' ∷ b'p' ∷ b'o' ∷ b't' ∷ b',' ∷ b't'
      ∷ b'r' ∷ b'a' ∷ b'd' ∷ b'e' ∷ b',' ∷ b'0' ∷ b',' ∷ last_epoch
    ++ (b',' ∷ b'7' ∷ b',' ∷ b'B' ∷ b'T' ∷ b',' ∷ b'"' ∷ b',' ∷ b'"' ∷ b'"' ∷ b'\n' ∷ b'"' ∷ b'\n'
        ∷ [])

hard_row_is_written :
    format_market_data_csv_row (λ size. true) hard_row ≡ (CsvFormatError.none, hard_text)
unfolding format_market_data_csv_row append_pieces print_int is_normalized_symbol append_bytes
    append_byte append_quoted_field
hard_row_is_written = refl

decode_record-format_market_data_csv_row_example :
    decode_record hard_text ≡ good (record_of hard_row)
decode_record-format_market_data_csv_row_example =
    decode_record-format_market_data_csv_row (λ size. true) hard_row hard_text (omega arith) refl
      (omega arith) (omega arith) (omega arith) hard_row_is_written

read_logical_record-format_market_data_csv_row_example :
    read_logical_record Option.none (hard_text ++ three_rows) ≡ framed hard_text three_rows
read_logical_record-format_market_data_csv_row_example =
    read_logical_record-format_market_data_csv_row (λ size. true) hard_row hard_text Option.none
      three_rows hard_row_is_written

hard_row_is_read : decode_record hard_text ≡ good (record_of hard_row)
unfolding decode_record read_int read_nat bytes_equal is_normalized_symbol
hard_row_is_read = refl

decode_record-IsInRanges_example : IsInRanges (record_of hard_row)
decode_record-IsInRanges_example =
    decode_record-IsInRanges hard_text (record_of hard_row) hard_row_is_read
