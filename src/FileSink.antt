-- ===== src/FileSink.antt =====
-- src/buffered_file_sink.cpp: a file of rows that are written through a buffer of 256 KiB.
-- The kernel's answers are arguments: to the calls of `write`, one after the other, and to the other
-- calls. Beside the fields of the source a sink has the contents of its file and the number of writes
-- that were made, which tells the answers apart. The metrics wrap at 2^64.
pub mod Operations
pub mod Writes
pub mod Contents
pub mod Session
mod Tests
use mathlib.Core.Option.{Option, some}
use mathlib.Core.Option
use ir_assignment.Prelude.{
  ℕ, zero, suc, ◌+◌, ◌-◌, ◌*◌, ◌%◌, ◌^◌, Bool, true, false, not, ◌||◌, List, [], ◌∷◌, ◌++◌, ltb,
  ◌==◌, if◌then◌else◌, length, take, drop,
}
use ir_assignment.Csv.Headers.{market_data_csv_header, order_book_csv_header}
use ir_assignment.Csv.Format.{max_csv_record_bytes}

unfoldable pub csv_aggregation_buffer_bytes : ℕ
csv_aggregation_buffer_bytes = 256 * 1024

pub data CsvFileKind : Type 0 where
  market_data order_book : CsvFileKind

pub data FileSinkErrorCode : Type 0 where
  none invalid_path invalid_file_kind invalid_record : FileSinkErrorCode
  allocation_failure open_failed write_failed close_failed : FileSinkErrorCode

pub data FileSinkCleanupOperation : Type 0 where
  none close remove : FileSinkCleanupOperation

-- The numbers of `errno` that the source names, zero, and any other.
pub data NativeError : Type 0 where
  no_native_error eio ebadf enoent : NativeError
  native_error : ℕ → NativeError

pub record FileSinkError : Type 0 where
  pub code : FileSinkErrorCode
  pub native : NativeError
  pub cleanup_operation : FileSinkCleanupOperation
  pub cleanup_native_error : NativeError

abbrev pub error_with : FileSinkErrorCode → NativeError → FileSinkError
error_with code native = record {
  code = code;
  native = native;
  cleanup_operation = FileSinkCleanupOperation.none;
  cleanup_native_error = no_native_error;
}

abbrev pub no_error : FileSinkError
no_error = error_with FileSinkErrorCode.none no_native_error

-- `FileSinkError::operator bool`
abbrev pub is_error : FileSinkError → Bool
is_error e = elim e.code [ FileSinkErrorCode.none ↦ false | _ ↦ true ]

-- What the kernel answers until a call of `write` is not interrupted: how many bytes it took, or why it
-- took none.
pub data WriteAnswer : Type 0 where
  interrupted : WriteAnswer → WriteAnswer
  accepts : ℕ → WriteAnswer
  refuses : NativeError → WriteAnswer

pub record BufferedFileSinkMetrics : Type 0 where
  pub native_write_calls : ℕ
  pub bytes_written : ℕ
  pub rows_written : ℕ
  pub buffer_flushes : ℕ
  pub direct_large_records : ℕ

pub record BufferedCsvFileSink : Type 0 where
  pub path : List ℕ
  pub is_open : Bool
  pub buffer : List ℕ
  pub buffered_rows : ℕ
  pub first_error : FileSinkError
  pub metrics : BufferedFileSinkMetrics
  pub contents : List ℕ
  pub writes : ℕ

abbrev Sink : Type 0
Sink = BufferedCsvFileSink

abbrev pub has_failed : BufferedCsvFileSink → Bool
has_failed s = is_error s.first_error

abbrev pub add_64 : ℕ → ℕ → ℕ
add_64 x n = (x + n) % 2 ^ 64

abbrev pub latch_error :
    BufferedCsvFileSink → FileSinkErrorCode → NativeError → BufferedCsvFileSink × FileSinkError
latch_error s code native =
    if has_failed s
    then (s, s.first_error)
    else (record s { first_error = error_with code native }, error_with code native)

-- The loop of `write_all` goes on with the bytes that are left, or returns an error.
pub data Written : Type 0 where
  goes_on : BufferedCsvFileSink → List ℕ → Written
  stops : BufferedCsvFileSink × FileSinkError → Written

abbrev pub called : BufferedCsvFileSink → BufferedCsvFileSink
called s = record s {
  metrics = record s.metrics { native_write_calls = add_64 s.metrics.native_write_calls 1 };
}

-- The bytes that the kernel took are in the file.
abbrev pub taken : BufferedCsvFileSink → List ℕ → ℕ → BufferedCsvFileSink
taken s bytes n = record s {
  contents = s.contents ++ take n bytes;
  metrics = record s.metrics { bytes_written = add_64 s.metrics.bytes_written n };
}

-- The body of the loop, at one offset.
unfoldable pub write_some : BufferedCsvFileSink → List ℕ → WriteAnswer → Written
write_some s bytes (interrupted answer) = write_some (called s) bytes answer
write_some s bytes (refuses native) =
    stops (latch_error (called s) FileSinkErrorCode.write_failed native)
write_some s bytes (accepts n) =
    if n == 0 || ltb (length bytes) n
    then stops (latch_error (called s) FileSinkErrorCode.write_failed eio)
    else goes_on (taken (called s) bytes n) (drop n bytes)

abbrev pub ends_in_newline : List ℕ → Bool
ends_in_newline [] = false
ends_in_newline (c ∷ []) = c == b'\n'
ends_in_newline (c ∷ d ∷ row) = ends_in_newline (d ∷ row)

abbrev pub is_empty : List ℕ → Bool
is_empty [] = true
is_empty (c ∷ bytes) = false

abbrev pub header_for : CsvFileKind → List ℕ
header_for market_data = market_data_csv_header
header_for order_book = order_book_csv_header
