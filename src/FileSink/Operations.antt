-- ===== src/FileSink/Operations.antt =====
-- src/buffered_file_sink.cpp: the operations of a sink.
use mathlib.Core.Option.{Option, some}
use ir_assignment.Prelude.{
  ℕ, zero, suc, ◌+◌, ◌-◌, Bool, true, false, not, ◌||◌, List, [], ◌∷◌, ◌++◌, ltb, if◌then◌else◌,
  length,
}
use ir_assignment.Csv.Format.{max_csv_record_bytes}
use ir_assignment.FileSink.{
  csv_aggregation_buffer_bytes, CsvFileKind, FileSinkErrorCode, FileSinkCleanupOperation,
  NativeError, no_native_error, ebadf, enoent, FileSinkError, error_with, no_error, is_error,
  WriteAnswer, BufferedCsvFileSink, has_failed, add_64, latch_error, goes_on, stops, write_some,
  ends_in_newline, is_empty, header_for,
}

-- A sink on a file that was just made.
abbrev pub new_sink : List ℕ → BufferedCsvFileSink
new_sink path = record {
  path = path;
  is_open = true;
  buffer = [];
  buffered_rows = 0;
  first_error = no_error;
  metrics = record {
    native_write_calls = 0;
    bytes_written = 0;
    rows_written = 0;
    buffer_flushes = 0;
    direct_large_records = 0;
  };
  contents = [];
  writes = 0;
}

abbrev after_remove : FileSinkError → Option NativeError → FileSinkError
after_remove e Option.none = e
after_remove e (some enoent) = e
after_remove e (some native) = record e {
  cleanup_operation = FileSinkCleanupOperation.remove;
  cleanup_native_error = native;
}

-- What is noted of closing and removing the file of a sink that could not be opened.
abbrev pub with_cleanup : FileSinkError → (closed removed : Option NativeError) → FileSinkError
with_cleanup e Option.none removed = after_remove e removed
with_cleanup e (some native) removed = record e {
  cleanup_operation = FileSinkCleanupOperation.close;
  cleanup_native_error = native;
}

-- What `open`, the allocation, `close` and `unlink` answer.
pub record OpenAnswers : Type 0 where
  pub opened : Option NativeError
  pub has_memory : Bool
  pub closed : Option NativeError
  pub removed : Option NativeError

abbrev pub after_flush :
    ℕ → BufferedCsvFileSink × FileSinkError → BufferedCsvFileSink × FileSinkError
after_flush rows (s, e) = if is_error e then (s, e) else (
  record s {
    buffer = [];
    buffered_rows = 0;
    metrics = record s.metrics {
      rows_written = add_64 s.metrics.rows_written rows;
      buffer_flushes = add_64 s.metrics.buffer_flushes 1;
    };
  },
  no_error,
)

abbrev pub after_direct : BufferedCsvFileSink × FileSinkError → BufferedCsvFileSink × FileSinkError
after_direct (s, e) = if is_error e then (s, e) else (
  record s {
    metrics = record s.metrics {
      rows_written = add_64 s.metrics.rows_written 1;
      direct_large_records = add_64 s.metrics.direct_large_records 1;
    };
  },
  no_error,
)

-- `memcpy`, behind a flush if there was one.
abbrev pub then_buffer :
    List ℕ → BufferedCsvFileSink × FileSinkError → BufferedCsvFileSink × FileSinkError
then_buffer row (s, e) =
    if is_error e
    then (s, e)
    else (record s { buffer = s.buffer ++ row; buffered_rows = add_64 s.buffered_rows 1 }, no_error)

abbrev pub after_header :
    OpenAnswers → BufferedCsvFileSink × FileSinkError → Option BufferedCsvFileSink × FileSinkError
after_header answers (s, e) =
    if is_error e
    then (Option.none, with_cleanup e answers.closed answers.removed)
    else (some s, no_error)

-- The call of `close`, which answers with an error or none.
abbrev pub close_descriptor : Option NativeError → BufferedCsvFileSink → BufferedCsvFileSink
close_descriptor Option.none s = record s { is_open = false }
close_descriptor (some native) s =
    (latch_error (record s { is_open = false }) FileSinkErrorCode.close_failed native).0

module _ (kernel : ℕ → List ℕ → WriteAnswer) where
  -- `rounds` is how often the loop can go on, which is at most once for every byte.
  unfoldable pub write_from :
      (rounds : ℕ) → BufferedCsvFileSink → List ℕ → BufferedCsvFileSink × FileSinkError
  unfolding write_some
  write_from rounds s [] = (s, no_error)
  write_from zero s (c ∷ bytes) = (s, no_error)
  write_from (suc rounds) s (c ∷ bytes) =
      elim (write_some (record s { writes = s.writes + 1 }) (c ∷ bytes)
        (kernel s.writes (c ∷ bytes))) [
          | goes_on after left ↦ write_from rounds after left
          | stops out ↦ out
        ]

  unfoldable pub write_all : BufferedCsvFileSink → List ℕ → BufferedCsvFileSink × FileSinkError
  unfolding write_from
  write_all s bytes = write_from (length bytes) s bytes

  unfoldable pub flush_buffer : BufferedCsvFileSink → BufferedCsvFileSink × FileSinkError
  unfolding write_all
  flush_buffer s =
      if is_empty s.buffer
      then (s, no_error)
      else after_flush s.buffered_rows (write_all s s.buffer)

  abbrev pub then_direct :
      List ℕ → BufferedCsvFileSink × FileSinkError → BufferedCsvFileSink × FileSinkError
  then_direct row (s, e) = if is_error e then (s, e) else after_direct (write_all s row)

  unfoldable pub append_record : BufferedCsvFileSink → List ℕ → BufferedCsvFileSink × FileSinkError
  unfolding flush_buffer
  append_record s row =
      if has_failed s
      then (s, s.first_error)
      else if not s.is_open
          || is_empty row
          || ltb max_csv_record_bytes (length row)
          || not (ends_in_newline row)
      then latch_error s FileSinkErrorCode.invalid_record no_native_error
      else if ltb csv_aggregation_buffer_bytes (length row)
      then then_direct row (flush_buffer s)
      else if ltb (csv_aggregation_buffer_bytes - length s.buffer) (length row)
      then then_buffer row (flush_buffer s)
      else then_buffer row (s, no_error)

  unfoldable pub flush : BufferedCsvFileSink → BufferedCsvFileSink × FileSinkError
  unfolding flush_buffer
  flush s =
      if has_failed s
      then (s, s.first_error)
      else if not s.is_open
      then latch_error s FileSinkErrorCode.write_failed ebadf
      else flush_buffer s

  unfoldable pub close :
      Option NativeError → BufferedCsvFileSink → BufferedCsvFileSink × FileSinkError
  unfolding flush_buffer
  close answer s =
      if not s.is_open
      then (s, s.first_error)
      else let after = close_descriptor answer (if has_failed s then s else (flush_buffer s).0) in
        (after, after.first_error)

  abbrev pub open_file :
      OpenAnswers
      → List ℕ
      → CsvFileKind
      → Option NativeError
      → Option BufferedCsvFileSink × FileSinkError
  open_file answers path kind (some native) =
      (Option.none, error_with FileSinkErrorCode.open_failed native)
  open_file answers path kind Option.none =
      if not answers.has_memory
      then (
        Option.none,
        with_cleanup (error_with FileSinkErrorCode.allocation_failure no_native_error)
            answers.closed answers.removed,
      )
      else after_header answers (write_all (new_sink path) (header_for kind))

  unfoldable pub open_exclusive :
      OpenAnswers → List ℕ → CsvFileKind → Option BufferedCsvFileSink × FileSinkError
  unfolding write_all
  open_exclusive answers path kind =
      if is_empty path
      then (Option.none, error_with FileSinkErrorCode.invalid_path no_native_error)
      else if is_empty (header_for kind)
      then (Option.none, error_with FileSinkErrorCode.invalid_file_kind no_native_error)
      else open_file answers path kind answers.opened
