-- ===== src/FileSink/Tests.antt =====
-- Runs of a sink, and the theorem at an input.
use mathlib.Core.Option.{Option, some}
use ir_assignment.Prelude.{
  ℕ, ◌%◌, ◌≡◌, refl, true, false, List, [], ◌∷◌, ◌++◌, ◌==◌, if◌then◌else◌, ltb, length,
}
use ir_assignment.Csv.Headers.{market_data_csv_header}
use ir_assignment.FileSink.{
  market_data, WriteAnswer, interrupted, accepts, refuses, eio, BufferedCsvFileSink, has_failed,
  write_some, csv_aggregation_buffer_bytes,
}
use ir_assignment.FileSink.Operations.{
  OpenAnswers, new_sink, open_exclusive, write_all, write_from, append_record, flush, close,
  flush_buffer,
}
use ir_assignment.FileSink.Contents.{IsSink}
use ir_assignment.FileSink.Session.{
  Call, append_call, flush_call, close_call, offered, after_calls, calls-IsSink,
}

-- A kernel that takes sixty bytes at most, and is interrupted before every other call.
abbrev slow_kernel : ℕ → List ℕ → WriteAnswer
slow_kernel i bytes =
    let answer = accepts (if ltb 60 (length bytes) then 60 else length bytes) in
    if i % 2 == 0 then interrupted answer else answer

-- A kernel whose disk is full after two writes.
abbrev full_kernel : ℕ → List ℕ → WriteAnswer
full_kernel i bytes = if ltb i 2 then slow_kernel i bytes else refuses eio

abbrev answers : OpenAnswers
answers = record {
  opened = Option.none;
  has_memory = true;
  closed = Option.none;
  removed = Option.none;
}

abbrev opened_sink : (ℕ → List ℕ → WriteAnswer) → BufferedCsvFileSink
opened_sink kernel = (write_all kernel (new_sink (b'f' ∷ [])) market_data_csv_header).0

abbrev calls : List Call
calls =
    append_call (b'a' ∷ b'\n' ∷ [])
    ∷ flush_call
    ∷ append_call (b'b' ∷ b'\n' ∷ [])
    ∷ close_call Option.none
    ∷ []

opened_run :
    (open_exclusive slow_kernel answers (b'f' ∷ []) market_data).0 ≡ some (opened_sink slow_kernel)
unfolding open_exclusive write_all write_from write_some
opened_run = refl

written_run :
    (after_calls slow_kernel (opened_sink slow_kernel) calls).contents
    ≡ market_data_csv_header ++ (b'a' ∷ b'\n' ∷ b'b' ∷ b'\n' ∷ [])
unfolding write_all write_from write_some append_record flush close flush_buffer
    csv_aggregation_buffer_bytes
written_run = refl

-- The row is lost, and the sink says so.
full_run : has_failed (after_calls full_kernel (opened_sink full_kernel) calls) ≡ true
unfolding write_all write_from write_some append_record flush close flush_buffer
    csv_aggregation_buffer_bytes
full_run = refl

calls-IsSink_example :
    IsSink
      (market_data_csv_header ++ offered calls)
      (after_calls slow_kernel (opened_sink slow_kernel) calls)
    × ((after_calls slow_kernel (opened_sink slow_kernel) calls).is_open ≡ false
        → has_failed (after_calls slow_kernel (opened_sink slow_kernel) calls) ≡ false
        → (after_calls slow_kernel (opened_sink slow_kernel) calls).contents
          ≡ market_data_csv_header ++ offered calls)
calls-IsSink_example =
    calls-IsSink slow_kernel answers (b'f' ∷ []) market_data (opened_sink slow_kernel) calls
      opened_run
