-- ===== src/FileSink/Session.antt =====
-- src/buffered_file_sink.cpp: a sink from `open_exclusive` to `close`.
use mathlib.Core.Path.{subst}
use mathlib.Core.Option.{Option, some}
use ir_assignment.Prelude.{
  ℕ, ◌≡◌, refl, sym, ap, ◌∙◌, Bool, true, false, not, ◌||◌, arith, if◌then◌else◌, if_cases,
  true_ne_false, List, [], ◌∷◌, ◌++◌, length, ltb, ◌-◌,
}
use ir_assignment.Csv.Format.{max_csv_record_bytes}
use ir_assignment.FileSink.{
  csv_aggregation_buffer_bytes, CsvFileKind, FileSinkErrorCode, NativeError, no_native_error, ebadf,
  FileSinkError, error_with, no_error, is_error, WriteAnswer, BufferedCsvFileSink, has_failed,
  latch_error, ends_in_newline, is_empty, header_for,
}
use ir_assignment.FileSink.Operations.{
  write_all, after_flush, flush_buffer, after_direct, then_direct, then_buffer, append_record,
  flush, close_descriptor, close, OpenAnswers, new_sink, after_header, open_file, open_exclusive,
}
use ir_assignment.FileSink.Contents.{
  IsSink, IsFlush, flush_buffer-IsFlush, append_record-IsOutcome, flush-IsOutcome,
}
use ir_assignment.FileSink.Writes.{append_nil_lem, append_assoc_lem, IsWrite, write_all-IsWrite}

-- A closed sink that has not failed has an empty buffer.
abbrev pub IsDrained : BufferedCsvFileSink → Type 0
IsDrained s = s.is_open ≡ false → has_failed s ≡ false → s.buffer ≡ []

open-IsDrained : (s : BufferedCsvFileSink) → s.is_open ≡ true → IsDrained s
open-IsDrained s h shut good = absurd (true_ne_false (sym h ∙ shut))

failed-IsDrained : (s : BufferedCsvFileSink) → has_failed s ≡ true → IsDrained s
failed-IsDrained s h shut good = absurd (true_ne_false (sym h ∙ good))

-- The sink that an operation leaves is open as it was.
abbrev StaysOpen : Bool → BufferedCsvFileSink × FileSinkError → Type 0
StaysOpen is_open out = out.0.is_open ≡ is_open

abbrev LeavesDrained : BufferedCsvFileSink × FileSinkError → Type 0
LeavesDrained out = IsDrained out.0

after_flush_open :
    (rows : ℕ) (s : BufferedCsvFileSink) (e : FileSinkError)
    → (after_flush rows (s, e)).0.is_open ≡ s.is_open
after_flush_open rows s e = if_cases (StaysOpen s.is_open) (is_error e) (λ _. refl) (λ _. refl)

after_direct_open :
    (s : BufferedCsvFileSink) (e : FileSinkError) → (after_direct (s, e)).0.is_open ≡ s.is_open
after_direct_open s e = if_cases (StaysOpen s.is_open) (is_error e) (λ _. refl) (λ _. refl)

then_buffer_open :
    (row : List ℕ) (s : BufferedCsvFileSink) (e : FileSinkError)
    → (then_buffer row (s, e)).0.is_open ≡ s.is_open
then_buffer_open row s e = if_cases (StaysOpen s.is_open) (is_error e) (λ _. refl) (λ _. refl)

latched-IsDrained :
    (s : BufferedCsvFileSink) (code : FileSinkErrorCode) (native : NativeError)
    → is_error (error_with code native) ≡ true
    → has_failed s ≡ false
    → IsDrained (latch_error s code native).0
latched-IsDrained s code native h good =
    rw good (λ shut clean. absurd (true_ne_false (sym h ∙ clean)))

-- What was offered to a sink, one call after the other.
pub data Call : Type 0 where
  append_call : List ℕ → Call
  flush_call : Call
  close_call : Option NativeError → Call

abbrev pub offered : List Call → List ℕ
offered [] = []
offered (append_call row ∷ calls) = row ++ offered calls
offered (flush_call ∷ calls) = offered calls
offered (close_call answer ∷ calls) = offered calls

offered_lem :
    (total : List ℕ) (c : Call) (calls : List Call)
    → (total ++ offered (c ∷ [])) ++ offered calls ≡ total ++ offered (c ∷ calls)
offered_lem total (append_call row) calls =
    append_assoc_lem total (row ++ []) (offered calls)
    ∙ ap (λ t. total ++ (t ++ offered calls)) (append_nil_lem row)
offered_lem total flush_call calls = ap (λ t. t ++ offered calls) (append_nil_lem total)
offered_lem total (close_call answer) calls = ap (λ t. t ++ offered calls) (append_nil_lem total)

module _ (kernel : ℕ → List ℕ → WriteAnswer) where
  flush_buffer_open :
      (s : BufferedCsvFileSink)
      → has_failed s ≡ false
      → (flush_buffer kernel s).0.is_open ≡ s.is_open
  unfolding flush_buffer
  flush_buffer_open s h =
      if_cases (StaysOpen s.is_open) (is_empty s.buffer) (λ _. refl)
        (λ _.
          after_flush_open s.buffered_rows _ _ ∙ (write_all-IsWrite kernel s s.buffer h).open_kept)

  then_direct_open :
      (total row : List ℕ) (s : BufferedCsvFileSink) (e : FileSinkError)
      → IsFlush total (s, e)
      → (then_direct kernel row (s, e)).0.is_open ≡ s.is_open
  then_direct_open total row s e f =
      if_cases (StaysOpen s.is_open) (is_error e) (λ _. refl)
        (λ good.
          after_direct_open (write_all kernel s row).0 (write_all kernel s row).1
          ∙ (write_all-IsWrite kernel s row (f.outcome.failure ∙ good)).open_kept)

  append_record-IsDrained :
      (total row : List ℕ) (s : BufferedCsvFileSink)
      → IsSink total s
      → IsDrained s
      → IsDrained (append_record kernel s row).0
  unfolding append_record
  append_record-IsDrained total row s k d =
      if_cases LeavesDrained (has_failed s) (λ _. d)
        (λ good.
          if_cases LeavesDrained
            (not s.is_open
              || is_empty row
              || ltb max_csv_record_bytes (length row)
              || not (ends_in_newline row))
            (λ _. latched-IsDrained s FileSinkErrorCode.invalid_record no_native_error refl good)
            (λ fine.
              let is_open : s.is_open ≡ true = ground (arith, fine) in
              let f = flush_buffer-IsFlush kernel total s good k in
              let same = flush_buffer_open s good in
              if_cases LeavesDrained (ltb csv_aggregation_buffer_bytes (length row))
                (λ _.
                  open-IsDrained (then_direct kernel row (flush_buffer kernel s)).0
                    (then_direct_open total row _ _ f ∙ same ∙ is_open))
                (λ _.
                  if_cases LeavesDrained
                    (ltb (csv_aggregation_buffer_bytes - length s.buffer) (length row))
                    (λ _.
                      open-IsDrained (then_buffer row (flush_buffer kernel s)).0
                        (then_buffer_open row _ _ ∙ same ∙ is_open))
                    (λ _. open-IsDrained (then_buffer row (s, no_error)).0 is_open))))

  flush-IsDrained : (s : BufferedCsvFileSink) → IsDrained s → IsDrained (flush kernel s).0
  unfolding flush
  flush-IsDrained s d =
      if_cases LeavesDrained (has_failed s) (λ _. d)
        (λ good.
          if_cases LeavesDrained (not s.is_open)
            (λ _. latched-IsDrained s FileSinkErrorCode.write_failed ebadf refl good)
            (λ fine.
              open-IsDrained (flush_buffer kernel s).0
                (flush_buffer_open s good ∙ ground (arith, fine))))

  -- `close` leaves a file with all that was given to it, or reports an error.
  close_descriptor_lem :
      (total : List ℕ) (answer : Option NativeError) (s : BufferedCsvFileSink)
      → IsSink total s
      → (has_failed s ≡ false → s.buffer ≡ [])
      → IsSink total (close_descriptor answer s) × IsDrained (close_descriptor answer s)
  close_descriptor_lem total Option.none s k empty =
      (record { within = k.within; whole = k.whole; fits = k.fits }, λ shut good. empty good)
  close_descriptor_lem total (some native) s k empty =
      if_cases (λ (out : BufferedCsvFileSink × FileSinkError). IsSink total out.0 × IsDrained out.0)
        (has_failed s)
        (λ bad. (
          record { within = k.within; whole = k.whole; fits = k.fits },
          failed-IsDrained (record s { is_open = false }) bad,
        ))
        (λ good. (
          record { within = k.within; whole = λ e. absurd (true_ne_false e); fits = k.fits },
          λ shut e. absurd (true_ne_false e),
        ))

  abbrev IsClosing : List ℕ → BufferedCsvFileSink → Type 0
  IsClosing total s = IsSink total s × (has_failed s ≡ false → s.buffer ≡ [])

  settled-IsClosing :
      (total : List ℕ) (s : BufferedCsvFileSink)
      → IsSink total s
      → IsClosing total (if has_failed s then s else (flush_buffer kernel s).0)
  settled-IsClosing total s k =
      if_cases (IsClosing total) (has_failed s)
        (λ bad. (k, λ good. absurd (true_ne_false (sym bad ∙ good))))
        (λ good.
          let f = flush_buffer-IsFlush kernel total s good k in
          (f.outcome.kept, λ clean. f.emptied (sym f.outcome.failure ∙ clean)))

  close_lem :
      (total : List ℕ) (answer : Option NativeError) (s : BufferedCsvFileSink)
      → IsSink total s
      → IsDrained s
      → IsSink total (close kernel answer s).0 × IsDrained (close kernel answer s).0
  unfolding close
  close_lem total answer s k d =
      if_cases (λ (out : BufferedCsvFileSink × FileSinkError). IsSink total out.0 × IsDrained out.0)
        (not s.is_open) (λ _. (k, d))
        (λ _.
          let (kept, empty) = settled-IsClosing total s k in
          close_descriptor_lem total answer _ kept empty)

  -- One call, and a sequence of them.
  abbrev pub called_with : BufferedCsvFileSink → Call → BufferedCsvFileSink
  called_with s (append_call row) = (append_record kernel s row).0
  called_with s flush_call = (flush kernel s).0
  called_with s (close_call answer) = (close kernel answer s).0

  abbrev pub after_calls : BufferedCsvFileSink → List Call → BufferedCsvFileSink
  after_calls s [] = s
  after_calls s (c ∷ calls) = after_calls (called_with s c) calls

  called_with_lem :
      (total : List ℕ) (s : BufferedCsvFileSink) (c : Call)
      → IsSink total s
      → IsDrained s
      → IsSink (total ++ offered (c ∷ [])) (called_with s c) × IsDrained (called_with s c)
  called_with_lem total s (append_call row) k d = (
    subst (λ t. IsSink (total ++ t) (append_record kernel s row).0) (sym (append_nil_lem row))
        (append_record-IsOutcome kernel total row s k).kept,
    append_record-IsDrained total row s k d,
  )
  called_with_lem total s flush_call k d = (
    subst (λ t. IsSink t (flush kernel s).0) (sym (append_nil_lem total))
        (flush-IsOutcome kernel total s k).kept,
    flush-IsDrained s d,
  )
  called_with_lem total s (close_call answer) k d =
      let (kept, drained) = close_lem total answer s k d in
      (subst (λ t. IsSink t (close kernel answer s).0) (sym (append_nil_lem total)) kept, drained)

  after_calls_lem :
      (total : List ℕ) (s : BufferedCsvFileSink) (calls : List Call)
      → IsSink total s
      → IsDrained s
      → IsSink (total ++ offered calls) (after_calls s calls) × IsDrained (after_calls s calls)
  after_calls_lem total s [] k d = (subst (λ t. IsSink t s) (sym (append_nil_lem total)) k, d)
  after_calls_lem total s (c ∷ calls) k d =
      let (kept, drained) = called_with_lem total s c k d in
      let (last, end) =
        after_calls_lem (total ++ offered (c ∷ [])) (called_with s c) calls kept drained in
      (subst (λ t. IsSink t (after_calls s (c ∷ calls))) (offered_lem total c calls) last, end)

  -- What `open_exclusive` returns is a sink on the header, or none.
  abbrev IsNew : List ℕ → Option BufferedCsvFileSink → Type 0
  IsNew header Option.none = Unit
  IsNew header (some s) = IsSink header s × IsDrained s

  after_header-IsNew :
      (answers : OpenAnswers) (header : List ℕ) (s : BufferedCsvFileSink) (e : FileSinkError)
      → IsWrite [] true header (s, e)
      → IsNew header (after_header answers (s, e)).0
  after_header-IsNew answers header s e w =
      if_cases (λ (out : Option BufferedCsvFileSink × FileSinkError). IsNew header out.0)
        (is_error e) (λ _. tt)
        (λ good. (
          record {
            within = w.grown;
            whole = λ _.
                ap (λ b. s.contents ++ b) w.buffer_kept ∙ append_nil_lem s.contents ∙ w.whole good;
            fits = rw w.buffer_kept (omega arith);
          },
          open-IsDrained s w.open_kept,
        ))

  open_file-IsNew :
      (answers : OpenAnswers) (path : List ℕ) (kind : CsvFileKind) (opened : Option NativeError)
      → IsNew (header_for kind) (open_file kernel answers path kind opened).0
  open_file-IsNew answers path kind (some native) = tt
  open_file-IsNew answers path kind Option.none =
      if_cases (λ (out : Option BufferedCsvFileSink × FileSinkError). IsNew (header_for kind) out.0)
        (not answers.has_memory) (λ _. tt)
        (λ _.
          after_header-IsNew answers (header_for kind) _ _
            (write_all-IsWrite kernel (new_sink path) (header_for kind) refl))

  open_exclusive-IsNew :
      (answers : OpenAnswers) (path : List ℕ) (kind : CsvFileKind)
      → IsNew (header_for kind) (open_exclusive kernel answers path kind).0
  unfolding open_exclusive
  open_exclusive-IsNew answers path kind =
      if_cases (λ (out : Option BufferedCsvFileSink × FileSinkError). IsNew (header_for kind) out.0)
        (is_empty path) (λ _. tt)
        (λ _.
          if_cases
            (λ (out : Option BufferedCsvFileSink × FileSinkError). IsNew (header_for kind) out.0)
            (is_empty (header_for kind)) (λ _. tt)
            (λ _. open_file-IsNew answers path kind answers.opened))

  -- Whatever the kernel answers, and whatever is called on a sink that `open_exclusive` returned: the
  -- contents of the file are a prefix of the header and the records that were offered, in their order.
  -- If nothing has failed, the rest of them is in the buffer, which holds at most 256 KiB, and once the
  -- sink is closed the file has all of them.
  pub calls-IsSink :
      (answers : OpenAnswers) (path : List ℕ) (kind : CsvFileKind) (s : BufferedCsvFileSink)
      (calls : List Call)
      → (open_exclusive kernel answers path kind).0 ≡ some s
      → IsSink (header_for kind ++ offered calls) (after_calls s calls)
        × ((after_calls s calls).is_open ≡ false
            → has_failed (after_calls s calls) ≡ false
            → (after_calls s calls).contents ≡ header_for kind ++ offered calls)
  calls-IsSink answers path kind s calls e =
      let (k, d) = subst (IsNew (header_for kind)) e (open_exclusive-IsNew answers path kind) in
      let (last, end) = after_calls_lem (header_for kind) s calls k d in
      (
        last,
        λ shut good.
            sym (append_nil_lem (after_calls s calls).contents)
            ∙ ap (λ b. (after_calls s calls).contents ++ b) (sym (end shut good))
            ∙ last.whole good,
      )
