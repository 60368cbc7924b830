-- ===== src/FileSink/Contents.antt =====
-- src/buffered_file_sink.cpp: what is in the file of a sink. Whatever the kernel answers, the file is a
-- prefix of the header and the records that were offered, in their order.
use mathlib.Core.Path.{subst}
use ir_assignment.Prelude.{
  ℕ, ◌+◌, ◌-◌, ◌≤◌, ◌≡◌, refl, sym, ap, ◌∙◌, Bool, true, false, not, ◌||◌, arith, ltb, if_cases,
  Bool-cases, true_ne_false, List, [], ◌∷◌, ◌++◌, length, length-append, inl, inr,
}
use ir_assignment.Csv.Format.{max_csv_record_bytes}
use ir_assignment.FileSink.{
  csv_aggregation_buffer_bytes, FileSinkErrorCode, NativeError, no_native_error, ebadf,
  FileSinkError, error_with, no_error, is_error, WriteAnswer, BufferedCsvFileSink, has_failed,
  latch_error, ends_in_newline, is_empty,
}
use ir_assignment.FileSink.Operations.{
  write_all, after_flush, flush_buffer, after_direct, then_direct, then_buffer, append_record,
  flush,
}
use ir_assignment.FileSink.Writes.{
  IsPrefix, append_assoc_lem, append_nil_lem, longer-IsPrefix, IsWrite, write_all-IsWrite,
}

-- A sink to which `total` was given, the header first: the file is a prefix of it, and if nothing has
-- failed the rest is in the buffer.
pub record IsSink (total : List ℕ) (s : BufferedCsvFileSink) : Type 0 where
  pub within : IsPrefix s.contents total
  pub whole : has_failed s ≡ false → s.contents ++ s.buffer ≡ total
  pub fits : length s.buffer ≤ csv_aggregation_buffer_bytes

-- What an operation returns is the error that is latched.
pub record IsOutcome (total : List ℕ) (out : BufferedCsvFileSink × FileSinkError) : Type 0 where
  pub failure : has_failed out.0 ≡ is_error out.1
  pub kept : IsSink total out.0

failed-IsSink :
    (total row : List ℕ) (s : BufferedCsvFileSink)
    → has_failed s ≡ true
    → IsSink total s
    → IsSink (total ++ row) s
failed-IsSink total row s h k = record {
  within = longer-IsPrefix s.contents total row k.within;
  whole = λ e. absurd (true_ne_false (sym h ∙ e));
  fits = k.fits;
}

pub record IsFlush (total : List ℕ) (out : BufferedCsvFileSink × FileSinkError) : Type 0 where
  pub outcome : IsOutcome total out
  pub emptied : is_error out.1 ≡ false → out.0.buffer ≡ []

after_flush-IsFlush :
    (rows : ℕ) (buffer : List ℕ) (is_open : Bool) (total : List ℕ) (s : BufferedCsvFileSink)
    (e : FileSinkError)
    → length buffer ≤ csv_aggregation_buffer_bytes
    → IsWrite buffer is_open total (s, e)
    → IsFlush total (after_flush rows (s, e))
after_flush-IsFlush rows buffer is_open total s e fits w = elim (Bool-cases (is_error e)) [
  | inl bad ↦ rw bad (record {
    outcome = record {
      failure = w.failure;
      kept = record {
        within = w.grown;
        whole = λ h. absurd (true_ne_false (sym bad ∙ sym w.failure ∙ h));
        fits = rw w.buffer_kept fits;
      };
    };
    emptied = λ h. absurd (true_ne_false (sym bad ∙ h));
  })
  | inr good ↦ rw good (record {
    outcome = record {
      failure = w.failure ∙ good;
      kept = record {
        within = w.grown;
        whole = λ _. append_nil_lem s.contents ∙ w.whole good;
        fits = omega arith;
      };
    };
    emptied = λ _. refl;
  })
]

empty_lem : (xs : List ℕ) → is_empty xs ≡ true → xs ≡ []
empty_lem [] h = refl
empty_lem (x ∷ xs) h = absurd (true_ne_false (sym h))

then_buffer-IsOutcome :
    (total row : List ℕ) (s : BufferedCsvFileSink) (e : FileSinkError)
    → IsOutcome total (s, e)
    → (is_error e ≡ false → length s.buffer + length row ≤ csv_aggregation_buffer_bytes)
    → IsOutcome (total ++ row) (then_buffer row (s, e))
then_buffer-IsOutcome total row s e k fits = elim (Bool-cases (is_error e)) [
  | inl bad ↦
      rw bad
        (record { failure = k.failure; kept = failed-IsSink total row s (k.failure ∙ bad) k.kept })
  | inr good ↦ rw good (record {
    failure = k.failure ∙ good;
    kept = record {
      within = longer-IsPrefix s.contents total row k.kept.within;
      whole =
          λ h. sym (append_assoc_lem s.contents s.buffer row) ∙ ap (λ t. t ++ row) (k.kept.whole h);
      fits = omega (arith, fits good, length-append s.buffer row);
    };
  })
]

after_direct-IsOutcome :
    (is_open : Bool) (total : List ℕ) (s : BufferedCsvFileSink) (e : FileSinkError)
    → IsWrite [] is_open total (s, e)
    → IsOutcome total (after_direct (s, e))
after_direct-IsOutcome is_open total s e w = elim (Bool-cases (is_error e)) [
  | inl bad ↦ rw bad (record {
    failure = w.failure;
    kept = record {
      within = w.grown;
      whole = λ h. absurd (true_ne_false (sym bad ∙ sym w.failure ∙ h));
      fits = rw w.buffer_kept (omega arith);
    };
  })
  | inr good ↦ rw good (record {
    failure = w.failure ∙ good;
    kept = record {
      within = w.grown;
      whole =
          λ _. ap (λ t. s.contents ++ t) w.buffer_kept ∙ append_nil_lem s.contents ∙ w.whole good;
      fits = rw w.buffer_kept (omega arith);
    };
  })
]

latched-IsOutcome :
    (target : List ℕ) (s : BufferedCsvFileSink) (code : FileSinkErrorCode) (native : NativeError)
    → is_error (error_with code native) ≡ true
    → has_failed s ≡ false
    → IsPrefix s.contents target
    → length s.buffer ≤ csv_aggregation_buffer_bytes
    → IsOutcome target (latch_error s code native)
latched-IsOutcome target s code native h good within fits = rw good (record {
  failure = refl;
  kept = record { within = within; whole = λ e. absurd (true_ne_false (sym h ∙ e)); fits = fits };
})

module _ (kernel : ℕ → List ℕ → WriteAnswer) where
  pub flush_buffer-IsFlush :
      (total : List ℕ) (s : BufferedCsvFileSink)
      → has_failed s ≡ false
      → IsSink total s
      → IsFlush total (flush_buffer kernel s)
  unfolding flush_buffer
  flush_buffer-IsFlush total s h k = elim (Bool-cases (is_empty s.buffer)) [
    | inl none ↦ rw none (record {
      outcome = record { failure = h; kept = k };
      emptied = λ _. empty_lem s.buffer none;
    })
    | inr some_bytes ↦ rw some_bytes (
        after_flush-IsFlush s.buffered_rows s.buffer s.is_open total _ _ k.fits (
          subst (λ t. IsWrite s.buffer s.is_open t (write_all kernel s s.buffer)) (k.whole h)
            (write_all-IsWrite kernel s s.buffer h)))
  ]

  then_direct-IsOutcome :
      (total row : List ℕ) (s : BufferedCsvFileSink) (e : FileSinkError)
      → IsFlush total (s, e)
      → IsOutcome (total ++ row) (then_direct kernel row (s, e))
  then_direct-IsOutcome total row s e k = elim (Bool-cases (is_error e)) [
    | inl bad ↦ rw bad (record {
      failure = k.outcome.failure;
      kept = failed-IsSink total row s (k.outcome.failure ∙ bad) k.outcome.kept;
    })
    | inr good ↦ rw good (
        let clean : has_failed s ≡ false = k.outcome.failure ∙ good in
        let file : s.contents ≡ total =
          sym (append_nil_lem s.contents)
          ∙ ap (λ t. s.contents ++ t) (sym (k.emptied good))
          ∙ k.outcome.kept.whole clean in
        after_direct-IsOutcome s.is_open (total ++ row) _ _ (
          subst (λ t. IsWrite [] s.is_open (t ++ row) (write_all kernel s row)) file
            (subst (λ b. IsWrite b s.is_open (s.contents ++ row) (write_all kernel s row))
              (k.emptied good) (write_all-IsWrite kernel s row clean))))
  ]

  pub append_record-IsOutcome :
      (total row : List ℕ) (s : BufferedCsvFileSink)
      → IsSink total s
      → IsOutcome (total ++ row) (append_record kernel s row)
  unfolding append_record
  append_record-IsOutcome total row s k =
      if_cases (IsOutcome (total ++ row)) (has_failed s)
        (λ bad. record { failure = refl; kept = failed-IsSink total row s bad k })
        (λ good.
          if_cases (IsOutcome (total ++ row))
            (not s.is_open
              || is_empty row
              || ltb max_csv_record_bytes (length row)
              || not (ends_in_newline row))
            (λ _.
              latched-IsOutcome (total ++ row) s FileSinkErrorCode.invalid_record no_native_error
                refl good (longer-IsPrefix s.contents total row k.within) k.fits)
            (λ _.
              if_cases (IsOutcome (total ++ row)) (ltb csv_aggregation_buffer_bytes (length row))
                (λ _. then_direct-IsOutcome total row _ _ (flush_buffer-IsFlush total s good k))
                (λ small.
                  if_cases (IsOutcome (total ++ row))
                    (ltb (csv_aggregation_buffer_bytes - length s.buffer) (length row))
                    (λ _.
                      let f = flush_buffer-IsFlush total s good k in
                      then_buffer-IsOutcome total row _ _ f.outcome
                        (λ e. rw (f.emptied e) (ground (arith, small))))
                    (λ room.
                      then_buffer-IsOutcome total row s no_error
                        (record { failure = good; kept = k })
                        (λ _. ground (arith, room, k.fits))))))

  pub flush-IsOutcome :
      (total : List ℕ) (s : BufferedCsvFileSink) → IsSink total s → IsOutcome total (flush kernel s)
  unfolding flush
  flush-IsOutcome total s k =
      if_cases (IsOutcome total) (has_failed s) (λ bad. record { failure = refl; kept = k })
        (λ good.
          if_cases (IsOutcome total) (not s.is_open)
            (λ _.
              latched-IsOutcome total s FileSinkErrorCode.write_failed ebadf refl good k.within
                k.fits)
            (λ _. (flush_buffer-IsFlush total s good k).outcome))
