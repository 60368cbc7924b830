-- ===== src/Event/Atomic.antt =====
-- src/event_processor.cpp: `process` is a transaction. It commits all of an event or nothing.
use mathlib.Core.Option.{Option, some}
use ir_assignment.Prelude.{
  ℕ, ◌+◌, ◌≡◌, refl, ◌⊎◌, inl, inr, Bool, true, false, not, ◌||◌, List, arith, if_cases,
}
use ir_assignment.Payload.{
  PayloadVenue, SpotStreamKind, depth_diff, depth5, trade, SpotParseResult, SpotDepthEvent,
  PaddedJsonView,
}
use ir_assignment.Book.Core.{BookApplyResult, emits_snapshot}
use ir_assignment.Csv.Format.{format_market_data_csv_row}
use ir_assignment.Event.{
  SymbolState, EventContext, EventRowBatch, EventProcessResult, EventOutputMode, live_capture,
  replay, Processed, success, clear, candidate_for, with_candidate, publish, process_depth,
  process_parsed, process_audited, process_eligible, process, context_is_valid, epoch_changed,
  is_depth_diff, invalidate, market_data_row, checked_next_sequence, parsed_well, audit_eligible,
}

-- The rows of a batch for the file of the book.
abbrev pub book_rows : EventRowBatch → ℕ
book_rows output = elim output.order_book_row [ Option.none ↦ 0 | some bytes ↦ 1 ]

-- The state is still of the same symbol.
pub record IsSameSymbol (before after : SymbolState) : Type 0 where
  pub same_symbol : after.symbol ≡ before.symbol
  pub same_venue : after.venue ≡ before.venue
  pub same_id : after.instrument_id ≡ before.instrument_id

-- A call that succeeds remembers the context, and counts the row that it emits.
pub record IsCommit (state : SymbolState) (context : EventContext) (p : Processed) : Type 0 where
  pub symbol_kept : IsSameSymbol state p.state
  pub observed : p.state.has_observed_connection ≡ true
  pub epoch : p.state.current_connection_epoch ≡ context.connection_epoch
  pub sequence : p.state.last_connection_sequence ≡ context.connection_sequence
  pub counted : p.state.sequence_number ≡ state.sequence_number + book_rows p.output

abbrev pub IsRollback : SymbolState → Processed → Type 0
IsRollback state p = (success p.result ≡ false) × (p.state ≡ state) × (p.output ≡ clear)

abbrev pub IsTransaction : SymbolState → EventContext → Processed → Type 0
IsTransaction state context p =
    (success p.result ≡ true) × IsCommit state context p ⊎ IsRollback state p

-- Before the event is applied nothing is reported as failed, and no row of the book is there.
pub record IsFresh (output : EventRowBatch) (result : EventProcessResult) : Type 0 where
  pub well : success result ≡ true
  pub no_row : output.order_book_row ≡ Option.none

pub record IsCandidate (state candidate : SymbolState) : Type 0 where
  pub of_symbol : IsSameSymbol state candidate
  pub of_sequence : candidate.sequence_number ≡ state.sequence_number

with_candidate-IsCandidate :
    (state : SymbolState) (context : EventContext) (event : SpotDepthEvent)
    → IsCandidate state (with_candidate state context event).0
unfolding with_candidate candidate_for
with_candidate-IsCandidate state context event = ground arith

invalidate-IsCandidate : (state : SymbolState) → IsCandidate state (invalidate state)
invalidate-IsCandidate state = ground arith

same-IsCandidate : (state : SymbolState) → IsCandidate state state
same-IsCandidate state = ground arith

committed :
    (state candidate : SymbolState) (context : EventContext) (output : EventRowBatch)
    (result : EventProcessResult)
    → IsCandidate state candidate
    → IsFresh output result
    → IsTransaction state context (record {
      state = record candidate {
        has_observed_connection = true;
        current_connection_epoch = context.connection_epoch;
        last_connection_sequence = context.connection_sequence;
      };
      output = output;
      result = result;
    })
committed state candidate context output result c f = inl (
  f.well,
  record {
    symbol_kept = record {
      same_symbol = c.of_symbol.same_symbol;
      same_venue = c.of_symbol.same_venue;
      same_id = c.of_symbol.same_id;
    };
    observed = refl;
    epoch = refl;
    sequence = refl;
    counted = ground (arith, c.of_sequence, f.no_row);
  },
)

module _ (audit_memory book_memory : ℕ → Bool) where
  publish-IsTransaction :
      (next : Option ℕ) (state : SymbolState) (context : EventContext) (candidate : SymbolState)
      (book_result : BookApplyResult) (output : EventRowBatch) (result : EventProcessResult)
      → next ≡ checked_next_sequence state.sequence_number
      → IsCandidate state candidate
      → IsFresh output result
      → IsTransaction state context
          (publish audit_memory book_memory next state context candidate book_result output result)
  unfolding publish
  publish-IsTransaction Option.none state context candidate book_result output result e c f =
      inr (refl, refl, refl)
  publish-IsTransaction (some n) state context candidate book_result output result e c f =
      ground
        (arith, e, f.well, c.of_symbol.same_symbol, c.of_symbol.same_venue, c.of_symbol.same_id)

  process_depth-IsTransaction :
      (state : SymbolState) (context : EventContext) (event : SpotDepthEvent)
      (output : EventRowBatch) (result : EventProcessResult)
      → IsFresh output result
      → IsTransaction state context
          (process_depth audit_memory book_memory state context event output result)
  unfolding process_depth
  process_depth-IsTransaction state context event output result f =
      if_cases (IsTransaction state context) (emits_snapshot (with_candidate state context event).1)
        (λ _.
          publish-IsTransaction (checked_next_sequence state.sequence_number) state context _ _
            output _ refl (with_candidate-IsCandidate state context event)
            (record { well = f.well; no_row = f.no_row }))
        (λ _.
          committed state _ context output _ (with_candidate-IsCandidate state context event)
            (record { well = f.well; no_row = f.no_row }))

  process_parsed-IsTransaction :
      (kind : SpotStreamKind) (state : SymbolState) (context : EventContext)
      (parsed : SpotParseResult) (output : EventRowBatch) (result : EventProcessResult)
      → IsFresh output result
      → IsTransaction state context
          (process_parsed audit_memory book_memory kind state context parsed output result)
  unfolding process_parsed
  process_parsed-IsTransaction trade state context parsed output result f =
      committed state _ context output _
        (if_cases (IsCandidate state) (epoch_changed state context)
          (λ _. invalidate-IsCandidate state) (λ _. same-IsCandidate state))
        (record { well = f.well; no_row = f.no_row })
  process_parsed-IsTransaction depth5 state context parsed output result f =
      process_depth-IsTransaction state context parsed.event.depth output result f
  process_parsed-IsTransaction depth_diff state context parsed output result f =
      process_depth-IsTransaction state context parsed.event.depth output result f

  process_audited-IsTransaction :
      (state : SymbolState) (context : EventContext) (parsed : SpotParseResult)
      (output : EventRowBatch) (result : EventProcessResult)
      → IsFresh output result
      → IsTransaction state context
          (process_audited audit_memory book_memory state context parsed output result)
  unfolding process_audited
  process_audited-IsTransaction state context parsed output result f =
      if_cases (IsTransaction state context) (not (parsed_well parsed.error))
        (λ _.
          committed state _ context output _
            (if_cases (IsCandidate state)
              (epoch_changed state context || is_depth_diff context.stream_kind)
              (λ _. invalidate-IsCandidate state) (λ _. same-IsCandidate state))
            (record { well = f.well; no_row = f.no_row }))
        (λ _. process_parsed-IsTransaction context.stream_kind state context parsed output result f)

  process_eligible-IsTransaction :
      (state : SymbolState) (context : EventContext) (payload : PaddedJsonView)
      (mode : EventOutputMode) (parsed : SpotParseResult) (result : EventProcessResult)
      → success result ≡ true
      → IsTransaction state context
          (process_eligible audit_memory book_memory state context payload mode parsed result)
  unfolding process_eligible
  process_eligible-IsTransaction state context payload replay parsed result s =
      process_audited-IsTransaction state context parsed clear result
        (record { well = s; no_row = refl })
  process_eligible-IsTransaction state context payload live_capture parsed result s = ground (
    arith,
    s,
    process_audited-IsTransaction state context parsed
        (record clear {
          audit_row =
              some (format_market_data_csv_row audit_memory (market_data_row context payload)).1;
        })
        result (record { well = s; no_row = refl }),
  )

module _ (parse : PayloadVenue → SpotStreamKind → List ℕ → PaddedJsonView → SpotParseResult)
    (audit_memory book_memory : ℕ → Bool) where
  -- A call of `process` commits or rolls back. If it succeeds, the state is of the same symbol, its
  -- connection is the one of the event, and its sequence number has grown by one if the batch has a
  -- row for the book and is the same if not. If it fails, the state is the one before and the batch
  -- is empty.
  pub process-IsTransaction :
      (state : SymbolState) (context : EventContext) (payload : PaddedJsonView)
      (mode : EventOutputMode)
      → IsTransaction state context
          (process parse audit_memory book_memory state context payload mode)
  unfolding process
  process-IsTransaction state context payload mode =
      if_cases (IsTransaction state context) (not (context_is_valid state context))
        (λ _. inr (refl, refl, refl))
        (λ _.
          if_cases (IsTransaction state context)
            (not
              (audit_eligible (parse context.venue context.stream_kind state.symbol payload).error))
            (λ _.
              committed state _ context clear _
                (if_cases (IsCandidate state)
                  (epoch_changed state context || is_depth_diff context.stream_kind)
                  (λ _. invalidate-IsCandidate state) (λ _. same-IsCandidate state))
                (record { well = refl; no_row = refl }))
            (λ _.
              process_eligible-IsTransaction audit_memory book_memory state context payload mode
                (parse context.venue context.stream_kind state.symbol payload) _ refl))
