-- ===== src/Event/Sources.antt =====
-- src/event_processor.cpp: where the state that `process` leaves comes from.
use mathlib.Core.Option.{Option, some}
use ir_assignment.Prelude.{
  ℕ, ◌≡◌, refl, ap, List, inl, inr, Bool, true, false, not, ◌||◌, arith, if◌then◌else◌, Bool-cases,
  if_cases,
}
use ir_assignment.Payload.{
  PayloadVenue, SpotStreamKind, depth_diff, depth5, trade, SpotParseResult, PaddedJsonView,
}
use ir_assignment.Book.Core.{emits_snapshot}
use ir_assignment.Csv.Format.{format_market_data_csv_row, format_order_book_csv_row}
use ir_assignment.Event.{
  SymbolState, EventContext, EventRowBatch, EventProcessResult, EventOutputMode, live_capture,
  replay, Processed, success, clear, with_candidate, publish, process_depth, process_parsed,
  process_audited, process_eligible, process, context_is_valid, epoch_changed, is_depth_diff,
  is_trade, invalidate, commit_context, csv_ok, event_status, market_data_row, parsed_well,
  audit_eligible, order_book_row, checked_next_sequence,
}

-- The state behind a call: the old one; with the context only; with the context and the book
-- invalidated; or with the event applied to the book.
pub data Source (state : SymbolState) (context : EventContext) (parsed : SpotParseResult)
    (p : Processed) : Type 0 where
  kept : success p.result ≡ false → p.state ≡ state → Source state context parsed p
  skipped :
      epoch_changed state context ≡ false
      → is_depth_diff context.stream_kind ≡ false
      → p.state ≡ commit_context context state
      → Source state context parsed p
  dropped : p.state ≡ commit_context context (invalidate state) → Source state context parsed p
  applied :
      (sequence_number : ℕ)
      → parsed_well parsed.error ≡ true
      → is_trade context.stream_kind ≡ false
      → p.result.status ≡ event_status (with_candidate state context parsed.event.depth).1.status
      → p.state
        ≡ record (commit_context context (with_candidate state context parsed.event.depth).0) {
          sequence_number = sequence_number;
        }
      → Source state context parsed p

module _ (state : SymbolState) (context : EventContext) (parsed : SpotParseResult) where
  abbrev From : Processed → Type 0
  From = Source state context parsed

  From-rejected :
      (output : EventRowBatch) (result : EventProcessResult)
      → From (record {
        state = commit_context context (
            if epoch_changed state context || is_depth_diff context.stream_kind
            then invalidate state
            else state);
        output = output;
        result = result;
      })
  From-rejected output result =
      elim (Bool-cases (epoch_changed state context || is_depth_diff context.stream_kind)) [
        | inl b ↦ dropped (rw b refl)
        | inr b ↦ skipped (ground (arith, b)) (ground (arith, b)) (rw b refl)
      ]

  From-trade :
      (output : EventRowBatch) (result : EventProcessResult)
      → is_depth_diff context.stream_kind ≡ false
      → From (record {
        state =
            commit_context context
              (if epoch_changed state context then invalidate state else state);
        output = output;
        result = result;
      })
  From-trade output result d = elim (Bool-cases (epoch_changed state context)) [
    | inl b ↦ dropped (rw b refl)
    | inr b ↦ skipped b d (rw b refl)
  ]

  module _ (audit_memory book_memory : ℕ → Bool) where
    From-publish :
        (next : Option ℕ) (output : EventRowBatch) (result : EventProcessResult)
        → parsed_well parsed.error ≡ true
        → is_trade context.stream_kind ≡ false
        → result.status ≡ event_status (with_candidate state context parsed.event.depth).1.status
        → From (
            publish audit_memory book_memory next state context
              (with_candidate state context parsed.event.depth).0
              (with_candidate state context parsed.event.depth).1
              output
              result)
    unfolding publish
    From-publish Option.none output result w t s = kept refl refl
    From-publish (some n) output result w t s =
        let candidate = with_candidate state context parsed.event.depth in
        if_cases From
          (not (
            csv_ok
              (format_order_book_csv_row book_memory
                (order_book_row context candidate.0 n candidate.1)).0))
          (λ _. kept refl refl) (λ _. applied n w t s refl)

    From-depth :
        (output : EventRowBatch) (result : EventProcessResult)
        → parsed_well parsed.error ≡ true
        → is_trade context.stream_kind ≡ false
        → From
            (process_depth audit_memory book_memory state context parsed.event.depth output result)
    unfolding process_depth
    From-depth output result w t =
        if_cases From (emits_snapshot (with_candidate state context parsed.event.depth).1)
          (λ _. From-publish (checked_next_sequence state.sequence_number) output _ w t refl)
          (λ _.
            applied (with_candidate state context parsed.event.depth).0.sequence_number w t refl
              refl)

    From-parsed :
        (kind : SpotStreamKind) (output : EventRowBatch) (result : EventProcessResult)
        → context.stream_kind ≡ kind
        → parsed_well parsed.error ≡ true
        → From (process_parsed audit_memory book_memory kind state context parsed output result)
    unfolding process_parsed
    From-parsed trade output result e w = From-trade output _ (ap is_depth_diff e)
    From-parsed depth5 output result e w = From-depth output result w (ap is_trade e)
    From-parsed depth_diff output result e w = From-depth output result w (ap is_trade e)

    From-audited :
        (output : EventRowBatch) (result : EventProcessResult)
        → From (process_audited audit_memory book_memory state context parsed output result)
    unfolding process_audited
    From-audited output result =
        if_cases From (not (parsed_well parsed.error)) (λ _. From-rejected output _)
          (λ w. From-parsed context.stream_kind output result refl (ground (arith, w)))

    From-eligible :
        (payload : PaddedJsonView) (mode : EventOutputMode) (result : EventProcessResult)
        → From (process_eligible audit_memory book_memory state context payload mode parsed result)
    unfolding process_eligible
    From-eligible payload replay result = From-audited clear result
    From-eligible payload live_capture result =
        if_cases From
          (not
            (csv_ok (format_market_data_csv_row audit_memory (market_data_row context payload)).0))
          (λ _. kept refl refl) (λ _. From-audited _ result)

module _ (parse : PayloadVenue → SpotStreamKind → List ℕ → PaddedJsonView → SpotParseResult)
    (audit_memory book_memory : ℕ → Bool) where
  pub process-Source :
      (state : SymbolState) (context : EventContext) (payload : PaddedJsonView)
      (mode : EventOutputMode)
      → Source state context
          (parse context.venue context.stream_kind state.symbol payload)
          (process parse audit_memory book_memory state context payload mode)
  unfolding process
  process-Source state context payload mode =
      let parsed = parse context.venue context.stream_kind state.symbol payload in
      if_cases (From state context parsed) (not (context_is_valid state context))
        (λ _. kept refl refl)
        (λ _.
          if_cases (From state context parsed) (not (audit_eligible parsed.error))
            (λ _. From-rejected state context parsed clear _)
            (λ _. From-eligible state context parsed audit_memory book_memory payload mode _))
