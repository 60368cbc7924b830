-- ===== src/Event/Reconnect.antt =====
-- src/event_processor.cpp: a new connection, and a diff that is refused, end the use of a book.
use ir_assignment.Prelude.{ℕ, ◌≡◌, refl, sym, ap, ◌∙◌, inl, inr, ◌⊎◌, Bool, true, false, arith}
use ir_assignment.Payload.{
  PayloadVenue, spot, usdm, SpotStreamKind, SpotParseResult, SpotDepthEvent, PaddedJsonView,
}
use ir_assignment.Book.Core.{Core, applied_refresh}
use ir_assignment.Book.Core
use ir_assignment.Book.Spot.{SpotBookState}
use ir_assignment.Book.Spot
use ir_assignment.Book.Usdm.{UsdmBookState}
use ir_assignment.Book.Usdm
use ir_assignment.Event.{
  SymbolState, EventContext, EventProcessStatus, EventOutputMode, Processed, success, candidate_for,
  with_candidate, process, epoch_changed, is_depth_diff, invalidate, event_status, parsed_well,
  spot_applied, usdm_applied, book_valid, same_venue, context_is_valid,
}
use ir_assignment.Event.Context.{success-context_is_valid}
use ir_assignment.Event.Sources.{Source, kept, skipped, dropped, applied, process-Source}
use ir_assignment.Event.Books.{Parse}

-- What is left of a book where the epoch has changed.
spot_applied-reset :
    (s : SpotBookState) (kind : SpotStreamKind) (e : SpotDepthEvent)
    → (spot_applied s true kind e).0.book.valid ≡ false
      ⊎ ((spot_applied s true kind e).1.status ≡ applied_refresh)
unfolding Spot.apply_refresh Spot.apply_diff Core.apply_refresh
spot_applied-reset s kind e = ground arith

usdm_applied-reset :
    (s : UsdmBookState) (kind : SpotStreamKind) (e : SpotDepthEvent)
    → (usdm_applied s true kind e).0.book.valid ≡ false
      ⊎ ((usdm_applied s true kind e).1.status ≡ applied_refresh)
unfolding Usdm.apply_refresh Usdm.apply_diff Core.apply_refresh
usdm_applied-reset s kind e = ground arith

same_venue_lem : (v w : PayloadVenue) → same_venue v w ≡ true → v ≡ w
same_venue_lem spot spot e = refl
same_venue_lem usdm usdm e = refl
same_venue_lem spot usdm e = cc
same_venue_lem usdm spot e = cc

-- The venue of the event is the state's.
context_is_valid-venue :
    (state : SymbolState) (context : EventContext)
    → context_is_valid state context ≡ true
    → context.venue ≡ state.venue
unfolding context_is_valid
context_is_valid-venue state context v =
    same_venue_lem context.venue state.venue (ground (arith, v))

invalidate-reset :
    (venue : PayloadVenue) (state : SymbolState)
    → state.venue ≡ venue
    → book_valid (invalidate state) ≡ false
invalidate-reset spot state e = rw e refl
invalidate-reset usdm state e = rw e refl

candidate_for-reset :
    (venue : PayloadVenue) (state : SymbolState) (kind : SpotStreamKind) (e : SpotDepthEvent)
    → state.venue ≡ venue
    → book_valid (candidate_for venue state true kind e).0 ≡ false
      ⊎ ((candidate_for venue state true kind e).1.status ≡ applied_refresh)
unfolding candidate_for
candidate_for-reset spot state kind e v = rw v (spot_applied-reset state.spot_book kind e)
candidate_for-reset usdm state kind e v = rw v (usdm_applied-reset state.usdm_book kind e)

with_candidate-reset :
    (state : SymbolState) (context : EventContext) (e : SpotDepthEvent)
    → context.venue ≡ state.venue
    → epoch_changed state context ≡ true
    → book_valid (with_candidate state context e).0 ≡ false
      ⊎ ((with_candidate state context e).1.status ≡ applied_refresh)
unfolding with_candidate
with_candidate-reset state context e v new =
    rw new (candidate_for-reset context.venue state context.stream_kind e (sym v))

left_reset :
    (state : SymbolState) (context : EventContext) (parsed : SpotParseResult) (p : Processed)
    → Source state context parsed p
    → epoch_changed state context ≡ true
    → context.venue ≡ state.venue
    → success p.result ≡ true
    → book_valid p.state ≡ false ⊎ (p.result.status ≡ EventProcessStatus.applied_refresh)
left_reset state context parsed p (kept f _) new v s = cc
left_reset state context parsed p (skipped old _ _) new v s = cc
left_reset state context parsed p (dropped e) new v s =
    inl (ap book_valid e ∙ invalidate-reset state.venue state refl)
left_reset state context parsed p (applied n _ _ status e) new v s =
    elim (with_candidate-reset state context parsed.event.depth v new) [
      | inl dead ↦ inl (ap book_valid e ∙ dead)
      | inr refreshed ↦ inr (status ∙ ap event_status refreshed)
    ]

left_refused :
    (state : SymbolState) (context : EventContext) (parsed : SpotParseResult) (p : Processed)
    → Source state context parsed p
    → is_depth_diff context.stream_kind ≡ true
    → parsed_well parsed.error ≡ false
    → success p.result ≡ true
    → book_valid p.state ≡ false
left_refused state context parsed p (kept f _) d w s = cc
left_refused state context parsed p (skipped _ other _) d w s = cc
left_refused state context parsed p (dropped e) d w s =
    ap book_valid e ∙ invalidate-reset state.venue state refl
left_refused state context parsed p (applied _ well _ _ _) d w s = cc

module _ (parse : Parse) (audit_memory book_memory : ℕ → Bool) where
  -- After a successful call on an event of a new connection epoch, the book is not valid, unless the
  -- event is a refresh that was applied.
  pub reconnect_lem :
      (state : SymbolState) (context : EventContext) (payload : PaddedJsonView)
      (mode : EventOutputMode)
      → epoch_changed state context ≡ true
      → success (process parse audit_memory book_memory state context payload mode).result ≡ true
      → book_valid (process parse audit_memory book_memory state context payload mode).state ≡ false
        ⊎ ((process parse audit_memory book_memory state context payload mode).result.status
            ≡ EventProcessStatus.applied_refresh)
  reconnect_lem state context payload mode new s =
      left_reset state context _ _
        (process-Source parse audit_memory book_memory state context payload mode) new
        (context_is_valid-venue state context
          (success-context_is_valid parse audit_memory book_memory state context payload mode s))
        s

  -- After a successful call on a diff that the parser refuses, the book is not valid.
  pub refused_diff_lem :
      (state : SymbolState) (context : EventContext) (payload : PaddedJsonView)
      (mode : EventOutputMode)
      → is_depth_diff context.stream_kind ≡ true
      → parsed_well (parse context.venue context.stream_kind state.symbol payload).error ≡ false
      → success (process parse audit_memory book_memory state context payload mode).result ≡ true
      → book_valid (process parse audit_memory book_memory state context payload mode).state ≡ false
  refused_diff_lem state context payload mode d f s =
      left_refused state context _ _
        (process-Source parse audit_memory book_memory state context payload mode) d f s
