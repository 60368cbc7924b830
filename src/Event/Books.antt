-- ===== src/Event/Books.antt =====
-- src/event_processor.cpp: the book of a symbol under `process`. What the parser promises of the
-- depth events that it returns is the hypothesis `IsParser`.
use mathlib.Core.Option.{some}
use ir_assignment.SymbolIdentity.{SymbolValidationError, derive_instrument_id}
use ir_assignment.SymbolIdentity
use ir_assignment.Prelude.{ℕ, ◌≡◌, refl, sym, ap, inl, inr, Bool, true, false, arith, List, [], ◌∷◌}
use ir_assignment.Payload.{
  PayloadVenue, spot, usdm, SpotStreamKind, depth_diff, depth5, trade, SpotParseResult,
  SpotParseError, SpotDepthEvent, PaddedJsonView,
}
use ir_assignment.Book.Core.Events.{IsRefresh, IsDiff}
use ir_assignment.Book.Core.Keeps.{IsBook, invalidate-IsBook, initial-IsBook}
use ir_assignment.Book.Spot.{SpotBookState}
use ir_assignment.Book.Spot.Sync
use ir_assignment.Book.Spot
use ir_assignment.Book.Usdm.{UsdmBookState}
use ir_assignment.Book.Usdm.Chain
use ir_assignment.Book.Usdm
use ir_assignment.Event.{
  SymbolState, EventContext, Processed, candidate_for, with_candidate, epoch_changed, is_trade,
  invalidate, parsed_well, spot_applied, usdm_applied, created, create,
}
use ir_assignment.Event.Context.{Call, call, final}
use ir_assignment.Event.Atomic.{IsSameSymbol, process-IsTransaction}
use ir_assignment.Event.Sources.{Source, kept, skipped, dropped, applied, process-Source}

abbrev pub Parse : Type 0
Parse = PayloadVenue → SpotStreamKind → List ℕ → PaddedJsonView → SpotParseResult

-- A depth event that the parser returns without an error is one that the book expects.
pub record IsParser (parse : Parse) : Type 0 where
  pub refreshes :
      (venue : PayloadVenue) (symbol : List ℕ) (payload : PaddedJsonView)
      → (parse venue depth5 symbol payload).error ≡ SpotParseError.none
      → IsRefresh (parse venue depth5 symbol payload).event.depth
  pub diffs :
      (venue : PayloadVenue) (symbol : List ℕ) (payload : PaddedJsonView)
      → (parse venue depth_diff symbol payload).error ≡ SpotParseError.none
      → IsDiff (parse venue depth_diff symbol payload).event.depth

-- The event is one that the book expects of the stream.
abbrev pub IsExpected : SpotStreamKind → SpotDepthEvent → Type 0
IsExpected depth5 e = IsRefresh e
IsExpected depth_diff e = IsDiff e
IsExpected trade e = ⊥

pub record HasBooks (state : SymbolState) : Type 0 where
  pub spot_kept : IsBook state.spot_book.book
  pub usdm_kept : IsBook state.usdm_book.book

spot_applied-IsBook :
    (s : SpotBookState) (changed : Bool) (kind : SpotStreamKind) (e : SpotDepthEvent)
    → IsBook s.book
    → IsExpected kind e
    → IsBook (spot_applied s changed kind e).0.book
spot_applied-IsBook s true depth5 e b x =
    Sync.apply_refresh-IsBook (Spot.invalidate s) e (invalidate-IsBook b) x
spot_applied-IsBook s false depth5 e b x = Sync.apply_refresh-IsBook s e b x
spot_applied-IsBook s true depth_diff e b x =
    Sync.apply_diff-IsBook (Spot.invalidate s) e (invalidate-IsBook b) x
spot_applied-IsBook s false depth_diff e b x = Sync.apply_diff-IsBook s e b x
spot_applied-IsBook s _ trade e b x = absurd x

usdm_applied-IsBook :
    (s : UsdmBookState) (changed : Bool) (kind : SpotStreamKind) (e : SpotDepthEvent)
    → IsBook s.book
    → IsExpected kind e
    → IsBook (usdm_applied s changed kind e).0.book
usdm_applied-IsBook s true depth5 e b x =
    Chain.apply_refresh-IsBook (Usdm.invalidate s) e (invalidate-IsBook b) x
usdm_applied-IsBook s false depth5 e b x = Chain.apply_refresh-IsBook s e b x
usdm_applied-IsBook s true depth_diff e b x =
    Chain.apply_diff-IsBook (Usdm.invalidate s) e (invalidate-IsBook b) x
usdm_applied-IsBook s false depth_diff e b x = Chain.apply_diff-IsBook s e b x
usdm_applied-IsBook s _ trade e b x = absurd x

candidate_for-HasBooks :
    (venue : PayloadVenue) (state : SymbolState) (changed : Bool) (kind : SpotStreamKind)
    (e : SpotDepthEvent)
    → HasBooks state
    → IsExpected kind e
    → HasBooks (candidate_for venue state changed kind e).0
unfolding candidate_for
candidate_for-HasBooks spot state changed kind e h x = record {
  spot_kept = spot_applied-IsBook state.spot_book changed kind e h.spot_kept x;
  usdm_kept = h.usdm_kept;
}
candidate_for-HasBooks usdm state changed kind e h x = record {
  spot_kept = h.spot_kept;
  usdm_kept = usdm_applied-IsBook state.usdm_book changed kind e h.usdm_kept x;
}

with_candidate-HasBooks :
    (state : SymbolState) (context : EventContext) (e : SpotDepthEvent)
    → HasBooks state
    → IsExpected context.stream_kind e
    → HasBooks (with_candidate state context e).0
unfolding with_candidate
with_candidate-HasBooks state context e h x =
    candidate_for-HasBooks context.venue state (epoch_changed state context) context.stream_kind e h
      x

invalidate_at :
    (venue : PayloadVenue) (state : SymbolState)
    → state.venue ≡ venue
    → HasBooks state
    → HasBooks (invalidate state)
invalidate_at spot state e h =
    rw e (record { spot_kept = invalidate-IsBook h.spot_kept; usdm_kept = h.usdm_kept })
invalidate_at usdm state e h =
    rw e (record { spot_kept = h.spot_kept; usdm_kept = invalidate-IsBook h.usdm_kept })

invalidate-HasBooks : (state : SymbolState) → HasBooks state → HasBooks (invalidate state)
invalidate-HasBooks state h = invalidate_at state.venue state refl h

-- The id is the one that the name gives, and the books are in order.
pub record IsWellFormed (state : SymbolState) : Type 0 where
  pub identified :
      derive_instrument_id state.symbol
      ≡ record { value = state.instrument_id; error = SymbolIdentity.none }
  pub books : HasBooks state

keep-IsWellFormed :
    (before after : SymbolState)
    → IsSameSymbol before after
    → IsWellFormed before
    → HasBooks after
    → IsWellFormed after
keep-IsWellFormed before after k w h = record {
  identified = rw (k.same_symbol, k.same_id) w.identified;
  books = h;
}

is_none_lem :
    (e : SymbolValidationError) → SymbolIdentity.is_none e ≡ true → e ≡ SymbolIdentity.none
is_none_lem e h = ground arith

created-IsWellFormed :
    (venue : PayloadVenue) (symbol : List ℕ)
    → SymbolIdentity.is_none (derive_instrument_id symbol).error ≡ true
    → IsWellFormed (created venue symbol (derive_instrument_id symbol).value)
created-IsWellFormed venue symbol h =
    let id = derive_instrument_id symbol in
    record {
      identified =
          ap (λ (e : SymbolValidationError). record { value = id.value; error = e })
            (is_none_lem id.error h);
      books = record { spot_kept = initial-IsBook; usdm_kept = initial-IsBook };
    }

create_lem :
    (venue : PayloadVenue) (symbol : List ℕ) (state : SymbolState)
    → create venue symbol ≡ some state
    → (SymbolIdentity.is_none (derive_instrument_id symbol).error ≡ true)
      × (created venue symbol (derive_instrument_id symbol).value ≡ state)
create_lem venue symbol state e = ground (arith, e)

create-IsWellFormed :
    (venue : PayloadVenue) (symbol : List ℕ) (state : SymbolState)
    → create venue symbol ≡ some state
    → IsWellFormed state
create-IsWellFormed venue symbol state e =
    let (valid, same) = create_lem venue symbol state e in
    rw (sym same) (created-IsWellFormed venue symbol valid)

parsed_well_lem : (error : SpotParseError) → parsed_well error ≡ true → error ≡ SpotParseError.none
parsed_well_lem error w = ground arith

module _ (parse : Parse) (good : IsParser parse) where
  expected :
      (venue : PayloadVenue) (kind : SpotStreamKind) (symbol : List ℕ) (payload : PaddedJsonView)
      → parsed_well (parse venue kind symbol payload).error ≡ true
      → is_trade kind ≡ false
      → IsExpected kind (parse venue kind symbol payload).event.depth
  expected venue depth5 symbol payload w t =
      good.refreshes venue symbol payload (parsed_well_lem _ w)
  expected venue depth_diff symbol payload w t =
      good.diffs venue symbol payload (parsed_well_lem _ w)
  expected venue trade symbol payload w t = cc

  left-HasBooks :
      (state : SymbolState) (context : EventContext) (payload : PaddedJsonView) (p : Processed)
      → Source state context (parse context.venue context.stream_kind state.symbol payload) p
      → HasBooks state
      → HasBooks p.state
  left-HasBooks state context payload p (kept _ e) h = rw e h
  left-HasBooks state context payload p (skipped _ _ e) h =
      rw e (record { spot_kept = h.spot_kept; usdm_kept = h.usdm_kept })
  left-HasBooks state context payload p (dropped e) h =
      let b = invalidate-HasBooks state h in
      rw e (record { spot_kept = b.spot_kept; usdm_kept = b.usdm_kept })
  left-HasBooks state context payload p (applied n w t _ e) h =
      let b =
        with_candidate-HasBooks state context _ h
          (expected context.venue context.stream_kind state.symbol payload w t) in
      rw e (record { spot_kept = b.spot_kept; usdm_kept = b.usdm_kept })

  module _ (audit_memory book_memory : ℕ → Bool) where
    call-IsWellFormed :
        (state : SymbolState) (c : Call)
        → IsWellFormed state
        → IsWellFormed (call parse audit_memory book_memory state c).state
    call-IsWellFormed state c w =
        let h =
          left-HasBooks state c.context c.payload _
            (process-Source parse audit_memory book_memory state c.context c.payload c.mode)
            w.books in
        elim (process-IsTransaction parse audit_memory book_memory state c.context c.payload
          c.mode) [
            | inl (_, k) ↦ keep-IsWellFormed state _ k.symbol_kept w h
            | inr (_, same, _) ↦ rw same w
          ]

    final-IsWellFormed :
        (state : SymbolState) (calls : List Call)
        → IsWellFormed state
        → IsWellFormed (final parse audit_memory book_memory state calls)
    final-IsWellFormed state [] w = w
    final-IsWellFormed state (c ∷ calls) w =
        final-IsWellFormed (call parse audit_memory book_memory state c).state calls
          (call-IsWellFormed state c w)

    -- Whatever sequence of calls is made on a state that `create` returns, the state keeps the id of
    -- its name, and both of its books are stored in five slots a side, positive and best first, and
    -- not crossed if valid. The parser is one whose depth events are as the books expect them.
    pub process-IsWellFormed :
        (venue : PayloadVenue) (symbol : List ℕ) (state : SymbolState) (calls : List Call)
        → create venue symbol ≡ some state
        → IsWellFormed (final parse audit_memory book_memory state calls)
    process-IsWellFormed venue symbol state calls e =
        final-IsWellFormed state calls (create-IsWellFormed venue symbol state e)
