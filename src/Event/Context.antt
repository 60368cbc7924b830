-- ===== src/Event/Context.antt =====
-- src/event_processor.cpp: the events of one symbol, in the order in which they are handed to
-- `process`, each on the state that the one before left.
use ir_assignment.Prelude.{
  ℕ, ◌+◌, ◌<◌, ◌≡◌, sym, ◌∙◌, ap, ◌⊎◌, inl, inr, Bool, true, arith, if◌then◌else◌, Bool-cases,
  if_cases, true_ne_false, List, [], ◌∷◌, All, All-map,
}
use ir_assignment.Payload.{PayloadVenue, SpotStreamKind, SpotParseResult, PaddedJsonView}
use ir_assignment.Event.{
  SymbolState, EventContext, EventOutputMode, Processed, success, clear, process, context_is_valid,
}
use ir_assignment.Event.Atomic.{book_rows, IsCommit, process-IsTransaction}

pub record Call : Type 0 where
  pub context : EventContext
  pub payload : PaddedJsonView
  pub mode : EventOutputMode

-- An epoch and a sequence in it come before others.
abbrev pub IsBefore : ℕ → ℕ → ℕ → ℕ → Type 0
IsBefore e q epoch sequence = (e < epoch) ⊎ (e ≡ epoch) × (q < sequence)

abbrev pub IsBeforeContext : EventContext → EventContext → Type 0
IsBeforeContext x y =
    IsBefore x.connection_epoch x.connection_sequence y.connection_epoch y.connection_sequence

-- The context is behind the last one that the state has seen.
abbrev pub IsBehind : SymbolState → EventContext → Type 0
IsBehind state context =
    state.has_observed_connection ≡ true
    → IsBefore state.current_connection_epoch state.last_connection_sequence
        context.connection_epoch context.connection_sequence

-- Each context comes before all behind it.
abbrev pub IsInOrder : List EventContext → Type 0
IsInOrder [] = Unit
IsInOrder (x ∷ xs) = All (IsBeforeContext x) xs × IsInOrder xs

pub IsBefore-trans : (a b c d e f : ℕ) → IsBefore a b c d → IsBefore c d e f → IsBefore a b e f
IsBefore-trans a b c d e f h k = ground arith

context_is_valid-IsBehind :
    (state : SymbolState) (context : EventContext)
    → context_is_valid state context ≡ true
    → IsBehind state context
unfolding context_is_valid
context_is_valid-IsBehind state context v o = ground arith

commit-IsBefore :
    (state : SymbolState) (context : EventContext) (p : Processed) (later : EventContext)
    → IsCommit state context p
    → IsBehind p.state later
    → IsBeforeContext context later
commit-IsBefore state context p later k h = rw (sym k.epoch, sym k.sequence) (h k.observed)

same-IsBehind :
    (before after : SymbolState) (context : EventContext)
    → after ≡ before
    → IsBehind after context
    → IsBehind before context
same-IsBehind before after context e h = rw (sym e) h

rollback_counts :
    (state : SymbolState) (p : Processed)
    → p.state ≡ state
    → p.output ≡ clear
    → p.state.sequence_number ≡ state.sequence_number + book_rows p.output
rollback_counts state p same e =
    omega (arith, ap (λ (s : SymbolState). s.sequence_number) same, ap book_rows e)

module _ (parse : PayloadVenue → SpotStreamKind → List ℕ → PaddedJsonView → SpotParseResult)
    (audit_memory book_memory : ℕ → Bool) where
  abbrev pub call : SymbolState → Call → Processed
  call state c = process parse audit_memory book_memory state c.context c.payload c.mode

  -- The state behind a list of calls.
  abbrev pub final : SymbolState → List Call → SymbolState
  final state [] = state
  final state (c ∷ calls) = final (call state c).state calls

  -- The contexts of the calls that succeed.
  abbrev pub accepted : SymbolState → List Call → List EventContext
  accepted state [] = []
  accepted state (c ∷ calls) =
      if success (call state c).result
      then c.context ∷ accepted (call state c).state calls
      else accepted (call state c).state calls

  -- The rows that the calls emit for the file of the book.
  abbrev pub rows : SymbolState → List Call → ℕ
  rows state [] = 0
  rows state (c ∷ calls) = book_rows (call state c).output + rows (call state c).state calls

  pub success-context_is_valid :
      (state : SymbolState) (context : EventContext) (payload : PaddedJsonView)
      (mode : EventOutputMode)
      → success (process parse audit_memory book_memory state context payload mode).result ≡ true
      → context_is_valid state context ≡ true
  unfolding process
  success-context_is_valid state context payload mode h =
      elim (Bool-cases (context_is_valid state context)) [ inl v ↦ v | inr w ↦ cc ]

  earlier-IsBehind :
      (state : SymbolState) (c : Call) (context : EventContext)
      → IsBehind (call state c).state context
      → IsBehind state context
  earlier-IsBehind state c context h o =
      elim (process-IsTransaction parse audit_memory book_memory state c.context c.payload c.mode) [
        | inl (s, k) ↦
            IsBefore-trans _ _ _ _ _ _
              (context_is_valid-IsBehind state c.context
                (success-context_is_valid state c.context c.payload c.mode s) o)
              (commit-IsBefore state c.context (call state c) context k h)
        | inr (s, same, e) ↦ same-IsBehind state (call state c).state context same h o
      ]

  accepted-IsBehind :
      (state : SymbolState) (calls : List Call) → All (IsBehind state) (accepted state calls)
  accepted-IsBehind state [] = tt
  accepted-IsBehind state (c ∷ calls) =
      let later =
        All-map (earlier-IsBehind state c) _ (accepted-IsBehind (call state c).state calls) in
      if_cases (All (IsBehind state)) (success (call state c).result)
        (λ s. (
          context_is_valid-IsBehind state c.context
              (success-context_is_valid state c.context c.payload c.mode s),
          later,
        ))
        (λ _. later)

  success-IsCommit :
      (state : SymbolState) (c : Call)
      → success (call state c).result ≡ true
      → IsCommit state c.context (call state c)
  success-IsCommit state c s =
      elim (process-IsTransaction parse audit_memory book_memory state c.context c.payload c.mode) [
        | inl (_, k) ↦ k
        | inr (f, _, _) ↦ absurd (true_ne_false (sym s ∙ f))
      ]

  -- The events that `process` accepts from any sequence of calls are in order: each has a later epoch
  -- than those before it, or the same epoch and a larger connection sequence.
  pub process-IsInOrder :
      (state : SymbolState) (calls : List Call) → IsInOrder (accepted state calls)
  process-IsInOrder state [] = tt
  process-IsInOrder state (c ∷ calls) =
      let later = process-IsInOrder (call state c).state calls in
      if_cases IsInOrder (success (call state c).result)
        (λ s. (
          All-map
              (λ context.
                commit-IsBefore state c.context (call state c) context (success-IsCommit state c s))
              _ (accepted-IsBehind (call state c).state calls),
          later,
        ))
        (λ _. later)

  call_counts :
      (state : SymbolState) (c : Call)
      → (call state c).state.sequence_number
        ≡ state.sequence_number + book_rows (call state c).output
  call_counts state c =
      elim (process-IsTransaction parse audit_memory book_memory state c.context c.payload c.mode) [
        | inl (_, k) ↦ k.counted
        | inr (_, same, e) ↦ rollback_counts state (call state c) same e
      ]

  -- After any sequence of calls the sequence number has grown by the number of rows that the calls
  -- emitted for the file of the book, whatever calls failed, were ignored, or changed the epoch.
  pub process_counts_rows :
      (state : SymbolState) (calls : List Call)
      → (final state calls).sequence_number ≡ state.sequence_number + rows state calls
  process_counts_rows state [] = omega arith
  process_counts_rows state (c ∷ calls) =
      omega (arith, call_counts state c, process_counts_rows (call state c).state calls)
