-- ===== src/Replay/Order.antt =====
-- src/market_data_replay.cpp: `next`, called again and again on one reader.
use mathlib.Core.Option.{Option, some}
use ir_assignment.Prelude.{
  ℕ, zero, suc, ◌≡◌, refl, sym, ap, ◌∙◌, true, arith, List, [], ◌∷◌, All, All-map, if_cases,
}
use ir_assignment.SymbolIdentity.{bytes_equal}
use ir_assignment.Event.{EventContext, same_venue}
use ir_assignment.Event.Context.{IsBefore, IsBefore-trans, IsBeforeContext, IsInOrder}
use ir_assignment.Replay.{
  Checked, good, bad, FileIdentity, identity_of, validate_file_sequence, MarketDataReplayReader,
  ReplayReadResult, ReplayRecord, ReplayReadError, ReplayReadStatus, a_record, next, accept,
  accept_in_order, next_of, next_after, at_end, failed, decode_record, read_logical_record,
  LogicalRead, framed,
}

-- The context is of the file, and behind the file's last record.
pub record IsNext (file : FileIdentity) (context : EventContext) : Type 0 where
  pub venue_kept : same_venue context.venue file.file_venue ≡ true
  pub symbol_kept : bytes_equal context.symbol file.file_symbol ≡ true
  pub after :
      IsBefore file.last_connection_epoch file.last_connection_sequence context.connection_epoch
        context.connection_sequence

-- What the file has become with the context.
abbrev pub moved : FileIdentity → EventContext → FileIdentity
moved file context = record file {
  last_connection_epoch = context.connection_epoch;
  last_connection_sequence = context.connection_sequence;
}

validate_file_sequence-IsNext :
    (file : FileIdentity) (context : EventContext) (after : FileIdentity)
    → validate_file_sequence (some file) context ≡ good after
    → IsNext file context × (after ≡ moved file context)
unfolding validate_file_sequence
validate_file_sequence-IsNext file context after e = ground (arith, e)

-- What a call of `next` does to the file's identity and to what is read: nothing, or one record.
pub data Read (before after : MarketDataReplayReader) (result : ReplayReadResult) : Type 0 where
  nothing_read :
      after.file ≡ before.file → (result.status ≡ a_record → ⊥) → Read before after result
  one_read :
      (decoded : ReplayRecord) (file : FileIdentity)
      → validate_file_sequence before.file decoded.context ≡ good file
      → result.status ≡ a_record
      → after.file ≡ some file
      → after.current ≡ some decoded
      → Read before after result

module _ (before : MarketDataReplayReader) where
  accept_in_order-Read :
      (reader : MarketDataReplayReader) (decoded : ReplayRecord) (checked : Checked FileIdentity)
      → reader.file ≡ before.file
      → validate_file_sequence before.file decoded.context ≡ checked
      → Read before
          (accept_in_order reader decoded checked).0
          (accept_in_order reader decoded checked).1
  accept_in_order-Read reader decoded (bad code column) f e = nothing_read f (λ s. cc)
  accept_in_order-Read reader decoded (good file) f e = one_read decoded file e refl refl refl

  accept-Read :
      (reader : MarketDataReplayReader) (checked : Checked ReplayRecord)
      → reader.file ≡ before.file
      → Read before (accept reader checked).0 (accept reader checked).1
  accept-Read reader (bad code column) f = nothing_read f (λ s. cc)
  accept-Read reader (good decoded) f =
      accept_in_order-Read reader decoded _ f
        (ap (λ file. validate_file_sequence file decoded.context) (sym f))

  next_of-Read : (read : LogicalRead) → Read before (next_of before read).0 (next_of before read).1
  next_of-Read at_end = nothing_read refl (λ s. cc)
  next_of-Read (failed code native_error) = nothing_read refl (λ s. cc)
  next_of-Read (framed bytes input) =
      accept-Read (record before { input = input }) (decode_record bytes) refl

next_after-Read :
    (e : Option ReplayReadError) (reader : MarketDataReplayReader)
    → Read reader (next_after e reader).0 (next_after e reader).1
next_after-Read (some e) reader = nothing_read refl (λ s. cc)
next_after-Read Option.none reader =
    if_cases (λ (x : MarketDataReplayReader × ReplayReadResult). Read reader x.0 x.1) reader.ended
      (λ _. nothing_read refl (λ s. cc))
      (λ _. next_of-Read reader (read_logical_record reader.broken reader.input))

next-Read : (reader : MarketDataReplayReader) → Read reader (next reader).0 (next reader).1
unfolding next
next-Read reader = next_after-Read reader.first_error reader

-- The context that a call leaves, in front of those behind it.
abbrev in_front : ReplayReadStatus → Option ReplayRecord → List EventContext → List EventContext
in_front a_record (some r) rest = r.context ∷ rest
in_front _ _ rest = rest

-- The contexts that `count` calls of `next` read.
abbrev pub contexts : ℕ → MarketDataReplayReader → List EventContext
contexts zero reader = []
contexts (suc count) reader =
    let (after, result) = next reader in in_front result.status after.current (contexts count after)

module _ (file : FileIdentity) where
  IsNext-trans : (x y : EventContext) → IsNext file x → IsNext (moved file x) y → IsNext file y
  IsNext-trans x y h k = record {
    venue_kept = k.venue_kept;
    symbol_kept = k.symbol_kept;
    after = IsBefore-trans _ _ _ _ _ _ h.after k.after;
  }

-- The contexts are of one file, and in order.
abbrev pub IsOneFile : List EventContext → Type 0
IsOneFile [] = Unit
IsOneFile (x ∷ xs) = All (IsNext (identity_of x)) xs

-- What comes out of one call, and of the calls behind it.
data CallEffect (count : ℕ) (reader : MarketDataReplayReader) : Type 0 where
  no_more :
      (next reader).0.file ≡ reader.file
      → contexts (suc count) reader ≡ contexts count (next reader).0
      → CallEffect count reader
  one_more :
      (x : EventContext) (file : FileIdentity)
      → validate_file_sequence reader.file x ≡ good file
      → (next reader).0.file ≡ some file
      → contexts (suc count) reader ≡ x ∷ contexts count (next reader).0
      → CallEffect count reader

next-CallEffect : (count : ℕ) (reader : MarketDataReplayReader) → CallEffect count reader
next-CallEffect count reader =
    let rest = contexts count (next reader).0 in
    elim (next-Read reader) [
      | nothing_read f s ↦ no_more f (ground (arith, s))
      | one_read decoded file v s f c ↦ one_more decoded.context file v f (
          ap (λ (t : ReplayReadStatus). in_front t (next reader).0.current rest) s
          ∙ ap (λ (o : Option ReplayRecord). in_front a_record o rest) c)
    ]

behind_file :
    (count : ℕ) (reader : MarketDataReplayReader) (file : FileIdentity)
    → reader.file ≡ some file
    → All (IsNext file) (contexts count reader)
behind_file zero reader file e = tt
behind_file (suc count) reader file e = elim (next-CallEffect count reader) [
  | no_more f s ↦ rw s (behind_file count (next reader).0 file (f ∙ e))
  | one_more x after v f s ↦
      let (n, m) =
        validate_file_sequence-IsNext file x after
          (ap (λ (o : Option FileIdentity). validate_file_sequence o x) (sym e) ∙ v) in
      rw s (
        n,
        All-map (λ y. IsNext-trans file x y n) _
            (behind_file count (next reader).0 (moved file x) (f ∙ ap some m)),
      )
]

validated_position :
    (file : Option FileIdentity) (x : EventContext) (after : FileIdentity)
    → validate_file_sequence file x ≡ good after
    → (after.last_connection_epoch ≡ x.connection_epoch)
      × (after.last_connection_sequence ≡ x.connection_sequence)
unfolding validate_file_sequence
validated_position Option.none x after v = ground (arith, v)
validated_position (some file) x after v = ground (arith, v)

next-IsBeforeContext :
    (file : Option FileIdentity) (x : EventContext) (after : FileIdentity) (y : EventContext)
    → validate_file_sequence file x ≡ good after
    → IsNext after y
    → IsBeforeContext x y
next-IsBeforeContext file x after y v n =
    let (epoch, sequence) = validated_position file x after v in
    rw (sym epoch, sym sequence) n.after

first_identity :
    (x : EventContext) (after : FileIdentity)
    → validate_file_sequence Option.none x ≡ good after
    → after ≡ identity_of x
unfolding validate_file_sequence
first_identity x after v = ground (arith, v)

contexts-IsOneFile :
    (count : ℕ) (reader : MarketDataReplayReader)
    → reader.file ≡ Option.none
    → IsOneFile (contexts count reader)
contexts-IsOneFile zero reader e = tt
contexts-IsOneFile (suc count) reader e = elim (next-CallEffect count reader) [
  | no_more f s ↦ rw s (contexts-IsOneFile count (next reader).0 (f ∙ e))
  | one_more x after v f s ↦
      let first =
        first_identity x after
          (ap (λ (o : Option FileIdentity). validate_file_sequence o x) (sym e) ∙ v) in
      rw s (behind_file count (next reader).0 (identity_of x) (f ∙ ap some first))
]

contexts-IsInOrder :
    (count : ℕ) (reader : MarketDataReplayReader) → IsInOrder (contexts count reader)
contexts-IsInOrder zero reader = tt
contexts-IsInOrder (suc count) reader = elim (next-CallEffect count reader) [
  | no_more f s ↦ rw s (contexts-IsInOrder count (next reader).0)
  | one_more x after v f s ↦ rw s (
    All-map (λ y n. next-IsBeforeContext reader.file x after y v n) _
        (behind_file count (next reader).0 after f),
    contexts-IsInOrder count (next reader).0,
  )
]

-- The records that `next` reads from a file, however often it is called, are of one venue and of one
-- symbol, and each has a later epoch than those before it, or the same epoch and a larger connection
-- sequence. The reader is one that has read no record yet.
pub contexts_share_file :
    (count : ℕ) (reader : MarketDataReplayReader)
    → reader.file ≡ Option.none
    → IsOneFile (contexts count reader) × IsInOrder (contexts count reader)
contexts_share_file count reader e =
    (contexts-IsOneFile count reader e, contexts-IsInOrder count reader)
