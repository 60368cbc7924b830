-- ===== src/Replay/Lines.antt =====
-- src/csv_formatter.cpp, src/market_data_replay.cpp: how `read_logical_record` frames a written row.
use mathlib.Core.Path.{subst}
use mathlib.Core.Option.{Option, some}
use ir_assignment.Prelude.{
  ℕ, ◌+◌, ◌≤◌, ◌≡◌, refl, ap, ◌∙◌, Bool, false, arith, ◌==◌, List, [], ◌∷◌, ◌++◌, length,
  length-append, All, Bool-cases, inl, inr,
}
use ir_assignment.Csv.Numbers.{pos, print_int}
use ir_assignment.Csv.Limit.{IsWithin, append_pieces-IsWithin}
use ir_assignment.Csv.Format.{
  CsvFormatError, MarketDataCsvRow, max_csv_record_bytes, quoted, market_data_pieces, venue_text,
  stream_kind_text, format_market_data_csv_row,
}
use ir_assignment.Replay.{
  framed, CsvFrameState, field_start, unquoted, quoted, quote_closed, Frame, goes_on, complete,
  malformed, frame, read_from, read_logical_record,
}
use ir_assignment.Replay.Framing.{append-one}
use ir_assignment.Replay.Quoting.{escape, append-nil, append_assoc}
use ir_assignment.Replay.Rows.{row_text, row_pieces, formatted}
use ir_assignment.Replay.Rows.Texts.{
  IsPlain, pieces_written, print_int-IsPlain, symbol-IsPlain, venue_text-IsPlain,
  stream_kind_text-IsPlain,
}

-- The state behind some bytes that do not end the record.
abbrev state_behind : CsvFrameState → List ℕ → Option CsvFrameState
state_behind state [] = some state
state_behind state (c ∷ s) = elim (frame state c) [
  | goes_on next ↦ state_behind next s
  | complete ↦ Option.none
  | malformed ↦ Option.none
]

field_behind :
    (field rest : List ℕ)
    → All IsPlain field
    → state_behind unquoted (field ++ (b',' ∷ rest)) ≡ state_behind field_start rest
unfolding frame
field_behind [] rest h = refl
field_behind (c ∷ field) rest (p, h) = ground (arith, p, field_behind field rest h)

field_from_start :
    (field rest : List ℕ)
    → All IsPlain field
    → state_behind field_start (field ++ (b',' ∷ rest)) ≡ state_behind field_start rest
unfolding frame
field_from_start [] rest h = refl
field_from_start (c ∷ field) rest (p, h) = ground (arith, p, field_behind field rest h)

quoted_behind :
    (c : ℕ) (rest : List ℕ)
    → (c == b'"') ≡ false
    → state_behind quoted (c ∷ rest) ≡ state_behind quoted rest
unfolding frame
quoted_behind c rest p = ground (arith, p)

escape_behind :
    (s rest : List ℕ) → state_behind quoted (escape s ++ rest) ≡ state_behind quoted rest
unfolding frame
escape_behind [] rest = refl
escape_behind (c ∷ s) rest = elim (Bool-cases (c == b'"')) [
  | inl q ↦ rw q (escape_behind s rest)
  | inr p ↦ rw p (quoted_behind c (escape s ++ rest) p ∙ escape_behind s rest)
]

row_behind :
    (row : MarketDataCsvRow)
    → All IsPlain row.symbol
    → state_behind field_start (row_text row) ≡ some quote_closed
unfolding frame
row_behind row symbol =
    field_from_start (print_int row.timestamp.seconds) _ (print_int-IsPlain row.timestamp.seconds)
    ∙ field_from_start (print_int row.timestamp.nanoseconds) _
        (print_int-IsPlain row.timestamp.nanoseconds)
    ∙ field_from_start (venue_text row.venue) _ (venue_text-IsPlain row.venue)
    ∙ field_from_start (stream_kind_text row.stream_kind) _
        (stream_kind_text-IsPlain row.stream_kind)
    ∙ field_from_start (print_int (pos row.shard_id)) _ (print_int-IsPlain (pos row.shard_id))
    ∙ field_from_start (print_int (pos row.connection_epoch)) _
        (print_int-IsPlain (pos row.connection_epoch))
    ∙ field_from_start (print_int (pos row.connection_sequence)) _
        (print_int-IsPlain (pos row.connection_sequence))
    ∙ field_from_start row.symbol _ symbol
    ∙ escape_behind row.payload_json (b'"' ∷ [])

goes_on_behind :
    (f : Frame) (s : List ℕ) (last : CsvFrameState)
    → (elim f [
      | goes_on next ↦ state_behind next s
      | complete ↦ Option.none
      | malformed ↦ Option.none
    ])
      ≡ some last
    → (next : CsvFrameState) × (f ≡ goes_on next) × (state_behind next s ≡ some last)
goes_on_behind (goes_on next) s last e = (next, refl, e)
goes_on_behind complete s last e = cc
goes_on_behind malformed s last e = cc

read_from-goes_on :
    (broken : Option ℕ) (state next : CsvFrameState) (front : List ℕ) (c : ℕ) (input : List ℕ)
    → frame state c ≡ goes_on next
    → (length front == max_csv_record_bytes) ≡ false
    → read_from broken state front (c ∷ input) ≡ read_from broken next (front ++ (c ∷ [])) input
unfolding read_from
read_from-goes_on broken state next front c input e room = ground (arith, room, e)

below_limit :
    (front : List ℕ) (k : ℕ)
    → length front + (k + 1) ≤ max_csv_record_bytes
    → (length front == max_csv_record_bytes) ≡ false
below_limit front k h = ground (arith, h)

-- Bytes that do not end a record are read, where they and the bytes in front have room.
read_from-state_behind :
    (broken : Option ℕ) (state last : CsvFrameState) (front s input : List ℕ)
    → state_behind state s ≡ some last
    → length front + length s ≤ max_csv_record_bytes
    → read_from broken state front (s ++ input) ≡ read_from broken last (front ++ s) input
read_from-state_behind broken state last front [] input e h = ground (arith, append-nil front, e)
read_from-state_behind broken state last front (c ∷ s) input e h =
    let (next, step, rest) = goes_on_behind (frame state c) s last e in
    read_from-goes_on broken state next front c (s ++ input) step
      (below_limit front (length s) (omega (arith, h)))
    ∙ read_from-state_behind broken next last (front ++ (c ∷ [])) s input rest
        (omega (arith, h, length-append front (c ∷ [])))
    ∙ ap (λ t. read_from broken last t input) (append_assoc front (c ∷ []) s)

-- The byte that completes a record.
read_from_complete :
    (broken : Option ℕ) (front input : List ℕ)
    → length front + 1 ≤ max_csv_record_bytes
    → read_from broken quote_closed front (b'\n' ∷ input) ≡ framed (front ++ (b'\n' ∷ [])) input
unfolding read_from frame
read_from_complete broken front input h = ground (arith, h)

row_framed :
    (broken : Option ℕ) (row : MarketDataCsvRow) (rest : List ℕ)
    → All IsPlain row.symbol
    → length (row_text row ++ (b'\n' ∷ [])) ≤ max_csv_record_bytes
    → read_from broken field_start [] ((row_text row ++ (b'\n' ∷ [])) ++ rest)
      ≡ framed (row_text row ++ (b'\n' ∷ [])) rest
row_framed broken row rest symbol within =
    let short : length (row_text row) + 1 ≤ max_csv_record_bytes =
      omega (arith, within, length-append (row_text row) (b'\n' ∷ [])) in
    ap (read_from broken field_start []) (append-one (row_text row) b'\n' rest)
    ∙ read_from-state_behind broken field_start quote_closed [] (row_text row) (b'\n' ∷ rest)
        (row_behind row symbol) (omega (arith, short))
    ∙ read_from_complete broken (row_text row) rest short

-- A row that `format_market_data_csv_row` writes, whatever stands behind it in the file,
-- `read_logical_record` takes off the input whole: the quotes, commas and line ends within its
-- payload do not end the record early, and the row is within the limit of 3 MiB.
pub read_logical_record-format_market_data_csv_row :
    (memory : ℕ → Bool) (row : MarketDataCsvRow) (text : List ℕ) (broken : Option ℕ) (rest : List ℕ)
    → format_market_data_csv_row memory row ≡ (CsvFormatError.none, text)
    → read_logical_record broken (text ++ rest) ≡ framed text rest
unfolding read_logical_record
read_logical_record-format_market_data_csv_row memory row text broken rest e =
    let (_, _, normalized, appended) = formatted memory row text e in
    let shape = pieces_written memory [] (market_data_pieces row) text appended ∙ row_pieces row in
    let within =
      subst IsWithin appended
        (append_pieces-IsWithin memory [] (market_data_pieces row) (omega arith)) in
    rw shape (
      row_framed broken row rest (symbol-IsPlain row.symbol normalized)
        (subst (λ t. length t ≤ max_csv_record_bytes) shape within))
