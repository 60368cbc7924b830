-- ===== src/Replay/Framing.antt =====
-- src/market_data_replay.cpp: what `read_logical_record` takes from the input.
use mathlib.Core.Option.{Option, some}
use ir_assignment.Prelude.{
  ℕ, ◌≤◌, ◌≡◌, refl, sym, ap, Bool, true, false, arith, ◌==◌, List, [], ◌∷◌, ◌++◌, length,
  length-append,
}
use ir_assignment.Csv.Format.{max_csv_record_bytes}
use ir_assignment.Replay.{
  LogicalRead, framed, at_end, failed, CsvFrameState, goes_on, complete, malformed, frame,
  read_from, read_logical_record, field_start, invalid_csv,
}

-- A framed record is not too long, and stands in front of the rest of the
-- bytes; the end of the file is found only where no byte is left.
abbrev pub Takes : List ℕ → LogicalRead → Type 0
Takes bytes (framed logical_record input) =
    (logical_record ++ input ≡ bytes) × (length logical_record ≤ max_csv_record_bytes)
Takes bytes at_end = bytes ≡ []
Takes bytes (failed code native_error) = Unit

pub append-one :
    (bytes : List ℕ) (c : ℕ) (input : List ℕ) → (bytes ++ (c ∷ [])) ++ input ≡ bytes ++ (c ∷ input)
append-one [] c input = refl
append-one (b ∷ bytes) c input = ap (λ t. b ∷ t) (append-one bytes c input)

one_more :
    (bytes : List ℕ) (c : ℕ)
    → length bytes ≤ max_csv_record_bytes
    → (length bytes == max_csv_record_bytes) ≡ false
    → length (bytes ++ (c ∷ [])) ≤ max_csv_record_bytes
one_more bytes c h more = ground (arith, h, more, length-append bytes (c ∷ []))

unless_full :
    (bytes : List ℕ) (full : Bool) (x y : LogicalRead)
    → (full ≡ true → Takes bytes x)
    → (full ≡ false → Takes bytes y)
    → Takes bytes (elim full [ true ↦ x | false ↦ y ])
unless_full bytes true x y h k = h refl
unless_full bytes false x y h k = k refl

read_from-Takes :
    (broken : Option ℕ) (state : CsvFrameState) (bytes input : List ℕ)
    → length bytes ≤ max_csv_record_bytes
    → Takes (bytes ++ input) (read_from broken state bytes input)
unfolding read_from
read_from-Takes (some e) state bytes [] h = tt
read_from-Takes Option.none state [] [] h = refl
read_from-Takes Option.none state (c ∷ bytes) [] h = ground arith
read_from-Takes broken state bytes (c ∷ input) h =
    unless_full (bytes ++ (c ∷ input)) (length bytes == max_csv_record_bytes) _ _ (λ full. tt)
      (λ more.
        elim (frame state c)
          as (λ f. Takes (bytes ++ (c ∷ input)) (elim f [
            | goes_on next ↦ read_from broken next (bytes ++ (c ∷ [])) input
            | complete ↦ framed (bytes ++ (c ∷ [])) input
            | malformed ↦ failed invalid_csv 0
          ])) [
            | goes_on next ↦
                rw (sym (append-one bytes c input))
                  (read_from-Takes broken next (bytes ++ (c ∷ [])) input (one_more bytes c h more))
            | complete ↦ (append-one bytes c input, one_more bytes c h more)
            | malformed ↦ tt
          ])

-- Reading a logical record takes it from the front of the input: the record and the rest are the
-- input, and the record is at most 3 MiB long. The end of the file is reported only on an empty
-- input.
pub read_logical_record-Takes :
    (broken : Option ℕ) (input : List ℕ) → Takes input (read_logical_record broken input)
unfolding read_logical_record
read_logical_record-Takes broken input = read_from-Takes broken field_start [] input (omega arith)
