-- ===== src/Book/Spot.antt =====
-- src/spot_book.cpp: `SpotBookState`, which applies a diff only where it continues the book.
pub mod Sync
use ir_assignment.Prelude.{ℕ, ◌+◌, ◌%◌, ◌^◌, Bool, not, ltb, leb, if◌then◌else◌}
use ir_assignment.Payload.{SpotDepthEvent}
use ir_assignment.Book.Core.{
  Core, BookApplyResult, row_side, outcome, ignored_while_invalid, stale_diff, sequence_gap,
}
use ir_assignment.Book.Core

pub record SpotBookState : Type 0 where
  pub book : Core

abbrev pub initial : SpotBookState
initial = record { book = Core.initial }

abbrev pub invalidate : SpotBookState → SpotBookState
invalidate s = record { book = Core.invalidate s.book }

unfoldable pub apply_refresh : SpotBookState → SpotDepthEvent → SpotBookState × BookApplyResult
apply_refresh s event =
    let (book, result) = Core.apply_refresh s.book event in (record { book = book }, result)

unfoldable pub apply_diff : SpotBookState → SpotDepthEvent → SpotBookState × BookApplyResult
apply_diff s event =
    let side = row_side event in
    let next_update_id = (s.book.last_update_id + 1) % 2 ^ 64 in
    let (book, result) = Core.apply_accepted_diff s.book event in
    if not s.book.valid
    then (s, outcome ignored_while_invalid side)
    else if leb event.final_update_id s.book.last_update_id
    then (s, outcome stale_diff side)
    else if ltb next_update_id event.first_update_id
    then (invalidate s, outcome sequence_gap side)
    else (record { book = book }, result)
