-- ===== src/Book/Usdm.antt =====
-- src/spot_book.cpp: `UsdMBookState`, whose diffs name the diff that they follow.
pub mod Chain
use ir_assignment.Prelude.{ℕ, ◌+◌, ◌%◌, ◌^◌, Bool, true, false, not, ltb, leb, ◌==◌, if◌then◌else◌}
use ir_assignment.Payload.{SpotDepthEvent}
use ir_assignment.Book.Core.{
  Core, BookApplyResult, BookApplyStatus, row_side, outcome, ignored_while_invalid, stale_diff,
  sequence_gap, applied_refresh, applied_diff, crossed_book,
}
use ir_assignment.Book.Core

pub record UsdmBookState : Type 0 where
  pub book : Core
  pub previous_diff_update_id : ℕ
  pub diff_chain_established : Bool

abbrev pub initial : UsdmBookState
initial = record {
  book = Core.initial;
  previous_diff_update_id = 0;
  diff_chain_established = false;
}

abbrev pub unchained : Core → UsdmBookState
unchained book = record { book = book; previous_diff_update_id = 0; diff_chain_established = false }

abbrev pub invalidate : UsdmBookState → UsdmBookState
invalidate s = unchained (Core.invalidate s.book)

-- What a refresh leaves of the chain.
abbrev after_refresh : UsdmBookState → Core → BookApplyStatus → UsdmBookState
after_refresh s book applied_refresh = unchained book
after_refresh s book _ = record s { book = book }

unfoldable pub apply_refresh : UsdmBookState → SpotDepthEvent → UsdmBookState × BookApplyResult
apply_refresh s event =
    let (book, result) = Core.apply_refresh s.book event in
    (after_refresh s book result.status, result)

-- What an accepted diff leaves of the chain.
abbrev after_diff : UsdmBookState → ℕ → Core → BookApplyStatus → UsdmBookState
after_diff s final_update_id book applied_diff = record {
  book = book;
  previous_diff_update_id = final_update_id;
  diff_chain_established = true;
}
after_diff s final_update_id book crossed_book = unchained book
after_diff s final_update_id book _ = record s { book = book }

abbrev accept_diff : UsdmBookState → SpotDepthEvent → UsdmBookState × BookApplyResult
accept_diff s event =
    let (book, result) = Core.apply_accepted_diff s.book event in
    (after_diff s event.final_update_id book result.status, result)

unfoldable pub apply_diff : UsdmBookState → SpotDepthEvent → UsdmBookState × BookApplyResult
apply_diff s event =
    let side = row_side event in
    let stale = leb event.final_update_id s.book.last_update_id in
    let next_update_id = (s.book.last_update_id + 1) % 2 ^ 64 in
    let gap : UsdmBookState × BookApplyResult = (invalidate s, outcome sequence_gap side) in
    if not s.book.valid
    then (s, outcome ignored_while_invalid side)
    else if s.diff_chain_established
    then if not (event.previous_update_id == s.previous_diff_update_id)
      then gap
      else if stale
      then (s, outcome stale_diff side)
      else accept_diff s event
    else if stale
    then (s, outcome stale_diff side)
    else if ltb next_update_id event.first_update_id
    then gap
    else accept_diff s event
