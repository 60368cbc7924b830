-- ===== src/Book/Core.antt =====
-- src/spot_book.cpp: `TopFiveBookCore`, both sides with the id of the last update. The asserts of the
-- source are hypotheses of the theorems (Core/Events).
pub mod Events
pub mod Keeps
use mathlib.Core.Bool.{xor}
use ir_assignment.Prelude.{ℕ, Bool, true, false, not, ◌&&◌, ◌==◌, ltb, if◌then◌else◌, length}
use ir_assignment.Payload.{BookSide, SpotDepthEvent}
use ir_assignment.Book.Side.{Side, empty_side, make_refresh_side, apply_updates, crossed}

pub data BookRowSide : Type 0 where
  bid ask neutral : BookRowSide

pub data BookApplyStatus : Type 0 where
  applied_refresh applied_diff stale_refresh stale_diff ignored_while_invalid : BookApplyStatus
  sequence_gap crossed_book : BookApplyStatus

pub record BookApplyResult : Type 0 where
  pub status : BookApplyStatus
  pub side : BookRowSide

abbrev pub emits_snapshot : BookApplyResult → Bool
emits_snapshot r = elim r.status [ applied_refresh ↦ true | applied_diff ↦ true | _ ↦ false ]

pub record Core : Type 0 where
  pub bids : Side
  pub asks : Side
  pub last_update_id : ℕ
  pub valid : Bool

abbrev pub initial : Core
initial = record { bids = empty_side; asks = empty_side; last_update_id = 0; valid = false }

abbrev pub row_side : SpotDepthEvent → BookRowSide
row_side event =
    let has_bids = not (length event.bids == 0) in
    let has_asks = not (length event.asks == 0) in
    if not (xor has_bids has_asks)
    then BookRowSide.neutral
    else if has_bids
    then BookRowSide.bid
    else BookRowSide.ask

abbrev pub invalidate : Core → Core
invalidate book = record book { valid = false }

abbrev pub outcome : BookApplyStatus → BookRowSide → BookApplyResult
outcome status side = record { status = status; side = side }

unfoldable pub apply_refresh : Core → SpotDepthEvent → Core × BookApplyResult
apply_refresh book event =
    if book.valid && ltb event.final_update_id book.last_update_id
    then (book, outcome stale_refresh BookRowSide.neutral)
    else (
      record {
        bids = make_refresh_side event.bids;
        asks = make_refresh_side event.asks;
        last_update_id = event.final_update_id;
        valid = true;
      },
      outcome applied_refresh BookRowSide.neutral,
    )

unfoldable pub apply_accepted_diff : Core → SpotDepthEvent → Core × BookApplyResult
apply_accepted_diff book event =
    let candidate_bids = apply_updates book.bids event.bids BookSide.bid in
    let candidate_asks = apply_updates book.asks event.asks BookSide.ask in
    if crossed candidate_bids candidate_asks
    then (invalidate book, outcome crossed_book (row_side event))
    else (
      record book {
        bids = candidate_bids;
        asks = candidate_asks;
        last_update_id = event.final_update_id;
      },
      outcome applied_diff (row_side event),
    )
