-- ===== src/Book/Tests.antt =====
-- Runs of the books, as in tests/spot_book_test.cpp and tests/usdm_book_test.cpp, and the theorems at
-- an input.
use ir_assignment.Prelude.{ℕ, ◌≡◌, refl, true, List, [], ◌∷◌, arith, take}
use ir_assignment.Payload.{bid, ask, LevelUpdate, SpotDepthEvent}
use ir_assignment.Book.Side.{
  Side, BookLevel, insert_level, erase_level, make_refresh_side, apply_updates, crossed,
}
use ir_assignment.Book.Side.View.{
  contents, IsStored, insert_sorted, remove_at, erase_level-contents,
}
use ir_assignment.Book.Side.Insert.{insert_level-contents}
use ir_assignment.Book.Side.Order.{quantity_at}
use ir_assignment.Book.Side.Reference.{IsOrderly, IsDistinct, override}
use ir_assignment.Book.Side.Updates.{apply_updates_lem}
use ir_assignment.Book.Core.Events.{levels_of, IsRefresh, IsDiff}
use ir_assignment.Book.Core.Keeps.{IsBook, make_refresh_side-contents}
use ir_assignment.Book.Core
use ir_assignment.Book.Spot
use ir_assignment.Book.Spot.Sync
use ir_assignment.Book.Usdm
use ir_assignment.Book.Usdm.Chain

abbrev level : ℕ → ℕ → BookLevel
level p q = record { price = p; quantity = q }

abbrev bid_update : ℕ → ℕ → LevelUpdate
bid_update p q = record { price = p; quantity = q; side = bid }

abbrev ask_update : ℕ → ℕ → LevelUpdate
ask_update p q = record { price = p; quantity = q; side = ask }

-- Bids at 100, 98 and 97.
abbrev three_bids : Side
three_bids = record {
  levels = level 100 1 ∷ level 98 2 ∷ level 97 3 ∷ level 0 0 ∷ level 0 0 ∷ [];
  size = 3;
}

three-IsStored : IsStored three_bids
three-IsStored = record { slots = refl; within = omega arith }

three-IsOrderly : IsOrderly bid (contents three_bids)
three-IsOrderly = (((refl, (refl, tt)), ((refl, tt), (tt, tt))), omega arith)

-- A bid at 99 comes second.
inserts_in_order :
    contents (insert_level three_bids bid (level 99 5))
    ≡ level 100 1 ∷ level 99 5 ∷ level 98 2 ∷ level 97 3 ∷ []
unfolding insert_level
inserts_in_order = refl

-- Four new bids above: the worst two levels are cut off.
abbrev crowd : List LevelUpdate
crowd =
    bid_update 104 1 ∷ bid_update 103 1 ∷ bid_update 98 0 ∷ bid_update 102 1 ∷ bid_update 101 1 ∷ []

keeps_best_five :
    contents (apply_updates three_bids crowd bid)
    ≡ level 104 1 ∷ level 103 1 ∷ level 102 1 ∷ level 101 1 ∷ level 100 1 ∷ []
unfolding apply_updates
keeps_best_five = refl

insert_level-contents_example :
    (contents (insert_level three_bids bid (level 99 5))
      ≡ take 5 (insert_sorted bid (level 99 5) (contents three_bids)))
    × IsStored (insert_level three_bids bid (level 99 5))
insert_level-contents_example = insert_level-contents three_bids bid (level 99 5) three-IsStored

erase_level-contents_example :
    (contents (erase_level three_bids 1) ≡ remove_at 1 (contents three_bids))
    × IsStored (erase_level three_bids 1)
erase_level-contents_example = erase_level-contents three_bids 1 three-IsStored (omega arith)

crowd-IsDistinct : IsDistinct crowd
crowd-IsDistinct = omega arith

apply_updates_lem_example :
    (full : List BookLevel) × IsOrderly bid full
    × ((p : ℕ) → quantity_at p full ≡ override p crowd (quantity_at p (contents three_bids)))
    × (contents (apply_updates three_bids crowd bid) ≡ take 5 full)
    × IsStored (apply_updates three_bids crowd bid)
    × IsOrderly bid (contents (apply_updates three_bids crowd bid))
apply_updates_lem_example =
    apply_updates_lem three_bids crowd bid three-IsStored three-IsOrderly (omega arith)
      crowd-IsDistinct

abbrev event : ℕ → ℕ → ℕ → List LevelUpdate → List LevelUpdate → SpotDepthEvent
event first final previous bids asks = record {
  has_event_time = true;
  event_time_ms = 0;
  has_transaction_time = true;
  transaction_time_ms = 0;
  has_previous_update_id = true;
  previous_update_id = previous;
  first_update_id = first;
  final_update_id = final;
  bids = bids;
  asks = asks;
}

abbrev opening : SpotDepthEvent
opening = event 10 10 0 (bid_update 100 1 ∷ bid_update 98 2 ∷ []) (ask_update 101 1 ∷ [])

abbrev second : SpotDepthEvent
second = event 9 12 8 (bid_update 99 5 ∷ bid_update 98 0 ∷ []) []

abbrev third : SpotDepthEvent
third = event 13 15 12 [] (ask_update 102 3 ∷ [])

opening-IsRefresh : IsRefresh opening
opening-IsRefresh = record {
  few_bids = omega arith;
  few_asks = omega arith;
  bids_orderly = (((refl, tt), (tt, tt)), omega arith);
  asks_orderly = ((tt, tt), omega arith);
  uncrossed = omega arith;
}

second-IsDiff : IsDiff second
second-IsDiff = record {
  bid_prices = omega arith;
  ask_prices = tt;
  bids_distinct = omega arith;
  asks_distinct = tt;
}

third-IsDiff : IsDiff third
third-IsDiff = record {
  bid_prices = tt;
  ask_prices = omega arith;
  bids_distinct = tt;
  asks_distinct = omega arith;
}

make_refresh_side-contents_example :
    (contents (make_refresh_side opening.bids) ≡ levels_of opening.bids)
    × IsStored (make_refresh_side opening.bids)
make_refresh_side-contents_example = make_refresh_side-contents opening.bids (omega arith)

abbrev spot_session : List Sync.SpotStep
spot_session = Sync.refresh opening ∷ Sync.diff second ∷ Sync.diff third ∷ []

abbrev usdm_session : List Chain.UsdmStep
usdm_session = Chain.refresh opening ∷ Chain.diff second ∷ Chain.diff third ∷ []

spot_session_is_valid : (Sync.run Sync.start spot_session).0.book.valid ≡ true
unfolding Spot.apply_refresh Spot.apply_diff Core.apply_refresh Core.apply_accepted_diff
    apply_updates crossed make_refresh_side
spot_session_is_valid = refl

usdm_session_is_valid : (Chain.run Chain.start usdm_session).0.book.valid ≡ true
unfolding Usdm.apply_refresh Usdm.apply_diff Core.apply_refresh Core.apply_accepted_diff
    apply_updates crossed make_refresh_side
usdm_session_is_valid = refl

run_misses_nothing_example : Sync.Covers (third ∷ second ∷ []) 11
unfolding Spot.apply_refresh Spot.apply_diff Core.apply_refresh Core.apply_accepted_diff
    apply_updates crossed make_refresh_side
run_misses_nothing_example =
    Sync.run_misses_nothing spot_session 11 spot_session_is_valid (omega arith) (omega arith)

spot_run-IsBook_example : IsBook (Sync.run Sync.start spot_session).0.book
spot_run-IsBook_example =
    Sync.spot_run-IsBook spot_session (opening-IsRefresh, (second-IsDiff, (third-IsDiff, tt)))

run-IsLinked_example :
    Chain.IsLinked
      (Chain.run Chain.start usdm_session).1.base
      (Chain.run Chain.start usdm_session).1.diffs
    × ((Chain.run Chain.start usdm_session).0.book.last_update_id
        ≡ Chain.newest
            (Chain.run Chain.start usdm_session).1.base
            (Chain.run Chain.start usdm_session).1.diffs)
run-IsLinked_example = Chain.run-IsLinked usdm_session usdm_session_is_valid

usdm_run-IsBook_example : IsBook (Chain.run Chain.start usdm_session).0.book
usdm_run-IsBook_example =
    Chain.usdm_run-IsBook usdm_session (opening-IsRefresh, (second-IsDiff, (third-IsDiff, tt)))
