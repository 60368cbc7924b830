-- ===== src/Book/Core/Events.antt =====
-- The events that a book is handed. The parser checks them (src/spot_payload_parser.cpp), and
-- src/spot_book.cpp asserts them.
use ir_assignment.Prelude.{◌≤◌, ◌<◌, List, [], ◌∷◌, All, length, map}
use ir_assignment.Payload.{bid, ask, LevelUpdate, SpotDepthEvent}
use ir_assignment.Book.Side.{BookLevel, level_of}
use ir_assignment.Book.Side.Reference.{IsOrderly, HasPrice, IsDistinct}

abbrev pub levels_of : List LevelUpdate → List BookLevel
levels_of = map level_of

-- The best bid is below the best ask, where both sides have levels.
abbrev pub IsUncrossed : List BookLevel → List BookLevel → Type 0
IsUncrossed [] asks = Unit
IsUncrossed (b ∷ bids) [] = Unit
IsUncrossed (b ∷ bids) (a ∷ asks) = b.price < a.price

-- A partial depth: at most five positive levels a side, best first, not crossed.
pub record IsRefresh (e : SpotDepthEvent) : Type 0 where
  pub few_bids : length e.bids ≤ 5
  pub few_asks : length e.asks ≤ 5
  pub bids_orderly : IsOrderly bid (levels_of e.bids)
  pub asks_orderly : IsOrderly ask (levels_of e.asks)
  pub uncrossed : IsUncrossed (levels_of e.bids) (levels_of e.asks)

-- A diff: positive prices, none twice on a side.
pub record IsDiff (e : SpotDepthEvent) : Type 0 where
  pub bid_prices : All HasPrice e.bids
  pub ask_prices : All HasPrice e.asks
  pub bids_distinct : IsDistinct e.bids
  pub asks_distinct : IsDistinct e.asks
