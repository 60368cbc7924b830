-- ===== src/Parser/Depth/Accept.antt =====
-- src/spot_payload_parser.cpp: what the tests behind the loop of `parse_depth` leave of the events, and
-- the state of the table behind it.
use mathlib.Core.Path.{subst}
use ir_assignment.Prelude.{
  ℕ, ◌≤◌, ◌<◌, ◌≡◌, refl, sym, Bool, true, false, arith, true_ne_false, List, [], ◌∷◌,
}
use ir_assignment.Payload.{
  BookSide, bid, ask, LevelUpdate, SpotParseError, SpotDepthEvent, SpotParseResult,
}
use ir_assignment.Json.{Fields}
use ir_assignment.Book.Core.Events.{IsRefresh, IsDiff, IsUncrossed, levels_of}
use ir_assignment.Parser.{is_none, is_internal}
use ir_assignment.Parser.Levels.{Impl}
use ir_assignment.Parser.Levels.Loop.{IsImpl}
use ir_assignment.Parser.Levels.Kept.{IsLevelList, IsReadyImpl}
use ir_assignment.Parser.Depth.{
  Shape, Depth, Walk, ends, goes_on, depth_of, depth_fields, is_depth5, is_usdm,
  uses_depth_update_shape, finish_depth, finish_walk, depth_start, parse_depth, has_all, required,
  crossed_levels,
}
use ir_assignment.Parser.Depth.Events.{depth_fields-IsWalk}
use ir_assignment.Parser.Depth.Reads.{IsWalk}

-- The tests on the numbers and on the best levels.
pub record IsChecked (m : Shape) (e : SpotDepthEvent) : Type 0 where
  pub ranged : uses_depth_update_shape m ≡ true → e.first_update_id ≤ e.final_update_id
  pub chained : is_usdm m ≡ true → e.previous_update_id < e.final_update_id
  pub uncrossed : is_depth5 m ≡ true → crossed_levels e.bids e.asks ≡ false

-- An event without an error: it passed every test, and its levels are well formed.
pub record IsAccepted (m : Shape) (e : SpotDepthEvent) : Type 0 where
  pub checked : IsChecked m e
  pub bids_kept : IsLevelList bid (is_depth5 m) e.bids
  pub asks_kept : IsLevelList ask (is_depth5 m) e.asks

-- Nothing was recorded, no field is missing, and the tests are passed.
pub record IsFinished (m : Shape) (d : Depth) : Type 0 where
  pub clean : d.result.error ≡ SpotParseError.none
  pub same : finish_depth m d ≡ d.result
  pub complete : has_all d.fields (required m) ≡ true
  pub checked : IsChecked m (depth_of d)

is_none_error : (e : SpotParseError) → is_none e ≡ true → e ≡ SpotParseError.none
is_none_error e h = ground (arith, h)

no_levels-IsLevelList : (side : BookSide) (is_partial : Bool) → IsLevelList side is_partial []
no_levels-IsLevelList side is_partial = record {
  priced = tt;
  distinct = tt;
  few = λ _. omega arith;
  orderly = λ _. (tt, tt);
}

module _ (m : Shape) where
  pub finish_depth-IsFinished :
      (d : Depth) → (finish_depth m d).error ≡ SpotParseError.none → IsFinished m d
  unfolding finish_depth
  finish_depth-IsFinished d e = ground (arith, e)

  finish_depth-mild :
      (d : Depth)
      → is_internal d.result.error ≡ false
      → is_internal (finish_depth m d).error ≡ false
  unfolding finish_depth
  finish_depth-mild d h = ground (arith, h)

  finish_walk-IsAccepted :
      (w : Walk)
      → IsWalk m w
      → (finish_walk m w).1.error ≡ SpotParseError.none
      → IsAccepted m (finish_walk m w).1.event.depth
  finish_walk-IsAccepted (ends d) (_, some_error, _) e =
      absurd (true_ne_false (ground (arith, some_error, e)))
  finish_walk-IsAccepted (goes_on d) k e =
      let f = finish_depth-IsFinished d e in
      subst (λ (r : SpotParseResult). IsAccepted m r.event.depth) (sym f.same)
        (record { checked = f.checked; bids_kept = k.bids_kept; asks_kept = k.asks_kept })

  -- The walk that `parse_depth` makes, on a table that is ready.
  pub from_start-IsWalk :
      (impl : Impl) (object : Fields)
      → IsReadyImpl impl
      → IsWalk m (depth_fields m object (depth_start impl m.kind))
  from_start-IsWalk impl object r = depth_fields-IsWalk m object (depth_start impl m.kind) (record {
    ready = r;
    bids_kept = no_levels-IsLevelList bid (is_depth5 m);
    asks_kept = no_levels-IsLevelList ask (is_depth5 m);
    mild = refl;
  })

  pub parse_depth-IsAccepted :
      (impl : Impl) (object : Fields)
      → IsReadyImpl impl
      → (parse_depth m impl object).1.error ≡ SpotParseError.none
      → IsAccepted m (parse_depth m impl object).1.event.depth
  unfolding parse_depth
  parse_depth-IsAccepted impl object r e =
      finish_walk-IsAccepted _ (from_start-IsWalk impl object r) e

  finish_walk-mild : (w : Walk) → IsWalk m w → is_internal (finish_walk m w).1.error ≡ false
  finish_walk-mild (ends d) (_, _, mild) = mild
  finish_walk-mild (goes_on d) k = finish_depth-mild d k.mild

  pub parse_depth-mild :
      (impl : Impl) (object : Fields)
      → IsReadyImpl impl
      → is_internal (parse_depth m impl object).1.error ≡ false
  unfolding parse_depth
  parse_depth-mild impl object r = finish_walk-mild _ (from_start-IsWalk impl object r)

  finish_walk-IsImpl : (w : Walk) → IsWalk m w → (n : ℕ) × IsImpl n (finish_walk m w).0
  finish_walk-IsImpl (ends d) (kept, _, _) = kept
  finish_walk-IsImpl (goes_on d) k = (d.impl.encountered_levels, k.ready)

  pub parse_depth-IsImpl :
      (impl : Impl) (object : Fields)
      → IsReadyImpl impl
      → (n : ℕ) × IsImpl n (parse_depth m impl object).0
  unfolding parse_depth
  parse_depth-IsImpl impl object r = finish_walk-IsImpl _ (from_start-IsWalk impl object r)

-- Levels that are not crossed by the test are not crossed.
uncrossed_lem :
    (b_levels a_levels : List LevelUpdate)
    → crossed_levels b_levels a_levels ≡ false
    → IsUncrossed (levels_of b_levels) (levels_of a_levels)
uncrossed_lem [] a_levels h = tt
uncrossed_lem (b ∷ more) [] h = tt
uncrossed_lem (b ∷ more) (a ∷ others) h = ground (arith, h)

pub accepted-IsRefresh :
    (m : Shape) (e : SpotDepthEvent) → is_depth5 m ≡ true → IsAccepted m e → IsRefresh e
accepted-IsRefresh m e d k = record {
  few_bids = k.bids_kept.few d;
  few_asks = k.asks_kept.few d;
  bids_orderly = k.bids_kept.orderly d;
  asks_orderly = k.asks_kept.orderly d;
  uncrossed = uncrossed_lem e.bids e.asks (k.checked.uncrossed d);
}

pub accepted-IsDiff : (m : Shape) (e : SpotDepthEvent) → IsAccepted m e → IsDiff e
accepted-IsDiff m e k = record {
  bid_prices = k.bids_kept.priced;
  ask_prices = k.asks_kept.priced;
  bids_distinct = k.bids_kept.distinct;
  asks_distinct = k.asks_kept.distinct;
}
