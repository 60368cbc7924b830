-- ===== src/Book/Side.antt =====
-- src/spot_book.cpp: `TopFiveBookCore::Side`, an array of five slots of which the first `size` are in
-- use, and the operations on one side. The array is a list; an access out of range does nothing.
-- `size_t` subtraction wraps.
pub mod View
pub mod Insert
pub mod Order
pub mod Reference
pub mod Updates
use ir_assignment.Prelude.{
  ℕ, zero, suc, ◌+◌, ◌-◌, ◌%◌, ◌^◌, Bool, true, false, not, ◌&&◌, ◌||◌, List, [], ◌∷◌, ltb, leb,
  ◌==◌, if◌then◌else◌, get_or, set, replicate,
}
use ir_assignment.Payload.{BookSide, bid, ask, LevelUpdate}

abbrev pub visible_book_depth : ℕ
visible_book_depth = 5

pub record BookLevel : Type 0 where
  pub price : ℕ
  pub quantity : ℕ

abbrev pub empty_level : BookLevel
empty_level = record { price = 0; quantity = 0 }

pub record Side : Type 0 where
  pub levels : List BookLevel
  pub size : ℕ

-- A value-initialised side.
abbrev pub empty_side : Side
empty_side = record { levels = replicate visible_book_depth empty_level; size = 0 }

abbrev pub level_at : List BookLevel → ℕ → BookLevel
level_at levels i = get_or levels i empty_level

abbrev pub better_price : BookSide → ℕ → ℕ → Bool
better_price bid lhs rhs = ltb rhs lhs
better_price ask lhs rhs = ltb lhs rhs

-- The loop of `find_price` from `index` on, with `rounds` to go to `size`.
unfoldable pub find_from : List BookLevel → ℕ → ℕ → ℕ → ℕ
find_from levels zero index price = index
find_from levels (suc rounds) index price =
    let rest = find_from levels rounds (suc index) price in
    if (level_at levels index).price == price then index else rest

unfoldable pub find_price : Side → ℕ → ℕ
unfolding find_from
find_price side price = find_from side.levels side.size 0 price

-- The loop of `erase_level`: each slot from `destination` on takes its right neighbour.
unfoldable pub shift_down : List BookLevel → ℕ → ℕ → List BookLevel
shift_down levels zero destination = levels
shift_down levels (suc rounds) destination =
    shift_down (set levels destination (level_at levels (suc destination))) rounds (suc destination)

unfoldable pub erase_level : Side → ℕ → Side
unfolding shift_down
erase_level side index =
    let size = (side.size + 2 ^ 64 - 1) % 2 ^ 64 in
    record {
      levels = set (shift_down side.levels (side.size - 1 - index) index) size empty_level;
      size = size;
    }

-- The first loop of `insert_level`, from `position` on with `rounds` to go to `size`.
unfoldable pub insert_position : BookSide → List BookLevel → ℕ → ℕ → ℕ → ℕ
insert_position book_side levels zero position price = position
insert_position book_side levels (suc rounds) position price =
    let rest = insert_position book_side levels rounds (suc position) price in
    if better_price book_side (level_at levels position).price price then rest else position

-- The second loop: each slot from `destination` down takes its left neighbour.
unfoldable pub shift_up : List BookLevel → ℕ → ℕ → List BookLevel
shift_up levels zero destination = levels
shift_up levels (suc rounds) zero = levels
shift_up levels (suc rounds) (suc destination) =
    shift_up (set levels (suc destination) (level_at levels destination)) rounds destination

unfoldable pub insert_level : Side → BookSide → BookLevel → Side
unfolding insert_position shift_up
insert_level side book_side level =
    let position = insert_position book_side side.levels side.size 0 level.price in
    let destination_limit =
      if ltb side.size visible_book_depth then side.size else visible_book_depth - 1 in
    let shifted = shift_up side.levels (destination_limit - position) destination_limit in
    let inserted : Side = record {
      levels = set shifted position level;
      size = if ltb side.size visible_book_depth then suc side.size else side.size;
    } in
    if side.size == visible_book_depth && position == visible_book_depth then side else inserted

abbrev pub level_of : LevelUpdate → BookLevel
level_of u = record { price = u.price; quantity = u.quantity }

-- The loop of `make_refresh_side`.
unfoldable pub refresh_from : Side → List LevelUpdate → Side
refresh_from result [] = result
refresh_from result (u ∷ updates) =
    refresh_from
      (record { levels = set result.levels result.size (level_of u); size = suc result.size })
      updates

unfoldable pub make_refresh_side : List LevelUpdate → Side
unfolding refresh_from
make_refresh_side updates = refresh_from empty_side updates

abbrev pub set_quantity : Side → ℕ → ℕ → Side
set_quantity side index quantity = record side {
  levels =
      set side.levels index
        (record { price = (level_at side.levels index).price; quantity = quantity });
}

-- The body of the first loop of `apply_updates`: a level that the side had is erased or amended.
unfoldable pub amend_level : Side → Side → LevelUpdate → Side
unfolding find_price erase_level
amend_level original candidate u =
    let candidate_index = find_price candidate u.price in
    if find_price original u.price == original.size
    then candidate
    else if u.quantity == 0
    then erase_level candidate candidate_index
    else set_quantity candidate candidate_index u.quantity

unfoldable pub amend_levels : Side → Side → List LevelUpdate → Side
unfolding amend_level
amend_levels original candidate [] = candidate
amend_levels original candidate (u ∷ updates) =
    amend_levels original (amend_level original candidate u) updates

-- The body of the second loop: a level that the side did not have is inserted.
unfoldable pub add_level : Side → BookSide → Side → LevelUpdate → Side
unfolding find_price insert_level
add_level original side candidate u =
    if u.quantity == 0 || not (find_price original u.price == original.size)
    then candidate
    else insert_level candidate side (level_of u)

unfoldable pub add_levels : Side → BookSide → Side → List LevelUpdate → Side
unfolding add_level
add_levels original side candidate [] = candidate
add_levels original side candidate (u ∷ updates) =
    add_levels original side (add_level original side candidate u) updates

unfoldable pub apply_updates : Side → List LevelUpdate → BookSide → Side
unfolding amend_levels add_levels
apply_updates original updates side =
    add_levels original side (amend_levels original original updates) updates

unfoldable pub crossed : Side → Side → Bool
crossed bids asks =
    not (bids.size == 0)
    && not (asks.size == 0)
    && leb (level_at asks.levels 0).price (level_at bids.levels 0).price
