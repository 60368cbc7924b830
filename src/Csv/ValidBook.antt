-- ===== src/Csv/ValidBook.antt =====
-- src/csv_formatter.cpp: the test that the formatter makes on a book, on the books of the program.
use ir_assignment.Prelude.{
  ◌≤◌, ◌≡◌, refl, true, false, arith, List, [], ◌∷◌, All, length, length-take,
}
use ir_assignment.Payload.{BookSide, bid, ask}
use ir_assignment.Book.Side.{BookLevel, Side}
use ir_assignment.Book.Side.View.{contents, IsStored}
use ir_assignment.Book.Side.Order.{IsBetter, IsSorted, IsPositive}
use ir_assignment.Book.Side.Reference.{IsOrderly}
use ir_assignment.Book.Core.{Core}
use ir_assignment.Book.Core.Events.{IsUncrossed}
use ir_assignment.Book.Core.Keeps.{IsBook}
use ir_assignment.Csv.Format.{valid_behind, valid_levels, valid_side, valid_book, misplaced}

misplaced_better : (b : BookSide) (x y : BookLevel) → IsBetter b x y → misplaced b x y ≡ false
misplaced_better bid x y h = ground arith
misplaced_better ask x y h = ground arith

valid_behind_sorted :
    (b : BookSide) (x : BookLevel) (xs : List BookLevel)
    → All (IsBetter b x) xs
    → IsSorted b xs
    → All IsPositive xs
    → valid_behind b x xs ≡ true
unfolding valid_behind
valid_behind_sorted b x [] h s p = refl
valid_behind_sorted b x (y ∷ ys) (h, hs) (s, ss) (p, ps) =
    ground (arith, misplaced_better b x y h, valid_behind_sorted b y ys s ss ps, p)

valid_levels_orderly :
    (b : BookSide) (xs : List BookLevel) → IsOrderly b xs → valid_levels b xs ≡ true
unfolding valid_levels
valid_levels_orderly b [] h = refl
valid_levels_orderly b (x ∷ xs) ((h, s), (p, ps)) =
    ground (arith, valid_behind_sorted b x xs h s ps, p)

contents_within : (s : Side) → IsStored s → length (contents s) ≤ 5
contents_within s v = omega (arith, length-take s.size s.levels, v.within)

valid_side_orderly :
    (b : BookSide) (s : Side)
    → IsStored s
    → IsOrderly b (contents s)
    → valid_side (contents s) b ≡ true
unfolding valid_side
valid_side_orderly b s v h =
    ground (arith, contents_within s v, valid_levels_orderly b (contents s) h)

valid_book_sides :
    (bids asks : List BookLevel)
    → valid_side bids bid ≡ true
    → valid_side asks ask ≡ true
    → IsUncrossed bids asks
    → valid_book bids asks ≡ true
unfolding valid_book
valid_book_sides [] asks h k u = ground (arith, h, k)
valid_book_sides (b ∷ bids) [] h k u = ground (arith, h, k)
valid_book_sides (b ∷ bids) (a ∷ asks) h k u = ground (arith, h, k, u)

-- The formatter's test on a book passes on every valid book whose sides are stored in the five slots,
-- positive and best first, and not crossed.
pub valid_book_lem :
    (book : Core)
    → IsBook book
    → book.valid ≡ true
    → valid_book (contents book.bids) (contents book.asks) ≡ true
valid_book_lem book b v =
    valid_book_sides (contents book.bids) (contents book.asks)
      (valid_side_orderly bid book.bids b.bids_stored b.bids_orderly)
      (valid_side_orderly ask book.asks b.asks_stored b.asks_orderly) (b.uncrossed v)
