-- ===== src/Csv/Tests.antt =====
-- The theorems on rows at an input.
use ir_assignment.Prelude.{ℕ, ◌≡◌, refl, true, [], ◌∷◌, arith}
use ir_assignment.Book.Side.{BookLevel, empty_level}
use ir_assignment.Book.Core.Keeps.{IsBook}
use ir_assignment.Book.Core.{Core}
use ir_assignment.Book.Side.View.{contents}
use ir_assignment.Csv.Format.{valid_book}
use ir_assignment.Csv.ValidBook.{valid_book_lem}

-- A bid at 100 and an ask at 101.
abbrev level : ℕ → BookLevel
level p = record { price = p; quantity = 1 }

abbrev narrow : Core
narrow = record {
  bids = record {
    levels = level 100 ∷ empty_level ∷ empty_level ∷ empty_level ∷ empty_level ∷ [];
    size = 1;
  };
  asks = record {
    levels = level 101 ∷ empty_level ∷ empty_level ∷ empty_level ∷ empty_level ∷ [];
    size = 1;
  };
  last_update_id = 5;
  valid = true;
}

narrow-IsBook : IsBook narrow
narrow-IsBook = record {
  bids_stored = record { slots = refl; within = omega arith };
  asks_stored = record { slots = refl; within = omega arith };
  bids_orderly = ((tt, tt), omega arith);
  asks_orderly = ((tt, tt), omega arith);
  uncrossed = λ v. omega arith;
}

valid_book_lem_example : valid_book (contents narrow.bids) (contents narrow.asks) ≡ true
valid_book_lem_example = valid_book_lem narrow narrow-IsBook refl
