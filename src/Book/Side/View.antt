-- ===== src/Book/Side/View.antt =====
-- src/spot_book.cpp: the levels in use, and each array operation as one on lists.
use Prim.Native.Nat.add
use ir_assignment.Prelude.{
  ℕ, zero, suc, ◌+◌, ◌-◌, ◌%◌, ◌^◌, ◌≤◌, ◌<◌, ◌≡◌, refl, ap, ◌∙◌, List, [], ◌∷◌, arith, length, set,
  take, take-set_above, length-set, if◌then◌else◌, ◌==◌,
}
use ir_assignment.Payload.{BookSide}
use ir_assignment.Book.Side.{
  Side, BookLevel, empty_level, level_at, shift_down, find_from, find_price, better_price,
  erase_level,
}

-- The levels in use, best first.
abbrev pub contents : Side → List BookLevel
contents s = take s.size s.levels

pub record IsStored (s : Side) : Type 0 where
  pub slots : length s.levels ≡ 5
  pub within : s.size ≤ 5

-- The position of a price, or the length.
abbrev pub index_of : ℕ → List BookLevel → ℕ
index_of p [] = 0
index_of p (x ∷ xs) = if x.price == p then 0 else suc (index_of p xs)

abbrev pub remove_at : ℕ → List BookLevel → List BookLevel
remove_at i [] = []
remove_at zero (x ∷ xs) = xs
remove_at (suc i) (x ∷ xs) = x ∷ remove_at i xs

abbrev pub insert_sorted : BookSide → BookLevel → List BookLevel → List BookLevel
insert_sorted b l [] = l ∷ []
insert_sorted b l (x ∷ xs) =
    if better_price b x.price l.price then x ∷ insert_sorted b l xs else l ∷ x ∷ xs

find_from-cons :
    (x : BookLevel) (xs : List BookLevel) (rounds index p : ℕ)
    → find_from (x ∷ xs) rounds (suc index) p ≡ suc (find_from xs rounds index p)
unfolding find_from
find_from-cons x xs zero index p = refl
find_from-cons x xs (suc rounds) index p = ground (arith, find_from-cons x xs rounds (suc index) p)

find_from-index_of :
    (xs : List BookLevel) (rounds p : ℕ)
    → rounds ≤ length xs
    → find_from xs rounds 0 p ≡ index_of p (take rounds xs)
unfolding find_from
find_from-index_of [] zero p h = refl
find_from-index_of [] (suc rounds) p h = absurd (omega arith)
find_from-index_of (x ∷ xs) zero p h = refl
find_from-index_of (x ∷ xs) (suc rounds) p h =
    ground (arith, find_from-index_of xs rounds p, find_from-cons x xs rounds 0 p)

pub find_price-index_of : (s : Side) (p : ℕ) → IsStored s → find_price s p ≡ index_of p (contents s)
unfolding find_price
find_price-index_of s p v = find_from-index_of s.levels s.size p (omega arith)

shift_down-cons :
    (x : BookLevel) (xs : List BookLevel) (rounds d : ℕ)
    → shift_down (x ∷ xs) rounds (suc d) ≡ x ∷ shift_down xs rounds d
unfolding shift_down
shift_down-cons x xs zero d = refl
shift_down-cons x xs (suc rounds) d =
    shift_down-cons x (set xs d (level_at xs (suc d))) rounds (suc d)

shift_down-head :
    (x : BookLevel) (xs : List BookLevel) (k : ℕ)
    → k ≤ length xs
    → take k (shift_down (x ∷ xs) k 0) ≡ take k xs
unfolding shift_down
shift_down-head x xs zero h = refl
shift_down-head x [] (suc k) h = absurd (omega arith)
shift_down-head x (y ∷ ys) (suc k) h =
    rw (shift_down-cons y (y ∷ ys) k 0) (ap (λ t. y ∷ t) (shift_down-head y ys k (omega arith)))

-- Erasing in the array is erasing in the list.
take-shift_down :
    (xs : List BookLevel) (i k : ℕ)
    → i + k < length xs
    → take (i + k) (shift_down xs k i) ≡ remove_at i (take (suc (i + k)) xs)
take-shift_down [] i k h = absurd (omega arith)
take-shift_down (x ∷ xs) zero k h = rw (add.zero k) (shift_down-head x xs k (omega arith))
take-shift_down (x ∷ xs) (suc i) k h =
    rw (shift_down-cons x xs k i, add.suc i k)
      (ap (λ t. x ∷ t) (take-shift_down xs i k (omega arith)))

length-shift_down : (xs : List BookLevel) (k i : ℕ) → length (shift_down xs k i) ≡ length xs
unfolding shift_down
length-shift_down xs zero i = refl
length-shift_down xs (suc k) i =
    length-shift_down (set xs i (level_at xs (suc i))) k (suc i) ∙ length-set xs i _

pub erase_level-contents :
    (s : Side) (i : ℕ)
    → IsStored s
    → i < s.size
    → (contents (erase_level s i) ≡ remove_at i (contents s)) × IsStored (erase_level s i)
unfolding erase_level
erase_level-contents s i v h =
    let k = s.size - 1 - i in
    let smaller : (s.size + 2 ^ 64 - 1) % 2 ^ 64 ≡ i + k = omega arith in
    let whole : suc (i + k) ≡ s.size = omega arith in
    let moved : List BookLevel = shift_down s.levels k i in
    (
      rw smaller (
          take-set_above (i + k) moved (i + k) empty_level (omega arith)
          ∙ take-shift_down s.levels i k (omega arith)
          ∙ ap (λ n. remove_at i (take n s.levels)) whole),
      record {
        slots = length-set moved _ empty_level ∙ length-shift_down s.levels k i ∙ v.slots;
        within = omega arith;
      },
    )
