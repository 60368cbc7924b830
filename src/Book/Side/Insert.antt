-- ===== src/Book/Side/Insert.antt =====
-- src/spot_book.cpp: `insert_level` on the array is a sorted insertion into the levels in use.
use mathlib.Core.List.{append_assoc}
use Prim.Native.Nat.add
use mathlib.Core.Path.{ap₂, subst}
use native.Mathlib.Decide.{dec_lt, ℕ_discrete}
use ir_assignment.Prelude.{
  ℕ, zero, suc, ◌+◌, ◌-◌, ◌≤◌, ◌<◌, ◌≡◌, ◌≢◌, refl, sym, ap, ◌∙◌, List, [], ◌∷◌, ◌++◌, arith,
  length, set, take, drop, take-set_above, length-set, length-take, take-all, if◌then◌else◌,
  Bool-cases, inl, inr,
}
use ir_assignment.Payload.{BookSide}
use ir_assignment.Book.Side.{
  Side, BookLevel, level_at, shift_up, insert_position, better_price, insert_level,
}
use ir_assignment.Book.Side.View.{contents, IsStored, insert_sorted}

shift_up-cons :
    (x : BookLevel) (xs : List BookLevel) (rounds d : ℕ)
    → rounds ≤ d
    → shift_up (x ∷ xs) rounds (suc d) ≡ x ∷ shift_up xs rounds d
unfolding shift_up
shift_up-cons x xs zero d h = refl
shift_up-cons x xs (suc rounds) zero h = absurd (omega arith)
shift_up-cons x xs (suc rounds) (suc d) h =
    shift_up-cons x (set xs (suc d) (level_at xs d)) rounds d (omega arith)

take-suc :
    (xs : List BookLevel) (n : ℕ)
    → n < length xs
    → take (suc n) xs ≡ take n xs ++ (level_at xs n ∷ [])
take-suc [] n h = absurd (omega arith)
take-suc (x ∷ xs) zero h = refl
take-suc (x ∷ xs) (suc n) h = ap (λ t. x ∷ t) (take-suc xs n (omega arith))

drop-set :
    (xs : List BookLevel) (n : ℕ) (v : BookLevel)
    → n < length xs
    → drop n (set xs n v) ≡ v ∷ drop (suc n) xs
drop-set [] n v h = absurd (omega arith)
drop-set (x ∷ xs) zero v h = refl
drop-set (x ∷ xs) (suc n) v h = drop-set xs n v (omega arith)

shift_up-head :
    (x : BookLevel) (xs : List BookLevel) (r : ℕ)
    → r ≤ length xs
    → shift_up (x ∷ xs) r r ≡ x ∷ (take r (x ∷ xs) ++ drop r xs)
unfolding shift_up
shift_up-head x xs zero h = refl
shift_up-head x xs (suc r) h =
    let v = level_at (x ∷ xs) r in
    shift_up-head x (set xs r v) r (rw length-set (omega arith))
    ∙ ap (λ t. x ∷ t)
        (ap₂ ◌++◌ (take-set_above r (x ∷ xs) (suc r) v (omega arith))
            (drop-set xs r v (omega arith))
          ∙ sym (append_assoc (take r (x ∷ xs)) (v ∷ []) (drop (suc r) xs))
          ∙ ap (λ t. t ++ drop (suc r) xs) (sym (take-suc (x ∷ xs) r (omega arith))))

take-length-append : (n : ℕ) (xs ys : List BookLevel) → length xs ≡ n → take n (xs ++ ys) ≡ xs
take-length-append zero [] ys h = refl
take-length-append zero (x ∷ xs) ys h = absurd (omega arith)
take-length-append (suc n) [] ys h = absurd (omega arith)
take-length-append (suc n) (x ∷ xs) ys h =
    ap (λ t. x ∷ t) (take-length-append n xs ys (omega arith))

-- Shifting up and writing the gap is inserting into the list.
take-shift_up :
    (xs : List BookLevel) (p r : ℕ) (l : BookLevel)
    → p + r < length xs
    → take (suc (p + r)) (set (shift_up xs r (p + r)) p l) ≡ take p xs ++ (l ∷ take r (drop p xs))
take-shift_up [] p r l h = absurd (omega arith)
take-shift_up (x ∷ xs) zero r l h =
    rw (add.zero r, shift_up-head x xs r (omega arith))
      (ap (λ t. l ∷ t)
        (take-length-append r (take r (x ∷ xs)) (drop r xs)
          (omega (arith, length-take r (x ∷ xs)))))
take-shift_up (x ∷ xs) (suc p) r l h =
    rw (add.suc p r, shift_up-cons x xs r (p + r) (omega arith))
      (ap (λ t. x ∷ t) (take-shift_up xs p r l (omega arith)))

length-shift_up : (xs : List BookLevel) (k i : ℕ) → length (shift_up xs k i) ≡ length xs
unfolding shift_up
length-shift_up xs zero i = refl
length-shift_up xs (suc k) zero = refl
length-shift_up xs (suc k) (suc i) =
    length-shift_up (set xs (suc i) (level_at xs i)) k i ∙ length-set xs (suc i) _

-- The number of leading levels that are better than a price.
abbrev pub rank : BookSide → ℕ → List BookLevel → ℕ
rank b p [] = 0
rank b p (x ∷ xs) = if better_price b x.price p then suc (rank b p xs) else 0

insert_position-cons :
    (b : BookSide) (x : BookLevel) (xs : List BookLevel) (rounds i p : ℕ)
    → insert_position b (x ∷ xs) rounds (suc i) p ≡ suc (insert_position b xs rounds i p)
unfolding insert_position
insert_position-cons b x xs zero i p = refl
insert_position-cons b x xs (suc rounds) i p =
    elim (Bool-cases (better_price b (level_at xs i).price p)) [
      | inl e ↦ rw e (insert_position-cons b x xs rounds (suc i) p)
      | inr e ↦ rw e
    ]

insert_position-rank :
    (b : BookSide) (xs : List BookLevel) (rounds p : ℕ)
    → rounds ≤ length xs
    → insert_position b xs rounds 0 p ≡ rank b p (take rounds xs)
unfolding insert_position
insert_position-rank b [] zero p h = refl
insert_position-rank b [] (suc rounds) p h = absurd (omega arith)
insert_position-rank b (x ∷ xs) zero p h = refl
insert_position-rank b (x ∷ xs) (suc rounds) p h = elim (Bool-cases (better_price b x.price p)) [
  | inl e ↦ rw e (
      insert_position-cons b x xs rounds 0 p
      ∙ ap suc (insert_position-rank b xs rounds p (omega arith)))
  | inr e ↦ rw e
]

pub rank-le : (b : BookSide) (p : ℕ) (xs : List BookLevel) → rank b p xs ≤ length xs
rank-le b p [] = omega arith
rank-le b p (x ∷ xs) = ground (arith, rank-le b p xs)

insert_sorted-rank :
    (b : BookSide) (l : BookLevel) (xs : List BookLevel)
    → insert_sorted b l xs ≡ take (rank b l.price xs) xs ++ (l ∷ drop (rank b l.price xs) xs)
insert_sorted-rank b l [] = refl
insert_sorted-rank b l (x ∷ xs) = elim (Bool-cases (better_price b x.price l.price)) [
  | inl e ↦ rw e (ap (λ t. x ∷ t) (insert_sorted-rank b l xs))
  | inr e ↦ rw e
]

pub take-take : (m n : ℕ) (xs : List BookLevel) → m ≤ n → take m (take n xs) ≡ take m xs
take-take zero n xs h = refl
take-take (suc m) zero xs h = absurd (omega arith)
take-take (suc m) (suc n) [] h = refl
take-take (suc m) (suc n) (x ∷ xs) h = ap (λ t. x ∷ t) (take-take m n xs (omega arith))

take-nil : (n : ℕ) → take {A = BookLevel} n [] ≡ []
take-nil zero = refl
take-nil (suc n) = refl

-- What the array holds after an insertion, as a cut of the inserted list.
splice :
    (xs : List BookLevel) (l : BookLevel) (p m n : ℕ)
    → p ≤ m
    → m ≤ n
    → take (suc m) (take p (take n xs) ++ (l ∷ drop p (take n xs)))
      ≡ take p xs ++ (l ∷ take (m - p) (drop p xs))
splice xs l zero m n h k = ap (λ t. l ∷ t) (take-take m n xs k ∙ ap (λ c. take c xs) (omega arith))
splice xs l (suc p) zero n h k = absurd (omega arith)
splice xs l (suc p) (suc m) zero h k = absurd (omega arith)
splice [] l (suc p) (suc m) (suc n) h k = rw take-nil
splice (x ∷ xs) l (suc p) (suc m) (suc n) h k =
    ap (λ t. x ∷ t)
      (splice xs l p m n (omega arith) (omega arith)
        ∙ ap (λ k. take p xs ++ (l ∷ take k (drop p xs))) (omega arith))

-- The array after the two writes of an insertion at `p`, with `limit` the last slot that moves.
abbrev placed : Side → BookLevel → ℕ → ℕ → List BookLevel
placed s l p limit = set (shift_up s.levels (limit - p) limit) p l

module _ (s : Side) (b : BookSide) (l : BookLevel) where
  abbrev position : ℕ
  position = insert_position b s.levels s.size 0 l.price

  insert_small :
      s.size < 5
      → insert_level s b l ≡ record { levels = placed s l position s.size; size = suc s.size }
  unfolding insert_level
  insert_small h = ground arith

  insert_full :
      s.size ≡ 5
      → position ≢ 5
      → insert_level s b l ≡ record { levels = placed s l position 4; size = s.size }
  unfolding insert_level
  insert_full h k = ground arith

  insert_worst : s.size ≡ 5 → position ≡ 5 → insert_level s b l ≡ s
  unfolding insert_level
  insert_worst h k = ground arith

take-placed :
    (s : Side) (l : BookLevel) (p limit : ℕ)
    → IsStored s
    → p ≤ limit
    → limit < 5
    → take (suc limit) (placed s l p limit)
      ≡ take p s.levels ++ (l ∷ take (limit - p) (drop p s.levels))
take-placed s l p limit v h k =
    let whole : p + (limit - p) ≡ limit = omega arith in
    subst
      (λ n.
        take (suc n) (set (shift_up s.levels (limit - p) n) p l)
        ≡ take p s.levels ++ (l ∷ take (limit - p) (drop p s.levels)))
      whole (take-shift_up s.levels p (limit - p) l (omega arith))

length-placed :
    (s : Side) (l : BookLevel) (p limit : ℕ) → IsStored s → length (placed s l p limit) ≡ 5
length-placed s l p limit v =
    length-set (shift_up s.levels (limit - p) limit) p l
    ∙ length-shift_up s.levels (limit - p) limit
    ∙ v.slots

pub length-insert_sorted :
    (b : BookSide) (l : BookLevel) (xs : List BookLevel)
    → length (insert_sorted b l xs) ≡ suc (length xs)
length-insert_sorted b l [] = refl
length-insert_sorted b l (x ∷ xs) = ground (arith, length-insert_sorted b l xs)

pub length-contents : (s : Side) → IsStored s → length (contents s) ≡ s.size
length-contents s v = omega (arith, length-take s.size s.levels)

module _ (s : Side) (b : BookSide) (l : BookLevel) (v : IsStored s) where
  position-rank : position s b l ≡ rank b l.price (contents s)
  position-rank = insert_position-rank b s.levels s.size l.price (omega arith)

  position-le : position s b l ≤ s.size
  position-le = omega (arith, position-rank, rank-le b l.price (contents s), length-contents s v)

  inserted :
      insert_sorted b l (contents s)
      ≡ take (position s b l) (contents s) ++ (l ∷ drop (position s b l) (contents s))
  inserted = rw position-rank (insert_sorted-rank b l (contents s))

  -- Below the depth, and at the depth with a level that is not the worst.
  contents-placed :
      (limit : ℕ)
      → position s b l ≤ limit
      → limit ≤ s.size
      → limit < 5
      → take (suc limit) (placed s l (position s b l) limit)
        ≡ take (suc limit) (insert_sorted b l (contents s))
  contents-placed limit h k small =
      take-placed s l (position s b l) limit v h small
      ∙ sym (splice s.levels l (position s b l) limit s.size h k)
      ∙ ap (take (suc limit)) (sym inserted)

  contents-worst :
      s.size ≡ 5 → position s b l ≡ 5 → contents s ≡ take 5 (insert_sorted b l (contents s))
  contents-worst full worst =
      let size = length-contents s v in
      let all = take-all (position s b l) (contents s) (omega arith) in
      sym (
        ap (take 5) (inserted ∙ ap (λ t. t ++ (l ∷ drop (position s b l) (contents s))) all)
        ∙ take-length-append 5 (contents s) _ (omega arith))

-- Insertion keeps the best five of the old levels and the new one.
pub insert_level-contents :
    (s : Side) (b : BookSide) (l : BookLevel)
    → IsStored s
    → (contents (insert_level s b l) ≡ take 5 (insert_sorted b l (contents s)))
      × IsStored (insert_level s b l)
insert_level-contents s b l v = elim (dec_lt s.size 5) [
  | yes small ↦
      let whole = length-insert_sorted b l (contents s) in
      let size = length-contents s v in
      rw (insert_small s b l small) (
        contents-placed s b l v s.size (position-le s b l v) (omega arith) small
            ∙ take-all (suc s.size) _ (omega arith)
            ∙ sym (take-all 5 _ (omega arith)),
        record { slots = length-placed s l _ s.size v; within = small },
      )
  | no big ↦
      let full : s.size ≡ 5 = omega arith in
      elim (ℕ_discrete (position s b l) 5) [
        | yes worst ↦ rw (insert_worst s b l full worst) (contents-worst s b l v full worst, v)
        | no better ↦
            let le = position-le s b l v in
            rw (insert_full s b l full better) (
              subst
                  (λ n.
                    take n (placed s l (position s b l) 4)
                    ≡ take 5 (insert_sorted b l (contents s)))
                  (sym full) (contents-placed s b l v 4 (omega arith) (omega arith) (omega arith)),
              record { slots = length-placed s l _ 4 v; within = v.within },
            )
      ]
]
