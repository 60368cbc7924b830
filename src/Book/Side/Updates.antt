-- ===== src/Book/Side/Updates.antt =====
-- src/spot_book.cpp: `apply_updates` against a book side of any depth.
use native.Mathlib.Decide.{ℕ_discrete}
use ir_assignment.Prelude.{
  ℕ, zero, suc, ◌≤◌, ◌<◌, ◌≡◌, ◌≢◌, inl, inr, refl, sym, ap, ◌∙◌, true, false, Bool-cases, List, [],
  ◌∷◌, arith, All, All-take, take, take-all, length, set, length-set, ◌==◌, not, ◌||◌,
}
use ir_assignment.Payload.{BookSide, LevelUpdate}
use ir_assignment.Book.Side.{
  Side, BookLevel, level_at, level_of, better_price, find_price, set_quantity, erase_level,
  amend_level, amend_levels, add_level, add_levels, apply_updates, insert_level,
}
use ir_assignment.Book.Side.View.{
  contents, IsStored, index_of, remove_at, insert_sorted, find_price-index_of, erase_level-contents,
}
use ir_assignment.Book.Side.Insert.{insert_level-contents, length-contents, take-take}
use ir_assignment.Book.Side.Reference.{
  amend, amend_all, add, add_all, updated, override, IsDistinct, IsOrderly, Keeps, amend-Keeps,
  All-Keeps-self, updated-IsOrderly, quantity_at-updated, HasPrice, amend-IsOrderly,
}
use ir_assignment.Book.Side.Order.{take-IsSorted, IsPositive, quantity_at, remove, replace}

absent-index :
    (p : ℕ) (xs : List BookLevel)
    → All IsPositive xs
    → (index_of p xs == length xs) ≡ (quantity_at p xs == 0)
absent-index p [] h = refl
absent-index p (x ∷ xs) (h, hs) = ground (arith, absent-index p xs hs)

index_of-lt : (p : ℕ) (xs : List BookLevel) → quantity_at p xs ≢ 0 → index_of p xs < length xs
index_of-lt p [] h = absurd (h refl)
index_of-lt p (x ∷ xs) h = ground (arith, index_of-lt p xs)

remove_at-index_of : (p : ℕ) (xs : List BookLevel) → remove_at (index_of p xs) xs ≡ remove p xs
remove_at-index_of p [] = refl
remove_at-index_of p (x ∷ xs) = ground (arith, remove_at-index_of p xs)

-- Writing a quantity in the array is writing it in the list.
set-index_of :
    (p q n : ℕ) (xs : List BookLevel)
    → n ≤ length xs
    → quantity_at p (take n xs) ≢ 0
    → let i = index_of p (take n xs) in
      take n (set xs i (record { price = (level_at xs i).price; quantity = q }))
      ≡ replace p q (take n xs)
set-index_of p q zero xs h k = absurd (k refl)
set-index_of p q (suc n) [] h k = absurd (k refl)
set-index_of p q (suc n) (x ∷ xs) h k = elim (Bool-cases (x.price == p)) [
  | inl e ↦ rw e
  | inr e ↦ rw e (ap (λ t. x ∷ t) (set-index_of p q n xs (omega arith) (rw e at k)))
]

-- The test `find_price(original, price) == original.size`.
absent-test :
    (s : Side) (p : ℕ)
    → IsStored s
    → All IsPositive (contents s)
    → (find_price s p == s.size) ≡ (quantity_at p (contents s) == 0)
absent-test s p v pos = rw (find_price-index_of s p v) (
    ap (λ n. index_of p (contents s) == n) (sym (length-contents s v))
    ∙ absent-index p (contents s) pos)

module _ (original candidate : Side) (u : LevelUpdate) where
  amend_absent :
      (find_price original u.price == original.size) ≡ true
      → amend_level original candidate u ≡ candidate
  unfolding amend_level
  amend_absent h = ground arith

  amend_erased :
      (find_price original u.price == original.size) ≡ false
      → u.quantity ≡ 0
      → amend_level original candidate u ≡ erase_level candidate (find_price candidate u.price)
  unfolding amend_level
  amend_erased h k = ground arith

  amend_set :
      (find_price original u.price == original.size) ≡ false
      → u.quantity ≢ 0
      → amend_level original candidate u
        ≡ set_quantity candidate (find_price candidate u.price) u.quantity
  unfolding amend_level
  amend_set h k = ground arith

set_quantity-contents :
    (s : Side) (p q : ℕ)
    → IsStored s
    → quantity_at p (contents s) ≢ 0
    → (contents (set_quantity s (find_price s p) q) ≡ replace p q (contents s))
      × IsStored (set_quantity s (find_price s p) q)
set_quantity-contents s p q v h = (
  rw (find_price-index_of s p v) (set-index_of p q s.size s.levels (omega arith) h),
  record { slots = length-set s.levels _ _ ∙ v.slots; within = v.within },
)

erase_price-contents :
    (s : Side) (p : ℕ)
    → IsStored s
    → quantity_at p (contents s) ≢ 0
    → (contents (erase_level s (find_price s p)) ≡ remove p (contents s))
      × IsStored (erase_level s (find_price s p))
erase_price-contents s p v h =
    let found = find_price-index_of s p v in
    let inside = index_of-lt p (contents s) h in
    let (same, stored) =
      erase_level-contents s (find_price s p) v
        (omega (arith, found, inside, length-contents s v)) in
    (same ∙ ap (λ i. remove_at i (contents s)) found ∙ remove_at-index_of p (contents s), stored)

module _ (original : Side) (v : IsStored original) (pos : All IsPositive (contents original)) where
  -- One round of the first loop.
  amend_level-contents :
      (candidate : Side) (u : LevelUpdate)
      → IsStored candidate
      → Keeps (contents original) (contents candidate) u
      → (contents (amend_level original candidate u)
          ≡ amend (contents original) (contents candidate) u)
        × IsStored (amend_level original candidate u)
  amend_level-contents candidate u w keep =
      let test = absent-test original u.price v pos in
      elim (Bool-cases (quantity_at u.price (contents original) == 0)) [
        | inl absent ↦ rw (amend_absent original candidate u (test ∙ absent)) (rw absent, w)
        | inr present ↦
            let there = keep (λ e. ground arith) in
            elim (ℕ_discrete u.quantity 0) [
              | yes gone ↦
                  let (same, stored) = erase_price-contents candidate u.price w there in
                  rw (amend_erased original candidate u (test ∙ present) gone)
                    (same ∙ ground arith, stored)
              | no given ↦
                  let (same, stored) = set_quantity-contents candidate u.price u.quantity w there in
                  rw (amend_set original candidate u (test ∙ present) given)
                    (same ∙ ground arith, stored)
            ]
      ]

  -- The first loop.
  amend_levels-contents :
      (b : BookSide) (us : List LevelUpdate) (candidate : Side)
      → IsStored candidate
      → IsOrderly b (contents candidate)
      → IsDistinct us
      → All (Keeps (contents original) (contents candidate)) us
      → (contents (amend_levels original candidate us)
          ≡ amend_all (contents original) us (contents candidate))
        × IsStored (amend_levels original candidate us)
  unfolding amend_levels
  amend_levels-contents b [] candidate w h d k = (refl, w)
  amend_levels-contents b (u ∷ us) candidate w h (d, ds) (k, ks) =
      let next = amend_level original candidate u in
      let (same, stored) = amend_level-contents candidate u w k in
      let orderly = amend-IsOrderly b (contents original) (contents candidate) u h in
      let keeps = amend-Keeps b (contents original) u us (contents candidate) h.0 k d ks in
      let (rest, stored') =
        amend_levels-contents b us next stored (rw same orderly) ds (rw same keeps) in
      (rest ∙ ap (amend_all (contents original) us) same, stored')

take-insert_sorted :
    (b : BookSide) (l : BookLevel) (n : ℕ) (xs : List BookLevel)
    → take n (insert_sorted b l (take n xs)) ≡ take n (insert_sorted b l xs)
take-insert_sorted b l zero xs = refl
take-insert_sorted b l (suc n) [] = refl
take-insert_sorted b l (suc n) (x ∷ xs) = elim (Bool-cases (better_price b x.price l.price)) [
  | inl e ↦ rw e (ap (λ t. x ∷ t) (take-insert_sorted b l n xs))
  | inr e ↦ rw e (ap (λ t. l ∷ t) (take-take n (suc n) (x ∷ xs) (omega arith)))
]

module _ (original : List BookLevel) (b : BookSide) where
  take-add :
      (n : ℕ) (xs : List BookLevel) (u : LevelUpdate)
      → take n (add original b (take n xs) u) ≡ take n (add original b xs u)
  take-add n xs u = elim (Bool-cases (u.quantity == 0 || not (quantity_at u.price original == 0))) [
    | inl e ↦ rw e (take-take n n xs (omega arith))
    | inr e ↦ rw e (take-insert_sorted b (level_of u) n xs)
  ]

  -- Cutting the side after each insertion or once at the end is the same.
  take-add_all :
      (n : ℕ) (us : List LevelUpdate) (xs : List BookLevel)
      → take n (add_all original b us (take n xs)) ≡ take n (add_all original b us xs)
  take-add_all n [] xs = take-take n n xs (omega arith)
  take-add_all n (u ∷ us) xs =
      sym (take-add_all n us (add original b (take n xs) u))
      ∙ ap (λ t. take n (add_all original b us t)) (take-add n xs u)
      ∙ take-add_all n us (add original b xs u)

module _ (original : Side) (v : IsStored original) (pos : All IsPositive (contents original))
    (b : BookSide) where
  add_skipped :
      (candidate : Side) (u : LevelUpdate)
      → (u.quantity == 0 || not (find_price original u.price == original.size)) ≡ true
      → add_level original b candidate u ≡ candidate
  unfolding add_level
  add_skipped candidate u h = rw h

  add_inserted :
      (candidate : Side) (u : LevelUpdate)
      → (u.quantity == 0 || not (find_price original u.price == original.size)) ≡ false
      → add_level original b candidate u ≡ insert_level candidate b (level_of u)
  unfolding add_level
  add_inserted candidate u h = rw h

  -- One round of the second loop.
  add_level-contents :
      (candidate : Side) (u : LevelUpdate)
      → IsStored candidate
      → (contents (add_level original b candidate u)
          ≡ take 5 (add (contents original) b (contents candidate) u))
        × IsStored (add_level original b candidate u)
  add_level-contents candidate u w =
      let test = ap (λ t. u.quantity == 0 || not t) (absent-test original u.price v pos) in
      elim (Bool-cases (u.quantity == 0 || not (quantity_at u.price (contents original) == 0))) [
        | inl skip ↦
            rw (add_skipped candidate u (test ∙ skip), skip)
              (
                sym (take-all 5 (contents candidate) (omega (arith, length-contents candidate w))),
                w,
              )
        | inr new ↦
            rw (add_inserted candidate u (test ∙ new), new)
              (insert_level-contents candidate b (level_of u) w)
      ]

  -- The second loop.
  add_levels-contents :
      (us : List LevelUpdate) (candidate : Side)
      → IsStored candidate
      → (contents (add_levels original b candidate us)
          ≡ take 5 (add_all (contents original) b us (contents candidate)))
        × IsStored (add_levels original b candidate us)
  unfolding add_levels
  add_levels-contents [] candidate w =
      (sym (take-all 5 (contents candidate) (omega (arith, length-contents candidate w))), w)
  add_levels-contents (u ∷ us) candidate w =
      let (same, stored) = add_level-contents candidate u w in
      let (rest, stored') = add_levels-contents us (add_level original b candidate u) stored in
      (
        rest
            ∙ ap (λ t. take 5 (add_all (contents original) b us t)) same
            ∙ take-add_all (contents original) b 5 us
                (add (contents original) b (contents candidate) u),
        stored',
      )

-- The updates of one side, applied to the array, give the best five levels of the side after them.
pub apply_updates-contents :
    (s : Side) (us : List LevelUpdate) (b : BookSide)
    → IsStored s
    → IsOrderly b (contents s)
    → IsDistinct us
    → (contents (apply_updates s us b) ≡ take 5 (updated b (contents s) us))
      × IsStored (apply_updates s us b)
unfolding apply_updates
apply_updates-contents s us b v h d =
    let (same, stored) =
      amend_levels-contents s v h.1 b us s v h d (All-Keeps-self (contents s) us) in
    let (rest, stored') = add_levels-contents s v h.1 b us (amend_levels s s us) stored in
    (rest ∙ ap (λ t. take 5 (add_all (contents s) b us t)) same, stored')

-- What one side shows after its updates: at most five levels, best first, that are the best of a side
-- in which each updated price has its new quantity (none if it is zero) and every other the old one.
pub apply_updates_lem :
    (s : Side) (us : List LevelUpdate) (b : BookSide)
    → IsStored s
    → IsOrderly b (contents s)
    → All HasPrice us
    → IsDistinct us
    → (full : List BookLevel) × IsOrderly b full
      × ((p : ℕ) → quantity_at p full ≡ override p us (quantity_at p (contents s)))
      × (contents (apply_updates s us b) ≡ take 5 full)
      × IsStored (apply_updates s us b)
      × IsOrderly b (contents (apply_updates s us b))
apply_updates_lem s us b v h p d =
    let (same, stored) = apply_updates-contents s us b v h d in
    let full = updated b (contents s) us in
    let orderly : IsOrderly b full = updated-IsOrderly b (contents s) h us p d in
    (
      full,
      orderly,
      λ q. quantity_at-updated b (contents s) h us q d,
      same,
      stored,
      rw same (take-IsSorted b 5 full orderly.0, All-take IsPositive 5 full orderly.1),
    )
