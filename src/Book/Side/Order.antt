-- ===== src/Book/Side/Order.antt =====
-- src/spot_book.cpp: lists of levels, best first with distinct prices, and the changes to them.
use ir_assignment.Prelude.{
  ℕ, zero, suc, ◌<◌, ◌≡◌, ◌≢◌, inl, inr, refl, true, false, Bool-cases, List, [], ◌∷◌, arith, All,
  All-take, take, if◌then◌else◌, ◌==◌, ltb→lt,
}
use ir_assignment.Payload.{BookSide, bid, ask}
use ir_assignment.Book.Side.{BookLevel, better_price}
use ir_assignment.Book.Side.View.{insert_sorted}

abbrev pub IsBetter : BookSide → BookLevel → BookLevel → Type 0
IsBetter b x y = better_price b x.price y.price ≡ true

-- Every level is strictly better than all behind it.
abbrev pub IsSorted : BookSide → List BookLevel → Type 0
IsSorted b [] = Unit
IsSorted b (x ∷ xs) = All (IsBetter b x) xs × IsSorted b xs

abbrev pub IsPositive : BookLevel → Type 0
IsPositive l = (0 < l.price) × (0 < l.quantity)

-- The quantity at a price, 0 where there is no level.
abbrev pub quantity_at : ℕ → List BookLevel → ℕ
quantity_at p [] = 0
quantity_at p (x ∷ xs) = if x.price == p then x.quantity else quantity_at p xs

abbrev pub remove : ℕ → List BookLevel → List BookLevel
remove p [] = []
remove p (x ∷ xs) = if x.price == p then xs else x ∷ remove p xs

abbrev pub replace : ℕ → ℕ → List BookLevel → List BookLevel
replace p q [] = []
replace p q (x ∷ xs) =
    if x.price == p then record { price = x.price; quantity = q } ∷ xs else x ∷ replace p q xs

pub IsBetter-ne : (b : BookSide) (x y : BookLevel) → IsBetter b x y → x.price ≢ y.price
IsBetter-ne bid x y h e = omega (arith, ltb→lt y.price x.price h)
IsBetter-ne ask x y h e = omega (arith, ltb→lt x.price y.price h)

IsBetter-trans :
    (b : BookSide) (x y z : BookLevel) → IsBetter b x y → IsBetter b y z → IsBetter b x z
IsBetter-trans bid x y z h k = ground arith
IsBetter-trans ask x y z h k = ground arith

IsBetter-total :
    (b : BookSide) (x y : BookLevel)
    → better_price b x.price y.price ≡ false
    → x.price ≢ y.price
    → IsBetter b y x
IsBetter-total bid x y h k = ground arith
IsBetter-total ask x y h k = ground arith

module _ (b : BookSide) where
  All-IsBetter-trans :
      (x y : BookLevel) (xs : List BookLevel)
      → IsBetter b x y
      → All (IsBetter b y) xs
      → All (IsBetter b x) xs
  All-IsBetter-trans x y [] h k = tt
  All-IsBetter-trans x y (z ∷ xs) h (k, ks) =
      (IsBetter-trans b x y z h k, All-IsBetter-trans x y xs h ks)

  pub quantity_at-worse :
      (x : BookLevel) (xs : List BookLevel) → All (IsBetter b x) xs → quantity_at x.price xs ≡ 0
  quantity_at-worse x [] h = refl
  quantity_at-worse x (y ∷ xs) (h, hs) =
      ground (arith, IsBetter-ne b x y h, quantity_at-worse x xs hs)

All-remove {ℓ} :
    (P : BookLevel → Type ℓ) (p : ℕ) (xs : List BookLevel) → All P xs → All P (remove p xs)
All-remove P p [] h = tt
All-remove P p (x ∷ xs) (h, hs) = elim (Bool-cases (x.price == p)) [
  | inl e ↦ rw e hs
  | inr e ↦ rw e (h, All-remove P p xs hs)
]

pub remove-IsSorted :
    (b : BookSide) (p : ℕ) (xs : List BookLevel) → IsSorted b xs → IsSorted b (remove p xs)
remove-IsSorted b p [] h = tt
remove-IsSorted b p (x ∷ xs) (h, hs) = elim (Bool-cases (x.price == p)) [
  | inl e ↦ rw e hs
  | inr e ↦ rw e (All-remove (IsBetter b x) p xs h, remove-IsSorted b p xs hs)
]

pub remove-IsPositive :
    (p : ℕ) (xs : List BookLevel) → All IsPositive xs → All IsPositive (remove p xs)
remove-IsPositive = All-remove IsPositive

pub quantity_at-remove :
    (b : BookSide) (p q : ℕ) (xs : List BookLevel)
    → IsSorted b xs
    → quantity_at q (remove p xs) ≡ (if p == q then 0 else quantity_at q xs)
quantity_at-remove b p q [] h = ground arith
quantity_at-remove b p q (x ∷ xs) (h, hs) =
    ground (arith, quantity_at-worse b x xs h, quantity_at-remove b p q xs hs)

replace-IsBetter :
    (b : BookSide) (x : BookLevel) (p q : ℕ) (xs : List BookLevel)
    → All (IsBetter b x) xs
    → All (IsBetter b x) (replace p q xs)
replace-IsBetter b x p q [] h = tt
replace-IsBetter b x p q (y ∷ xs) (h, hs) = elim (Bool-cases (y.price == p)) [
  | inl e ↦ rw e (h, hs)
  | inr e ↦ rw e (h, replace-IsBetter b x p q xs hs)
]

pub replace-IsSorted :
    (b : BookSide) (p q : ℕ) (xs : List BookLevel) → IsSorted b xs → IsSorted b (replace p q xs)
replace-IsSorted b p q [] h = tt
replace-IsSorted b p q (x ∷ xs) (h, hs) = elim (Bool-cases (x.price == p)) [
  | inl e ↦ rw e (h, hs)
  | inr e ↦ rw e (replace-IsBetter b x p q xs h, replace-IsSorted b p q xs hs)
]

pub replace-IsPositive :
    (p q : ℕ) (xs : List BookLevel) → 0 < q → All IsPositive xs → All IsPositive (replace p q xs)
replace-IsPositive p q [] pos h = tt
replace-IsPositive p q (x ∷ xs) pos (h, hs) = elim (Bool-cases (x.price == p)) [
  | inl e ↦ rw e ((h.0, pos), hs)
  | inr e ↦ rw e (h, replace-IsPositive p q xs pos hs)
]

pub quantity_at-replace :
    (p q r : ℕ) (xs : List BookLevel)
    → quantity_at p xs ≢ 0
    → quantity_at r (replace p q xs) ≡ (if p == r then q else quantity_at r xs)
quantity_at-replace p q r [] h = absurd (h refl)
quantity_at-replace p q r (x ∷ xs) h = ground (arith, quantity_at-replace p q r xs)

insert_sorted-IsBetter :
    (b : BookSide) (x l : BookLevel) (xs : List BookLevel)
    → IsBetter b x l
    → All (IsBetter b x) xs
    → All (IsBetter b x) (insert_sorted b l xs)
insert_sorted-IsBetter b x l [] h k = (h, tt)
insert_sorted-IsBetter b x l (y ∷ xs) h (k, ks) =
    elim (Bool-cases (better_price b y.price l.price)) [
      | inl e ↦ rw e (k, insert_sorted-IsBetter b x l xs h ks)
      | inr e ↦ rw e (h, (k, ks))
    ]

pub insert_sorted-IsSorted :
    (b : BookSide) (l : BookLevel) (xs : List BookLevel)
    → quantity_at l.price xs ≡ 0
    → All IsPositive xs
    → IsSorted b xs
    → IsSorted b (insert_sorted b l xs)
insert_sorted-IsSorted b l [] absent pos h = (tt, tt)
insert_sorted-IsSorted b l (x ∷ xs) absent (pos, poss) (h, hs) =
    let other : x.price ≢ l.price = ground arith in
    elim (Bool-cases (better_price b x.price l.price)) [
      | inl e ↦ rw e (
        insert_sorted-IsBetter b x l xs e h,
        insert_sorted-IsSorted b l xs (ground arith) poss hs,
      )
      | inr e ↦
          let best : IsBetter b l x = IsBetter-total b x l e other in
          rw e ((best, All-IsBetter-trans b l x xs best h), (h, hs))
    ]

pub insert_sorted-IsPositive :
    (b : BookSide) (l : BookLevel) (xs : List BookLevel)
    → IsPositive l
    → All IsPositive xs
    → All IsPositive (insert_sorted b l xs)
insert_sorted-IsPositive b l [] h k = (h, tt)
insert_sorted-IsPositive b l (x ∷ xs) h (k, ks) =
    elim (Bool-cases (better_price b x.price l.price)) [
      | inl e ↦ rw e (k, insert_sorted-IsPositive b l xs h ks)
      | inr e ↦ rw e (h, (k, ks))
    ]

pub quantity_at-insert_sorted :
    (b : BookSide) (l : BookLevel) (q : ℕ) (xs : List BookLevel)
    → quantity_at q (insert_sorted b l xs) ≡ (if l.price == q then l.quantity else quantity_at q xs)
quantity_at-insert_sorted b l q [] = refl
quantity_at-insert_sorted b l q (x ∷ xs) = elim (Bool-cases (better_price b x.price l.price)) [
  | inl e ↦ rw e (ground (arith, quantity_at-insert_sorted b l q xs, IsBetter-ne b x l e))
  | inr e ↦ rw e
]

pub take-IsSorted :
    (b : BookSide) (n : ℕ) (xs : List BookLevel) → IsSorted b xs → IsSorted b (take n xs)
take-IsSorted b zero xs h = tt
take-IsSorted b (suc n) [] h = tt
take-IsSorted b (suc n) (x ∷ xs) (h, hs) = (All-take (IsBetter b x) n xs h, take-IsSorted b n xs hs)
