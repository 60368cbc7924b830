-- ===== src/Book/Side/Reference.antt =====
-- src/spot_book.cpp: the two loops of `apply_updates` on sorted lists of levels, with no limit on the
-- depth, and the quantity that each price has after them.
use ir_assignment.Prelude.{
  ℕ, ◌<◌, ◌≡◌, ◌≢◌, refl, List, [], ◌∷◌, arith, All, if◌then◌else◌, if_cases, ◌==◌, not, ◌||◌,
}
use ir_assignment.Payload.{BookSide, LevelUpdate}
use ir_assignment.Book.Side.{BookLevel, level_of}
use ir_assignment.Book.Side.View.{insert_sorted}
use ir_assignment.Book.Side.Order.{
  IsSorted, IsPositive, quantity_at, remove, replace, remove-IsSorted, remove-IsPositive,
  quantity_at-remove, replace-IsSorted, replace-IsPositive, quantity_at-replace,
  insert_sorted-IsSorted, insert_sorted-IsPositive, quantity_at-insert_sorted,
}

-- The first loop on lists: a price that `original` has is removed or given its new quantity.
abbrev pub amend : List BookLevel → List BookLevel → LevelUpdate → List BookLevel
amend original xs u =
    if quantity_at u.price original == 0
    then xs
    else if u.quantity == 0
    then remove u.price xs
    else replace u.price u.quantity xs

abbrev pub amend_all : List BookLevel → List LevelUpdate → List BookLevel → List BookLevel
amend_all original [] xs = xs
amend_all original (u ∷ us) xs = amend_all original us (amend original xs u)

-- The second loop on lists, with no limit on the depth.
abbrev pub add : List BookLevel → BookSide → List BookLevel → LevelUpdate → List BookLevel
add original b xs u =
    if u.quantity == 0 || not (quantity_at u.price original == 0)
    then xs
    else insert_sorted b (level_of u) xs

abbrev pub add_all : List BookLevel → BookSide → List LevelUpdate → List BookLevel → List BookLevel
add_all original b [] xs = xs
add_all original b (u ∷ us) xs = add_all original b us (add original b xs u)

-- The whole side after the updates, as deep as it gets.
abbrev pub updated : BookSide → List BookLevel → List LevelUpdate → List BookLevel
updated b original us = add_all original b us (amend_all original us original)

-- What the updates make of the quantity at a price.
abbrev pub override : ℕ → List LevelUpdate → ℕ → ℕ
override p [] old = old
override p (u ∷ us) old = if u.price == p then u.quantity else override p us old

-- No two updates name one price.
abbrev pub IsDistinct : List LevelUpdate → Type 0
IsDistinct [] = Unit
IsDistinct (u ∷ us) = All (λ w. u.price ≢ w.price) us × IsDistinct us

abbrev pub HasPrice : LevelUpdate → Type 0
HasPrice u = 0 < u.price

-- Sorted, with positive prices and quantities.
abbrev pub IsOrderly : BookSide → List BookLevel → Type 0
IsOrderly b xs = IsSorted b xs × All IsPositive xs

-- The levels of `original` that the updates name are still there.
abbrev pub Keeps : List BookLevel → List BookLevel → LevelUpdate → Type 0
Keeps original xs u = quantity_at u.price original ≢ 0 → quantity_at u.price xs ≢ 0

-- The levels that the updates add are not there yet.
abbrev Lacks : List BookLevel → List BookLevel → LevelUpdate → Type 0
Lacks original xs u = quantity_at u.price original ≡ 0 → quantity_at u.price xs ≡ 0

override-absent :
    (u : LevelUpdate) (us : List LevelUpdate) (old : ℕ)
    → All (λ w. u.price ≢ w.price) us
    → override u.price us old ≡ old
override-absent u [] old h = refl
override-absent u (w ∷ us) old (h, hs) = ground (arith, override-absent u us old hs)

module _ (b : BookSide) (original : List BookLevel) where
  pub amend-IsOrderly :
      (xs : List BookLevel) (u : LevelUpdate) → IsOrderly b xs → IsOrderly b (amend original xs u)
  amend-IsOrderly xs u (h, k) =
      if_cases (IsOrderly b) (quantity_at u.price original == 0) (λ _. (h, k))
        λ _.
          if_cases (IsOrderly b) (u.quantity == 0)
            (λ _. (remove-IsSorted b u.price xs h, remove-IsPositive u.price xs k))
            (λ e. (
              replace-IsSorted b u.price u.quantity xs h,
              replace-IsPositive u.price u.quantity xs (ground arith) k,
            ))

  quantity_at-amend :
      (q : ℕ) (xs : List BookLevel) (u : LevelUpdate)
      → IsSorted b xs
      → Keeps original xs u
      → quantity_at q (amend original xs u) ≡ (
          if u.price == q
          then if quantity_at u.price original == 0 then quantity_at q xs else u.quantity
          else quantity_at q xs)
  quantity_at-amend q xs u h k =
      ground
        (arith, k, quantity_at-remove b u.price q xs h, quantity_at-replace u.price u.quantity q xs)

  pub amend-Keeps :
      (u : LevelUpdate) (us : List LevelUpdate) (xs : List BookLevel)
      → IsSorted b xs
      → Keeps original xs u
      → All (λ w. u.price ≢ w.price) us
      → All (Keeps original xs) us
      → All (Keeps original (amend original xs u)) us
  amend-Keeps u [] xs h k d ks = tt
  amend-Keeps u (w ∷ us) xs h k (d, ds) (kw, ks) = (
    λ e. ground (arith, quantity_at-amend w.price xs u h k, kw e, d),
    amend-Keeps u us xs h k ds ks,
  )

  pub amend_all-IsOrderly :
      (us : List LevelUpdate) (xs : List BookLevel)
      → IsOrderly b xs
      → IsOrderly b (amend_all original us xs)
  amend_all-IsOrderly [] xs h = h
  amend_all-IsOrderly (u ∷ us) xs h =
      amend_all-IsOrderly us (amend original xs u) (amend-IsOrderly xs u h)

  quantity_at-amend_all :
      (us : List LevelUpdate) (q : ℕ) (xs : List BookLevel)
      → IsOrderly b xs
      → IsDistinct us
      → All (Keeps original xs) us
      → quantity_at q (amend_all original us xs) ≡ (
          if quantity_at q original == 0
          then quantity_at q xs
          else override q us (quantity_at q xs))
  quantity_at-amend_all [] q xs h d k = ground arith
  quantity_at-amend_all (u ∷ us) q xs h (d, ds) (k, ks) = ground (
    arith,
    quantity_at-amend_all us q (amend original xs u) (amend-IsOrderly xs u h) ds
        (amend-Keeps u us xs h.0 k d ks),
    quantity_at-amend q xs u h.0 k,
    override-absent u us u.quantity d,
  )

  pub add-IsOrderly :
      (xs : List BookLevel) (u : LevelUpdate)
      → IsOrderly b xs
      → HasPrice u
      → Lacks original xs u
      → IsOrderly b (add original b xs u)
  add-IsOrderly xs u (h, k) pos lack =
      if_cases (IsOrderly b) (u.quantity == 0 || not (quantity_at u.price original == 0))
        (λ _. (h, k))
        (λ e. (
          insert_sorted-IsSorted b (level_of u) xs (ground (arith, lack)) k h,
          insert_sorted-IsPositive b (level_of u) xs (pos, ground arith) k,
        ))

  quantity_at-add :
      (q : ℕ) (xs : List BookLevel) (u : LevelUpdate)
      → Lacks original xs u
      → quantity_at q (add original b xs u) ≡ (
          if u.price == q
          then if quantity_at u.price original == 0 then u.quantity else quantity_at q xs
          else quantity_at q xs)
  quantity_at-add q xs u lack = ground (arith, lack, quantity_at-insert_sorted b (level_of u) q xs)

  add-Lacks :
      (u : LevelUpdate) (us : List LevelUpdate) (xs : List BookLevel)
      → Lacks original xs u
      → All (λ w. u.price ≢ w.price) us
      → All (Lacks original xs) us
      → All (Lacks original (add original b xs u)) us
  add-Lacks u [] xs k d ks = tt
  add-Lacks u (w ∷ us) xs k (d, ds) (kw, ks) =
      (λ e. ground (arith, quantity_at-add w.price xs u k, kw e, d), add-Lacks u us xs k ds ks)

  add_all-IsOrderly :
      (us : List LevelUpdate) (xs : List BookLevel)
      → IsOrderly b xs
      → All HasPrice us
      → IsDistinct us
      → All (Lacks original xs) us
      → IsOrderly b (add_all original b us xs)
  add_all-IsOrderly [] xs h p d k = h
  add_all-IsOrderly (u ∷ us) xs h (p, ps) (d, ds) (k, ks) =
      add_all-IsOrderly us (add original b xs u) (add-IsOrderly xs u h p k) ps ds
        (add-Lacks u us xs k d ks)

  quantity_at-add_all :
      (us : List LevelUpdate) (q : ℕ) (xs : List BookLevel)
      → IsDistinct us
      → All (Lacks original xs) us
      → quantity_at q (add_all original b us xs) ≡ (
          if quantity_at q original == 0
          then override q us (quantity_at q xs)
          else quantity_at q xs)
  quantity_at-add_all [] q xs d k = ground arith
  quantity_at-add_all (u ∷ us) q xs (d, ds) (k, ks) = ground (
    arith,
    quantity_at-add_all us q (add original b xs u) ds (add-Lacks u us xs k d ks),
    quantity_at-add q xs u k,
    override-absent u us u.quantity d,
  )

pub All-Keeps-self : (xs : List BookLevel) (us : List LevelUpdate) → All (Keeps xs xs) us
All-Keeps-self xs [] = tt
All-Keeps-self xs (u ∷ us) = (λ h. h, All-Keeps-self xs us)

module _ (b : BookSide) (original : List BookLevel) (h : IsOrderly b original) where
  amended-Lacks :
      (us ws : List LevelUpdate)
      → IsDistinct us
      → All (Lacks original (amend_all original us original)) ws
  amended-Lacks us [] d = tt
  amended-Lacks us (w ∷ ws) d = (
    λ e. ground (
      arith,
      quantity_at-amend_all b original us w.price original h d (All-Keeps-self original us),
      e,
    ),
    amended-Lacks us ws d,
  )

  -- The side after the updates is in order.
  pub updated-IsOrderly :
      (us : List LevelUpdate)
      → All HasPrice us
      → IsDistinct us
      → IsOrderly b (updated b original us)
  updated-IsOrderly us p d =
      add_all-IsOrderly b original us _ (amend_all-IsOrderly b original us original h) p d
        (amended-Lacks us us d)

  -- Each price has the quantity of its update, or the one it had.
  pub quantity_at-updated :
      (us : List LevelUpdate) (q : ℕ)
      → IsDistinct us
      → quantity_at q (updated b original us) ≡ override q us (quantity_at q original)
  quantity_at-updated us q d = ground (
    arith,
    quantity_at-add_all b original us q (amend_all original us original) d (amended-Lacks us us d),
    quantity_at-amend_all b original us q original h d (All-Keeps-self original us),
  )
