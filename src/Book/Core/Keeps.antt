-- ===== src/Book/Core/Keeps.antt =====
-- src/spot_book.cpp: what refreshes and diffs keep of the two sides.
use mathlib.Core.List.{append-nil, append_assoc}
use ir_assignment.Prelude.{
  if_cases, ◌&&◌, ltb, ℕ, zero, suc, ◌+◌, ◌≤◌, ◌<◌, ◌≡◌, refl, sym, ap, ◌∙◌, true, false, List, [],
  ◌∷◌, ◌++◌, arith, length, take, set, length-set,
}
use ir_assignment.Payload.{bid, ask, LevelUpdate, SpotDepthEvent}
use ir_assignment.Book.Side.{
  Side, BookLevel, level_of, crossed, refresh_from, make_refresh_side, empty_side, apply_updates,
}
use ir_assignment.Book.Side.View.{contents, IsStored}
use ir_assignment.Book.Side.Reference.{IsOrderly}
use ir_assignment.Book.Side.Updates.{apply_updates_lem}
use ir_assignment.Book.Core.{
  Core, BookApplyResult, initial, invalidate, apply_refresh, apply_accepted_diff,
}
use ir_assignment.Book.Core.Events.{levels_of, IsUncrossed, IsRefresh, IsDiff}

-- Both sides are stored and in order, and a valid book is not crossed.
pub record IsBook (book : Core) : Type 0 where
  pub bids_stored : IsStored book.bids
  pub asks_stored : IsStored book.asks
  pub bids_orderly : IsOrderly bid (contents book.bids)
  pub asks_orderly : IsOrderly ask (contents book.asks)
  pub uncrossed : book.valid ≡ true → IsUncrossed (contents book.bids) (contents book.asks)

pub initial-IsBook : IsBook initial
initial-IsBook = record {
  bids_stored = record { slots = refl; within = omega arith };
  asks_stored = record { slots = refl; within = omega arith };
  bids_orderly = (tt, tt);
  asks_orderly = (tt, tt);
  uncrossed = λ e. cc;
}

take-set_at :
    (n : ℕ) (xs : List BookLevel) (l : BookLevel)
    → n < length xs
    → take (suc n) (set xs n l) ≡ take n xs ++ (l ∷ [])
take-set_at n [] l h = absurd (omega arith)
take-set_at zero (x ∷ xs) l h = refl
take-set_at (suc n) (x ∷ xs) l h = ap (λ t. x ∷ t) (take-set_at n xs l (omega arith))

refresh_from-contents :
    (us : List LevelUpdate) (s : Side)
    → length s.levels ≡ 5
    → s.size + length us ≤ 5
    → (contents (refresh_from s us) ≡ contents s ++ levels_of us) × IsStored (refresh_from s us)
unfolding refresh_from
refresh_from-contents [] s h k =
    (sym (append-nil (contents s)), record { slots = h; within = omega arith })
refresh_from-contents (u ∷ us) s h k =
    let (same, stored) =
      refresh_from-contents us
        (record { levels = set s.levels s.size (level_of u); size = suc s.size })
        (length-set s.levels s.size (level_of u) ∙ h) (omega arith) in
    (
      same
          ∙ ap (λ t. t ++ levels_of us) (take-set_at s.size s.levels (level_of u) (omega arith))
          ∙ append_assoc (contents s) (level_of u ∷ []) (levels_of us),
      stored,
    )

-- For at most five levels, `make_refresh_side` shows the levels as they come, and its side is stored.
pub make_refresh_side-contents :
    (us : List LevelUpdate)
    → length us ≤ 5
    → (contents (make_refresh_side us) ≡ levels_of us) × IsStored (make_refresh_side us)
unfolding make_refresh_side
make_refresh_side-contents us h = refresh_from-contents us empty_side refl (omega arith)

crossed-slots :
    (xs ys : List BookLevel) (m n : ℕ)
    → crossed (record { levels = xs; size = m }) (record { levels = ys; size = n }) ≡ false
    → IsUncrossed (take m xs) (take n ys)
unfolding crossed
crossed-slots xs ys zero n h = tt
crossed-slots [] ys (suc m) n h = tt
crossed-slots (x ∷ xs) ys (suc m) zero h = tt
crossed-slots (x ∷ xs) [] (suc m) (suc n) h = tt
crossed-slots (x ∷ xs) (y ∷ ys) (suc m) (suc n) h = ground arith

-- `crossed` reads the first slots: where it fails, the best bid is below the best ask.
pub crossed-IsUncrossed :
    (bids asks : Side) → crossed bids asks ≡ false → IsUncrossed (contents bids) (contents asks)
crossed-IsUncrossed bids asks h = crossed-slots bids.levels asks.levels bids.size asks.size h

refreshed-IsBook :
    (book : Core) (e : SpotDepthEvent)
    → IsRefresh e
    → IsBook (record {
      bids = make_refresh_side e.bids;
      asks = make_refresh_side e.asks;
      last_update_id = e.final_update_id;
      valid = true;
    })
refreshed-IsBook book e r =
    let (bids, bids_stored) = make_refresh_side-contents e.bids r.few_bids in
    let (asks, asks_stored) = make_refresh_side-contents e.asks r.few_asks in
    record {
      bids_stored = bids_stored;
      asks_stored = asks_stored;
      bids_orderly = rw bids r.bids_orderly;
      asks_orderly = rw asks r.asks_orderly;
      uncrossed = λ _. rw (bids, asks) r.uncrossed;
    }

pub apply_refresh-IsBook :
    (book : Core) (e : SpotDepthEvent) → IsBook book → IsRefresh e → IsBook (apply_refresh book e).0
unfolding apply_refresh
apply_refresh-IsBook book e b r =
    if_cases (λ (x : Core × BookApplyResult). IsBook x.0)
      (book.valid && ltb e.final_update_id book.last_update_id) (λ _. b)
      (λ _. refreshed-IsBook book e r)

pub invalidate-IsBook : {book : Core} → IsBook book → IsBook (invalidate book)
invalidate-IsBook b = record {
  bids_stored = b.bids_stored;
  asks_stored = b.asks_stored;
  bids_orderly = b.bids_orderly;
  asks_orderly = b.asks_orderly;
  uncrossed = λ e. cc;
}

pub apply_accepted_diff-IsBook :
    (book : Core) (e : SpotDepthEvent)
    → IsBook book
    → IsDiff e
    → IsBook (apply_accepted_diff book e).0
unfolding apply_accepted_diff
apply_accepted_diff-IsBook book e b d =
    let (_, _, _, _, bids_stored, bids_orderly) =
      apply_updates_lem book.bids e.bids bid b.bids_stored b.bids_orderly d.bid_prices
        d.bids_distinct in
    let (_, _, _, _, asks_stored, asks_orderly) =
      apply_updates_lem book.asks e.asks ask b.asks_stored b.asks_orderly d.ask_prices
        d.asks_distinct in
    if_cases (λ (x : Core × BookApplyResult). IsBook x.0)
      (crossed (apply_updates book.bids e.bids bid) (apply_updates book.asks e.asks ask))
      (λ _. invalidate-IsBook b)
      (λ uncrossed. record {
        bids_stored = bids_stored;
        asks_stored = asks_stored;
        bids_orderly = bids_orderly;
        asks_orderly = asks_orderly;
        uncrossed = λ _. crossed-IsUncrossed _ _ uncrossed;
      })
